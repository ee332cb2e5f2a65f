-- ===== src/Slab/Create.antt =====
-- A new slab: all of its objects are free, in their order.
use panuti.Base.{
  ℕ, zero, suc, ◌+◌, ◌-◌, ◌≤◌, ◌<◌, ◌≡◌, refl, sym, ap, subst, ◌∙◌, false, List, [], ◌∷◌, arith,
  length, get_or, ◌==◌,
}
use native.Mathlib.Nat.{div-le_self}
use panuti.Slab.{Slab, no_index, links, capacity_of, fresh, header_size}
use panuti.Slab.Chain.{is_in, Links, IsSlab}

abbrev pub from : (i n : ℕ) → List ℕ
from i zero = []
from i (suc n) = i ∷ from (i + 1) n

length-from : (i n : ℕ) → length (from i n) ≡ n
length-from i zero = refl
length-from i (suc n) = ap suc (length-from (i + 1) n)

length-links : (i n : ℕ) → length (links i n) ≡ n
unfolding links
length-links i zero = refl
length-links i (suc zero) = refl
length-links i (suc (suc n)) = ap suc (length-links (i + 1) (suc n))

is_in-from : (j i n : ℕ) → j < i → is_in j (from i n) ≡ false
is_in-from j i zero lt = refl
is_in-from j i (suc n) lt =
    let other : (i == j) ≡ false = ground arith in rw other (is_in-from j (i + 1) n (omega arith))

-- Word `i + k` of the slab is word `k` of the links from `i` on.
links-Links :
    (words : List ℕ) (i n : ℕ)
    → ((k : ℕ) → k < suc n → get_or words (i + k) 0 ≡ get_or (links i (suc n)) k 0)
    → i + suc n ≤ length words
    → Links words i (from i (suc n))
unfolding links
links-Links words i zero same le =
    let last : get_or words (i + 0) 0 ≡ no_index = same 0 (omega arith) in
    let at : i + 0 ≡ i = omega arith in
    (refl, omega arith, refl, subst (λ j. get_or words j 0 ≡ no_index) at last)
links-Links words i (suc n) same le =
    let first : get_or words (i + 0) 0 ≡ i + 1 = same 0 (omega arith) in
    let at : i + 0 ≡ i = omega arith in
    let next : get_or words i 0 ≡ i + 1 = subst (λ j. get_or words j 0 ≡ i + 1) at first in
    (
      refl,
      omega arith,
      is_in-from i (i + 1) (suc n) (omega arith),
      subst (λ j. Links words j (from (i + 1) (suc n))) (sym next)
          (links-Links words (i + 1) n
            (λ k lt.
              let shift : i + 1 + k ≡ i + suc k = omega arith in
              ap (λ j. get_or words j 0) shift ∙ same (suc k) (omega arith))
            (omega arith)),
    )

links-IsSlab :
    (s : Slab) (n : ℕ)
    → s.capacity ≡ suc n
    → s.words ≡ links 0 (suc n)
    → s.free ≡ 0
    → s.used ≡ 0
    → suc n < no_index
    → IsSlab s (from 0 (suc n))
links-IsSlab s n sized linked first unused small = record {
  linked =
      subst (λ w. Links w s.free (from 0 (suc n))) (sym linked)
        (subst (λ f. Links (links 0 (suc n)) f (from 0 (suc n))) (sym first)
          (links-Links (links 0 (suc n)) 0 n
            (λ k lt. let at : 0 + k ≡ k = omega arith in ap (λ j. get_or (links 0 (suc n)) j 0) at)
            (omega (arith, length-links 0 (suc n)))));
  sized = ap length linked ∙ length-links 0 (suc n) ∙ sym sized;
  counted = omega (arith, length-from 0 (suc n));
  small = omega arith;
}

-- A new slab that has objects has them all on the list.
pub fresh-IsSlab :
    (page obj_size : ℕ)
    → 0 < capacity_of obj_size
    → IsSlab (fresh page obj_size) (from 0 (capacity_of obj_size))
fresh-IsSlab page obj_size some_object = by_capacity (capacity_of obj_size) refl
  where
    by_capacity :
        (n : ℕ)
        → capacity_of obj_size ≡ n
        → IsSlab (fresh page obj_size) (from 0 (capacity_of obj_size))
    by_capacity zero e = absurd (omega arith)
    by_capacity (suc n) e =
        let le : capacity_of obj_size ≤ 4096 - header_size obj_size = div-le_self _ _ in
        subst (λ c. IsSlab (fresh page obj_size) (from 0 c)) (sym e)
          (links-IsSlab (fresh page obj_size) n e (ap (links 0) e) refl refl (omega arith))
