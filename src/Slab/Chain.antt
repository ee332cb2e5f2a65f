-- ===== src/Slab/Chain.antt =====
-- The free objects of a slab, in the order of their links.
use panuti.Base.{
  ℕ, zero, suc, ◌+◌, ◌≤◌, ◌<◌, ◌≡◌, refl, sym, ap, subst, ◌∙◌, inl, inr, Bool, true, false, ◌||◌,
  List, [], ◌∷◌, arith, length, length-set, get_or, get_or-set, set, ◌==◌, Bool-cases,
}
use panuti.Slab.{Slab, no_index, is_full, take_object, on_list, put_object}

abbrev pub is_in : ℕ → List ℕ → Bool
is_in i [] = false
is_in i (j ∷ js) = (j == i) || is_in i js

-- The links from `head` on go through the objects and end.
abbrev pub Links : List ℕ → (head : ℕ) → List ℕ → Type 0
Links words head [] = head ≡ no_index
Links words head (i ∷ is) =
    (head ≡ i) × (i < length words) × (is_in i is ≡ false) × Links words (get_or words i 0) is

-- A slab whose free objects are the list, each once, and whose other objects are counted as used.
pub record IsSlab (s : Slab) (objects : List ℕ) : Type 0 where
  pub linked : Links s.words s.free objects
  pub sized : length s.words ≡ s.capacity
  pub counted : length objects + s.used ≡ s.capacity
  pub small : s.capacity < no_index

-- A write to a used object changes no link.
pub Links-set :
    (words : List ℕ) (head : ℕ) (is : List ℕ) (i v : ℕ)
    → i < length words
    → is_in i is ≡ false
    → Links words head is
    → Links (set words i v) head is
Links-set words head [] i v inside out h = h
Links-set words head (j ∷ js) i v inside out h =
    let other : (i == j) ≡ false = ground arith in
    let later : is_in i js ≡ false = ground arith in
    let read : get_or (set words i v) j 0 ≡ get_or words j 0 =
      get_or-set words i j v 0 inside ∙ (rw other refl) in
    (
      h.0,
      omega (arith, h.1, length-set words i v),
      h.2,
      subst (λ n. Links (set words i v) n js) (sym read)
          (Links-set words (get_or words j 0) js i v inside later h.3),
    )

-- A slab that is not full gives the first free object.
pub take_object-IsSlab :
    (s : Slab) (i : ℕ) (is : List ℕ) → IsSlab s (i ∷ is) → IsSlab (take_object s) is
unfolding take_object
take_object-IsSlab s i is h =
    let (first, inside, out, rest) = h.linked in
    record {
      linked =
          subst (λ n. Links (set s.words n 0) (get_or s.words n 0) is) (sym first)
            (Links-set s.words (get_or s.words i 0) is i 0 inside out rest);
      sized = length-set s.words s.free 0 ∙ h.sized;
      counted = omega (arith, h.counted, h.small);
      small = h.small;
    }

pub not_full :
    (s : Slab) (is : List ℕ)
    → IsSlab s is
    → is_full s ≡ false
    → (js : List ℕ) × (is ≡ s.free ∷ js) × IsSlab s (s.free ∷ js)
not_full s [] h room = absurd (ground (arith, h.linked))
not_full s (i ∷ js) h room =
    let same : i ∷ js ≡ s.free ∷ js = ap (λ n. n ∷ js) (sym (h.linked.0)) in
    (js, same, subst (IsSlab s) same h)

-- The walk along the links finds the free objects and only those.
on_list-is_in :
    (left : ℕ) (s : Slab) (head index : ℕ) (is : List ℕ)
    → length is ≤ left
    → length s.words < no_index
    → Links s.words head is
    → on_list left s head index ≡ is_in index is
unfolding on_list
on_list-is_in zero s head index [] le small h = refl
on_list-is_in zero s head index (i ∷ is) le small h = absurd (omega arith)
on_list-is_in (suc left) s head index [] le small h =
    let ended : (head == no_index) ≡ true = ground (arith, h) in rw ended refl
on_list-is_in (suc left) s head index (i ∷ is) le small h =
    let ih = on_list-is_in left s (get_or s.words i 0) index is (omega arith) small h.3 in
    let going : (i == no_index) ≡ false = ground (arith, h.1) in
    rw (h.0, going)
      (elim (Bool-cases (i == index)) [ inl here ↦ rw here refl | inr there ↦ rw (there, ih) refl ])

pub free_list_lem :
    (s : Slab) (is : List ℕ) (index : ℕ)
    → IsSlab s is
    → on_list s.capacity s s.free index ≡ is_in index is
free_list_lem s is index h =
    on_list-is_in s.capacity s s.free index is (omega (arith, h.counted))
      (omega (arith, h.sized, h.small)) h.linked

-- A used object that is given back is free, and the first to be given again.
pub put_object-IsSlab :
    (s : Slab) (is : List ℕ) (index : ℕ)
    → IsSlab s is
    → index < s.capacity
    → 0 < s.used
    → is_in index is ≡ false
    → IsSlab (put_object s index) (index ∷ is)
unfolding put_object
put_object-IsSlab s is index h inside some_used out =
    let within : index < length s.words = omega (arith, h.sized) in
    let size = length-set s.words index s.free in
    let read : get_or (set s.words index s.free) index 0 ≡ s.free =
      get_or-set s.words index index s.free 0 within ∙ ground arith in
    record {
      linked = (
        refl,
        omega arith,
        out,
        subst (λ n. Links (set s.words index s.free) n is) (sym read)
            (Links-set s.words s.free is index s.free within out h.linked),
      );
      sized = size ∙ h.sized;
      counted = omega (arith, h.counted);
      small = h.small;
    }
