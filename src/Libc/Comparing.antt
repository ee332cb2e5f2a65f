-- ===== src/Libc/Comparing.antt =====
-- Comparisons of memory.
use panuti.Base.{
  ℕ, zero, suc, ◌+◌, ◌<◌, ◌≡◌, subst, ap, ◌∙◌, sym, inl, inr, List, arith, get_or, ltb, ◌==◌,
  Bool-cases,
}
use panuti.Base.Int.{ℤ, pos, negsuc}
use panuti.Libc.{compare_from, memcmp}

-- The bytes of two parts agree up to `n`.
abbrev pub Agree : (mem : List ℕ) → (a b n : ℕ) → Type 0
Agree mem a b n = (i : ℕ) → i < n → get_or mem (a + i) 0 ≡ get_or mem (b + i) 0

-- The sign of the first difference, or 0 when there is none.
pub data Compared (mem : List ℕ) (a b n : ℕ) : ℤ → Type 0 where
  same_bytes : Agree mem a b n → Compared mem a b n (pos 0)
  less_at :
      (i : ℕ)
      → i < n
      → Agree mem a b i
      → get_or mem (a + i) 0 < get_or mem (b + i) 0
      → Compared mem a b n (negsuc 0)
  greater_at :
      (i : ℕ)
      → i < n
      → Agree mem a b i
      → get_or mem (b + i) 0 < get_or mem (a + i) 0
      → Compared mem a b n (pos 1)

one_more :
    (mem : List ℕ) (a b i : ℕ)
    → Agree mem a b i
    → get_or mem (a + i) 0 ≡ get_or mem (b + i) 0
    → Agree mem a b (i + 1)
one_more mem a b i ok same k lt = elim (Bool-cases (k == i)) [
  | inl e ↦
      let here : k ≡ i = ground arith in
      ap (λ j. get_or mem (a + j) 0) here ∙ same ∙ ap (λ j. get_or mem (b + j) 0) (sym here)
  | inr e ↦ ok k (ground arith)
]

compare_from-Compared :
    (mem : List ℕ) (a b i left : ℕ)
    → Agree mem a b i
    → Compared mem a b (i + left) (compare_from mem a b i left)
unfolding compare_from
compare_from-Compared mem a b i zero ok =
    let none_left : i + 0 ≡ i = omega arith in rw none_left (same_bytes ok)
compare_from-Compared mem a b i (suc left) ok =
    elim (Bool-cases (ltb (get_or mem (a + i) 0) (get_or mem (b + i) 0))) [
      | inl e ↦ rw e (less_at i (omega arith) ok (ground arith))
      | inr e ↦ elim (Bool-cases (ltb (get_or mem (b + i) 0) (get_or mem (a + i) 0))) [
        | inl f ↦ rw (e, f) (greater_at i (omega arith) ok (ground arith))
        | inr f ↦
            let same : get_or mem (a + i) 0 ≡ get_or mem (b + i) 0 = ground arith in
            let next : Agree mem a b (i + 1) = one_more mem a b i ok same in
            let n : i + 1 + left ≡ i + suc left = omega arith in
            rw (e, f)
              (subst (λ n. Compared mem a b n (compare_from mem a b (i + 1) left)) n
                (compare_from-Compared mem a b (i + 1) left next))
      ]
    ]

-- `memcmp` answers 0 when the two parts agree in all bytes, and else the sign of their first difference.
pub memcmp-Compared : (mem : List ℕ) (a b size : ℕ) → Compared mem a b size (memcmp mem a b size)
memcmp-Compared mem a b size =
    let n : 0 + size ≡ size = omega arith in
    subst (λ n. Compared mem a b n (memcmp mem a b size)) n
      (compare_from-Compared mem a b 0 size (λ i lt. absurd (omega arith)))
