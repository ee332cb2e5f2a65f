-- ===== src/Vmalloc/Snoc.antt =====
-- Adding an entry behind the others.
use panuti.Base.{
  ℕ, zero, suc, ◌<◌, ◌≡◌, ◌↔◌, refl, ◌⊎◌, inl, inr, false, List, [], ◌∷◌, ◌++◌, arith, length,
  get_or, ◌==◌, if◌then◌else◌, Bool-cases, length-append,
}
use panuti.Vmalloc.{FreeRange, blank}
use panuti.Vmalloc.Ranges.{IsRange, Apart, InRange, IsFreeList, Covered}

get_or-snoc :
    (xs : List FreeRange) (r : FreeRange) (k : ℕ)
    → get_or (xs ++ r ∷ []) k blank ≡ (if k == length xs then r else get_or xs k blank)
get_or-snoc [] r zero = refl
get_or-snoc [] r (suc k) = ground arith
get_or-snoc (x ∷ xs) r zero = ground arith
get_or-snoc (x ∷ xs) r (suc k) = ground (arith, get_or-snoc xs r k)

pub snoc-IsFreeList :
    (xs : List FreeRange) (r : FreeRange)
    → IsFreeList xs
    → IsRange r
    → ((k : ℕ) → k < length xs → Apart (get_or xs k blank) r)
    → IsFreeList (xs ++ r ∷ [])
snoc-IsFreeList xs r w range apart = record {
  ranges = λ k hk. elim (Bool-cases (k == length xs)) [
    | inl e ↦ rw (get_or-snoc xs r k, e) range
    | inr e ↦ rw (get_or-snoc xs r k, e) (w.ranges k (ground (arith, length-append xs (r ∷ []))))
  ];
  apart = λ j k hj hk ne.
      rw (get_or-snoc xs r j, get_or-snoc xs r k)
        (elim (Bool-cases (j == length xs)) [
          | inl e ↦ elim (Bool-cases (k == length xs)) [
            | inl e' ↦ absurd (ne (ground arith))
            | inr e' ↦ rw (e, e') (flip_sides _ _ (apart k (below k hk e')))
          ]
          | inr e ↦ elim (Bool-cases (k == length xs)) [
            | inl e' ↦ rw (e, e') (apart j (below j hj e))
            | inr e' ↦ rw (e, e') (w.apart j k (below j hj e) (below k hk e') ne)
          ]
        ]);
}
  where
    below : (k : ℕ) → k < length (xs ++ r ∷ []) → (k == length xs) ≡ false → k < length xs
    below k hk e = ground (arith, length-append xs (r ∷ []))

    flip_sides : (s t : FreeRange) → Apart s t → Apart t s
    flip_sides s t (inl h) = inr h
    flip_sides s t (inr h) = inl h

pub Covered-snoc :
    (xs : List FreeRange) (r : FreeRange) (a : ℕ)
    → Covered (xs ++ r ∷ []) a ↔ (Covered xs a ⊎ InRange r a)
Covered-snoc xs r a = (there, back)
  where
    there : Covered (xs ++ r ∷ []) a → Covered xs a ⊎ InRange r a
    there (k, hk, inside) = elim (Bool-cases (k == length xs)) [
      | inl e ↦ inr (ground (arith, get_or-snoc xs r k))
      | inr e ↦
          inl (k, ground (arith, length-append xs (r ∷ [])), ground (arith, get_or-snoc xs r k))
    ]

    back : Covered xs a ⊎ InRange r a → Covered (xs ++ r ∷ []) a
    back (inl (k, hk, inside)) =
        (k, omega (arith, length-append xs (r ∷ [])), ground (arith, get_or-snoc xs r k))
    back (inr inside) = (
      length xs,
      omega (arith, length-append xs (r ∷ [])),
      ground (arith, get_or-snoc xs r (length xs)),
    )
