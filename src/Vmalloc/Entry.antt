-- ===== src/Vmalloc/Entry.antt =====
-- Removing an entry of a free list, or making it smaller.
use panuti.Base.{
  ℕ, ◌≤◌, ◌<◌, ◌≡◌, ◌≢◌, ◌↔◌, ◌⊎◌, inl, inr, List, arith, length, get_or, set, length-set,
  get_or-set, ◌==◌, if◌then◌else◌, Bool-cases,
}
use panuti.Vmalloc.{FreeRange, blank, swap_remove}
use panuti.Vmalloc.Ranges.{
  end_of, IsRange, Apart, InRange, IsFreeList, Covered, read_swapped, Covered-swap_remove,
  Covered-split,
}

-- Two entries that keep apart share no address.
Apart-disjoint : (r s : FreeRange) (a : ℕ) → Apart r s → InRange r a → ¬ (InRange s a)
Apart-disjoint r s a h i j = omega arith

module _ (xs : List FreeRange) (b : ℕ) (w : IsFreeList xs) (hb : b < length xs) where
  -- An address of the entry is in no other one.
  pub only_entry :
      (k a : ℕ)
      → k < length xs
      → k ≢ b
      → InRange (get_or xs k blank) a
      → ¬ (InRange (get_or xs b blank) a)
  only_entry k a hk ne inside other = Apart-disjoint _ _ a (w.apart k b hk hb ne) inside other

  pub removed_whole : (a : ℕ) → Covered (swap_remove xs b) a → ¬ (InRange (get_or xs b blank) a)
  removed_whole a (k, hk, inside) =
      let (e, lt, ne) = read_swapped xs b hb k hk in only_entry _ a lt ne (rw e at inside)

  pub split_whole :
      (a : ℕ) → Covered xs a ↔ (Covered (swap_remove xs b) a ⊎ InRange (get_or xs b blank) a)
  split_whole a = (λ c. there (Covered-split xs b hb a c), back)
    where
      there :
          InRange (get_or xs b blank) a ⊎ Covered (swap_remove xs b) a
          → Covered (swap_remove xs b) a ⊎ InRange (get_or xs b blank) a
      there (inl i) = inr i
      there (inr c) = inl c

      back : Covered (swap_remove xs b) a ⊎ InRange (get_or xs b blank) a → Covered xs a
      back (inl c) = Covered-swap_remove xs b hb a c
      back (inr i) = (b, hb, i)

  module _ (s : FreeRange) (range : IsRange s) (lo : (get_or xs b blank).vaddr ≤ s.vaddr)
      (hi : end_of s ≤ end_of (get_or xs b blank)) where
    read_set : (k : ℕ) → get_or (set xs b s) k blank ≡ (if b == k then s else get_or xs k blank)
    read_set k = get_or-set xs b k s blank hb

    pub set-IsFreeList : IsFreeList (set xs b s)
    set-IsFreeList = record {
      ranges = λ k hk. rw (read_set k) (elim (Bool-cases (b == k)) [
        | inl e ↦ rw e range
        | inr e ↦ rw e (w.ranges k (omega (arith, length-set xs b s)))
      ]);
      apart = λ j k hj hk ne.
          rw (read_set j, read_set k)
            (pairs j k (omega (arith, length-set xs b s)) (omega (arith, length-set xs b s)) ne);
    }
      where
        pairs :
            (j k : ℕ)
            → j < length xs
            → k < length xs
            → j ≢ k
            → Apart
                (if b == j then s else get_or xs j blank)
                (if b == k then s else get_or xs k blank)
        pairs j k hj hk ne = elim (Bool-cases (b == j)) [
          | inl e ↦ elim (Bool-cases (b == k)) [
            | inl e' ↦ absurd (ne (ground arith))
            | inr e' ↦ rw (e, e') (ground (arith, w.apart b k hb hk))
          ]
          | inr e ↦ elim (Bool-cases (b == k)) [
            | inl e' ↦ rw (e, e') (ground (arith, w.apart j b hj hb))
            | inr e' ↦ rw (e, e') (w.apart j k hj hk ne)
          ]
        ]

    pub Covered-set :
        (a : ℕ)
        → Covered (set xs b s) a
        → (InRange s a ⊎ ((k : ℕ) × (k < length xs) × (k ≢ b) × InRange (get_or xs k blank) a))
    Covered-set a (k, hk, inside) = elim (Bool-cases (b == k)) [
      | inl e ↦ inl (ground (arith, read_set k))
      | inr e ↦ inr (k, omega (arith, length-set xs b s), ground arith, ground (arith, read_set k))
    ]

    pub set-Covered :
        (a k : ℕ) → k < length xs → k ≢ b → InRange (get_or xs k blank) a → Covered (set xs b s) a
    set-Covered a k hk ne inside = (k, omega (arith, length-set xs b s), ground (arith, read_set k))

    pub set-Covered_self : (a : ℕ) → InRange s a → Covered (set xs b s) a
    set-Covered_self a inside = (b, omega (arith, length-set xs b s), ground (arith, read_set b))
