-- ===== src/Vmalloc/Take.antt =====
-- `vmfree_take`: the range that it hands out, and what is left of the free list.
use panuti.Base.{
  ℕ, ◌+◌, ◌≤◌, ◌<◌, ◌≡◌, ◌≢◌, ◌↔◌, refl, ◌⊎◌, inl, inr, List, none, some, arith, length, get_or,
  set, length-set, ◌==◌, Bool-cases, Option-cases, ap,
}
use panuti.Vmalloc.{FreeRange, blank, best_fit, shrink, take_at, take_range}
use panuti.Vmalloc.Swap.{length-swap_remove}
use panuti.Vmalloc.Ranges.{end_of, IsRange, InRange, IsFreeList, Covered, swap_remove-IsFreeList}
use panuti.Vmalloc.BestFit.{IsBest, best_fit-IsBest}
use panuti.Vmalloc.Entry.{
  removed_whole, split_whole, set-IsFreeList, Covered-set, set-Covered, set-Covered_self,
  only_entry,
}

-- The addresses from `lo` on, `npages` pages of them.
abbrev pub span_of : ℕ → ℕ → FreeRange
span_of lo npages = record { vaddr = lo; npages = npages }

-- The range is the lower part of the smallest entry that holds it, and what is left are the other
-- addresses.
pub record Taken (xs ys : List FreeRange) (lo npages : ℕ) : Type 0 where
  pub from : ℕ
  pub from_entry : from < length xs
  pub starts : lo ≡ (get_or xs from blank).vaddr
  pub large : npages ≤ (get_or xs from blank).npages
  pub smallest :
      (k : ℕ)
      → k < length xs
      → npages ≤ (get_or xs k blank).npages
      → (get_or xs from blank).npages ≤ (get_or xs k blank).npages
  pub left : IsFreeList ys
  pub shorter : length ys ≤ length xs
  pub removed : (a : ℕ) → Covered ys a → ¬ (InRange (span_of lo npages) a)
  pub split : (a : ℕ) → Covered xs a ↔ (Covered ys a ⊎ InRange (span_of lo npages) a)

shrink-IsRange :
    (e : FreeRange) (npages : ℕ) → IsRange e → npages < e.npages → IsRange (shrink e npages)
shrink-IsRange e npages r h = record {
  positive = omega arith;
  aligned = omega (arith, r);
  fits = omega (arith, r);
}

shrink_holds :
    (e : FreeRange) (npages a : ℕ)
    → IsRange e
    → npages < e.npages
    → InRange e a ↔ (InRange (shrink e npages) a ⊎ InRange (span_of e.vaddr npages) a)
shrink_holds e npages a r h = (λ i. omega (arith, r), λ i. omega (arith, r))

-- The surplus of the best entry stays in the list.
part-Taken :
    (xs : List FreeRange) (npages b : ℕ)
    → IsFreeList xs
    → 0 < npages
    → IsBest xs npages (length xs) (some b)
    → npages < (get_or xs b blank).npages
    → Taken xs (set xs b (shrink (get_or xs b blank) npages)) (get_or xs b blank).vaddr npages
part-Taken xs npages b w pos best more = record {
  from = b;
  from_entry = best.0;
  starts = refl;
  large = best.1;
  smallest = best.2;
  left = set-IsFreeList xs b w best.0 s range lo hi;
  shorter = omega (arith, length-set xs b s);
  removed = λ a c. outside a (Covered-set xs b w best.0 s range lo hi a c);
  split = λ a. (there a, back a);
}
  where
    e : FreeRange
    e = get_or xs b blank

    s : FreeRange
    s = shrink e npages

    range : IsRange s
    range = shrink-IsRange e npages (w.ranges b best.0) more

    lo : e.vaddr ≤ s.vaddr
    lo = omega (arith, w.ranges b best.0)

    hi : end_of s ≤ end_of e
    hi = omega (arith, w.ranges b best.0)

    holds : (a : ℕ) → InRange e a ↔ (InRange s a ⊎ InRange (span_of e.vaddr npages) a)
    holds a = shrink_holds e npages a (w.ranges b best.0) more

    Elsewhere : ℕ → Type 0
    Elsewhere a = (k : ℕ) × (k < length xs) × (k ≢ b) × InRange (get_or xs k blank) a

    in_shrunk : (a : ℕ) → InRange s a → ¬ (InRange (span_of e.vaddr npages) a)
    in_shrunk a i j = omega (arith, w.ranges b best.0)

    outside : (a : ℕ) → InRange s a ⊎ Elsewhere a → ¬ (InRange (span_of e.vaddr npages) a)
    outside a (inl i) = in_shrunk a i
    outside a (inr (k, hk, ne, i)) = λ j. only_entry xs b w best.0 k a hk ne i ((holds a).1 (inr j))

    of_entry :
        (a : ℕ)
        → InRange s a ⊎ InRange (span_of e.vaddr npages) a
        → Covered (set xs b s) a ⊎ InRange (span_of e.vaddr npages) a
    of_entry a (inl i) = inl (set-Covered_self xs b w best.0 s range lo hi a i)
    of_entry a (inr i) = inr i

    there : (a : ℕ) → Covered xs a → Covered (set xs b s) a ⊎ InRange (span_of e.vaddr npages) a
    there a (k, hk, i) = elim (Bool-cases (k == b)) [
      | inl same ↦ let eq : k ≡ b = ground arith in of_entry a ((holds a).0 (rw eq at i))
      | inr other ↦ inl (set-Covered xs b w best.0 s range lo hi a k hk (ground arith) i)
    ]

    of_set : (a : ℕ) → InRange s a ⊎ Elsewhere a → Covered xs a
    of_set a (inl i) = (b, best.0, (holds a).1 (inl i))
    of_set a (inr (k, hk, ne, i)) = (k, hk, i)

    back : (a : ℕ) → Covered (set xs b s) a ⊎ InRange (span_of e.vaddr npages) a → Covered xs a
    back a (inl c) = of_set a (Covered-set xs b w best.0 s range lo hi a c)
    back a (inr i) = (b, best.0, (holds a).1 (inr i))

-- The facts of `take_at` for the best entry.
take_at-Taken :
    (xs : List FreeRange) (npages b : ℕ)
    → IsFreeList xs
    → 0 < npages
    → IsBest xs npages (length xs) (some b)
    → Taken xs (take_at xs npages b).1 (take_at xs npages b).0 npages
unfolding take_at
take_at-Taken xs npages b w pos best = elim (Bool-cases ((get_or xs b blank).npages == npages)) [
  | inl whole ↦
      let e : (get_or xs b blank).npages ≡ npages = ground arith in
      rw whole (record {
        from = b;
        from_entry = best.0;
        starts = refl;
        large = best.1;
        smallest = best.2;
        left = swap_remove-IsFreeList xs b best.0 w;
        shorter = omega (arith, length-swap_remove xs b);
        removed = λ a c. rw e at (removed_whole xs b w best.0 a c);
        split = λ a. rw e at (split_whole xs b w best.0 a);
      })
  | inr part ↦ rw part (part-Taken xs npages b w pos best (ground arith))
]

-- `vmfree_take` leaves the list alone and answers 0 when no entry has `npages` pages. Otherwise it
-- hands out the lower part of a smallest entry that is large enough, and the list then holds exactly
-- the addresses that it held before less those handed out, in entries that keep apart.
pub take_range_lem :
    (xs : List FreeRange) (npages : ℕ)
    → IsFreeList xs
    → 0 < npages
    → (((k : ℕ) → k < length xs → (get_or xs k blank).npages < npages)
        × (take_range xs npages ≡ (0, xs)))
      ⊎ Taken xs (take_range xs npages).1 (take_range xs npages).0 npages
unfolding take_range
take_range_lem xs npages w pos = elim (Option-cases (best_fit xs npages xs 0 none)) [
  | inl nothing ↦ rw (nothing, take_range) (inl (rw nothing at searched, refl))
  | inr (b, e) ↦ rw (e, take_range) (inr (take_at-Taken xs npages b w pos (rw e at searched)))
]
  where
    searched : IsBest xs npages (length xs) (best_fit xs npages xs 0 none)
    searched =
        best_fit-IsBest xs npages xs 0 none
          (λ k. let e : k ≡ 0 + k = omega arith in ap (λ n. get_or xs n blank) e) (omega arith)
          (λ k hk. elim hk [ ])
