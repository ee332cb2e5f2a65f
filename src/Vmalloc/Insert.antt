-- ===== src/Vmalloc/Insert.antt =====
-- `vmfree_insert` as a whole: what a free list holds after a range was freed.
use panuti.Base.{
  ℕ, ◌%◌, ◌^◌, ◌≤◌, ◌<◌, ◌≡◌, refl, ◌⊎◌, inl, inr, false, List, [], ◌∷◌, ◌++◌, some, arith, length,
  ◌==◌, leb, Bool-cases, length-append,
}
use panuti.Vmalloc.{FreeRange, Merged, merge_fuel, add_merged, insert, range_of, free_max}
use panuti.Vmalloc.Ranges.{end_of, IsRange, InRange, IsFreeList, Covered}
use panuti.Vmalloc.Merge.{IsSpan, In, IsMerged, merge_loop_lem}
use panuti.Vmalloc.Snoc.{snoc-IsFreeList, Covered-snoc}

-- A free list after a range was freed: the entries keep apart, no address is invented, and unless
-- the list was full none is lost.
pub record Freed (xs ys : List FreeRange) (r : FreeRange) : Type 0 where
  pub apart : IsFreeList ys
  pub bounded : length ys ≤ free_max
  pub sound : (a : ℕ) → Covered ys a → Covered xs a ⊎ InRange r a
  pub complete : length xs < free_max → (a : ℕ) → Covered xs a ⊎ InRange r a → Covered ys a

range_of-IsRange :
    (m : Merged) → IsSpan m.lo m.hi → IsRange (range_of m) × (end_of (range_of m) ≡ m.hi)
range_of-IsRange m s = (
  record { positive = omega (arith, s); aligned = s.lo_aligned; fits = omega (arith, s) },
  omega (arith, s),
)

add_merged-Freed :
    (xs : List FreeRange) (r : FreeRange) (m : Merged)
    → length xs ≤ free_max
    → IsMerged xs r.vaddr (end_of r) m
    → (ys : List FreeRange) × (add_merged (some m) ≡ some ys) × Freed xs ys r
unfolding add_merged
add_merged-Freed xs r m le g = elim (Bool-cases (leb free_max (length m.entries))) [
  | inl full ↦ rw full (
      (
        m.entries,
        refl,
        record {
          apart = g.entries;
          bounded = omega (arith, g.shorter);
          sound = λ a c. (g.same a).0 (inl c);
          complete = λ h. absurd (ground (arith, g.shorter));
        },
      ))
  | inr room ↦ rw room (
      (
        m.entries ++ range_of m ∷ [],
        refl,
        record {
          apart =
              snoc-IsFreeList m.entries (range_of m) g.entries (range_of-IsRange m g.span).0
                (λ k hk. omega (arith, g.apart k hk, end_hi));
          bounded = ground (arith, length-append m.entries (range_of m ∷ []));
          sound = λ a c. (g.same a).0 (to_span a ((Covered-snoc m.entries (range_of m) a).0 c));
          complete =
              λ h a c. (Covered-snoc m.entries (range_of m) a).1 (of_span a ((g.same a).1 c));
        },
      ))
]
  where
    end_hi : end_of (range_of m) ≡ m.hi
    end_hi = (range_of-IsRange m g.span).1

    to_span :
        (a : ℕ)
        → Covered m.entries a ⊎ InRange (range_of m) a
        → Covered m.entries a ⊎ In m.lo m.hi a
    to_span a (inl c) = inl c
    to_span a (inr inside) = inr (omega (arith, end_hi))

    of_span :
        (a : ℕ)
        → Covered m.entries a ⊎ In m.lo m.hi a
        → Covered m.entries a ⊎ InRange (range_of m) a
    of_span a (inl c) = inl c
    of_span a (inr inside) = inr (omega (arith, end_hi))

-- Freeing a whole number of pages that do not wrap ends within the fuel. The entries of the list
-- still keep apart, they hold no address but those that were free and those of the range, and
-- unless all 256 entries were in use they hold all of these.
pub insert-Freed :
    (xs : List FreeRange) (r : FreeRange)
    → IsFreeList xs
    → length xs ≤ free_max
    → IsRange r
    → (ys : List FreeRange) × (insert xs r.vaddr r.npages ≡ some ys) × Freed xs ys r
unfolding insert
insert-Freed xs r w le range =
    let span : IsSpan r.vaddr (end_of r) = record {
      ordered = omega (arith, range.positive);
      lo_aligned = range.aligned;
      hi_aligned = omega (arith, range.aligned);
      fits = range.fits;
    } in
    let (m, e, g) =
      merge_loop_lem (merge_fuel xs) r.vaddr (end_of r) 0 xs w span (λ k hk. elim hk [ ])
        (omega arith) (omega arith) in
    let (ys, e', freed) = add_merged-Freed xs r m le g in
    (ys, rw (nonzero, no_wrap) (rw e e'), freed)
  where
    nonzero : (r.npages == 0) ≡ false
    nonzero = ground (arith, range.positive)

    no_wrap : end_of r % 2 ^ 32 ≡ end_of r
    no_wrap = omega (arith, range.fits)
