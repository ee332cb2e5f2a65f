-- ===== src/Vmalloc/Merge.antt =====
-- The loop of `vmfree_insert` ends, keeps the entries apart from one another, and neither loses nor
-- invents an address.
use panuti.Base.{
  ℕ, zero, suc, ◌+◌, ◌-◌, ◌*◌, ◌%◌, ◌^◌, ◌≤◌, ◌<◌, ◌≡◌, ◌↔◌, refl, ◌⊎◌, inl, inr, true, false, List,
  some, arith, length, get_or, ◌==◌, ltb, Bool-cases,
}
use panuti.Vmalloc.{
  FreeRange, Merged, blank, swap_remove, range_end, touches, lower, higher, merge_loop,
}
use panuti.Vmalloc.Swap.{length-swap_remove}
use panuti.Vmalloc.Ranges.{
  end_of, IsRange, InRange, IsFreeList, Covered, swap_remove-IsFreeList, Covered-swap_remove,
  Covered-split,
}

-- The bounds that the loop grows.
pub record IsSpan (lo hi : ℕ) : Type 0 where
  pub ordered : lo < hi
  pub lo_aligned : lo % 4096 ≡ 0
  pub hi_aligned : hi % 4096 ≡ 0
  pub fits : hi < 2 ^ 32

abbrev pub In : ℕ → ℕ → ℕ → Type 0
In lo hi a = (lo ≤ a) × (a < hi)

abbrev pub ApartSpan : FreeRange → ℕ → ℕ → Type 0
ApartSpan e lo hi = (end_of e < lo) ⊎ (hi < e.vaddr)

-- The entries below `i` keep apart from the bounds.
abbrev pub Passed : List FreeRange → ℕ → ℕ → ℕ → Type 0
Passed xs i lo hi = (k : ℕ) → k < i → ApartSpan (get_or xs k blank) lo hi

grown-IsSpan :
    (e : FreeRange) (lo hi : ℕ)
    → IsRange e
    → IsSpan lo hi
    → IsSpan (lower e.vaddr lo) (higher (range_end e) hi)
grown-IsSpan e lo hi r s = ground (arith, r, s)

-- What the bounds hold after they took in an entry that they touch.
grown_holds :
    (e : FreeRange) (lo hi a : ℕ)
    → IsRange e
    → IsSpan lo hi
    → touches e lo hi ≡ true
    → In (lower e.vaddr lo) (higher (range_end e) hi) a ↔ (InRange e a ⊎ In lo hi a)
grown_holds e lo hi a r s t = (λ h. ground (arith, r), λ h. ground (arith, r))

not_touching : (e : FreeRange) (lo hi : ℕ) → IsRange e → touches e lo hi ≡ false → ApartSpan e lo hi
not_touching e lo hi r t = ground (arith, r)

pub record IsMerged (xs : List FreeRange) (lo hi : ℕ) (m : Merged) : Type 0 where
  pub entries : IsFreeList m.entries
  pub span : IsSpan m.lo m.hi
  pub apart : (k : ℕ) → k < length m.entries → ApartSpan (get_or m.entries k blank) m.lo m.hi
  pub shorter : length m.entries ≤ length xs
  pub same : (a : ℕ) → (Covered m.entries a ⊎ In m.lo m.hi a) ↔ (Covered xs a ⊎ In lo hi a)

-- One merge changes no address.
same_step :
    (xs : List FreeRange) (i lo hi : ℕ)
    → i < length xs
    → IsFreeList xs
    → IsSpan lo hi
    → touches (get_or xs i blank) lo hi ≡ true
    → (a : ℕ)
    → (Covered (swap_remove xs i) a
        ⊎ In (lower (get_or xs i blank).vaddr lo) (higher (range_end (get_or xs i blank)) hi) a)
      ↔ (Covered xs a ⊎ In lo hi a)
same_step xs i lo hi h w s t a = (there, back)
  where
    grown :
        In (lower (get_or xs i blank).vaddr lo) (higher (range_end (get_or xs i blank)) hi) a
        ↔ (InRange (get_or xs i blank) a ⊎ In lo hi a)
    grown = grown_holds (get_or xs i blank) lo hi a (w.ranges i h) s t

    from_grown : InRange (get_or xs i blank) a ⊎ In lo hi a → Covered xs a ⊎ In lo hi a
    from_grown (inl inside) = inl (i, h, inside)
    from_grown (inr inside) = inr inside

    there :
        Covered (swap_remove xs i) a
          ⊎ In (lower (get_or xs i blank).vaddr lo) (higher (range_end (get_or xs i blank)) hi) a
        → Covered xs a ⊎ In lo hi a
    there (inl c) = inl (Covered-swap_remove xs i h a c)
    there (inr g) = from_grown (grown.0 g)

    from_entry :
        InRange (get_or xs i blank) a ⊎ Covered (swap_remove xs i) a
        → Covered (swap_remove xs i) a
          ⊎ In (lower (get_or xs i blank).vaddr lo) (higher (range_end (get_or xs i blank)) hi) a
    from_entry (inl inside) = inr (grown.1 (inl inside))
    from_entry (inr c) = inl c

    back :
        Covered xs a ⊎ In lo hi a
        → Covered (swap_remove xs i) a
          ⊎ In (lower (get_or xs i blank).vaddr lo) (higher (range_end (get_or xs i blank)) hi) a
    back (inl c) = from_entry (Covered-split xs i h a c)
    back (inr g) = inr (grown.1 (inr g))

extend_Passed :
    (xs : List FreeRange) (i lo hi : ℕ)
    → Passed xs i lo hi
    → ApartSpan (get_or xs i blank) lo hi
    → Passed xs (i + 1) lo hi
extend_Passed xs i lo hi p apart k hk = elim (Bool-cases (k == i)) [
  | inl here ↦ let e : k ≡ i = ground arith in rw e apart
  | inr below ↦ p k (ground arith)
]

smaller :
    (n m i fuel : ℕ)
    → i < n
    → m ≡ n - 1
    → n * (n + 1) + (n - i) < suc fuel
    → m * (m + 1) + (m - 0) < fuel
smaller zero m i fuel h e enough = elim h [ ]
smaller (suc n) m i fuel h e enough = let e' : m ≡ n = omega arith in rw e' (omega arith)

-- A merge, then the rest of the loop.
merge_IsMerged :
    (xs : List FreeRange) (i lo hi : ℕ) (m : Merged)
    → i < length xs
    → IsFreeList xs
    → IsSpan lo hi
    → touches (get_or xs i blank) lo hi ≡ true
    → IsMerged
        (swap_remove xs i)
        (lower (get_or xs i blank).vaddr lo)
        (higher (range_end (get_or xs i blank)) hi)
        m
    → IsMerged xs lo hi m
merge_IsMerged xs i lo hi m h w s t r = record {
  entries = r.entries;
  span = r.span;
  apart = r.apart;
  shorter = omega (arith, r.shorter, length-swap_remove xs i);
  same = λ a.
      let step = same_step xs i lo hi h w s t a in
      (λ c. step.0 ((r.same a).0 c), λ c. (r.same a).1 (step.1 c));
}

pub merge_loop_lem :
    (fuel lo hi i : ℕ) (xs : List FreeRange)
    → IsFreeList xs
    → IsSpan lo hi
    → Passed xs i lo hi
    → i ≤ length xs
    → length xs * (length xs + 1) + (length xs - i) < fuel
    → (m : Merged) × (merge_loop fuel lo hi i xs ≡ some m) × IsMerged xs lo hi m
unfolding merge_loop
merge_loop_lem zero lo hi i xs w s p le enough = elim enough [ ]
merge_loop_lem (suc fuel) lo hi i xs w s p le enough = elim (Bool-cases (ltb i (length xs))) [
  | inr done ↦ rw done (
      (
        record { lo = lo; hi = hi; entries = xs },
        refl,
        record {
          entries = w;
          span = s;
          apart = λ k hk. p k (ground arith);
          shorter = omega arith;
          same = λ a. (λ h. h, λ h. h);
        },
      ))
  | inl more ↦ elim (Bool-cases (touches (get_or xs i blank) lo hi)) [
    | inl t ↦
        let lt : i < length xs = ground arith in
        let (m, e, r) =
          merge_loop_lem fuel (lower (get_or xs i blank).vaddr lo)
            (higher (range_end (get_or xs i blank)) hi) 0 (swap_remove xs i)
            (swap_remove-IsFreeList xs i lt w) (grown-IsSpan _ lo hi (w.ranges i lt) s)
            (λ k hk. elim hk [ ]) (omega arith)
            (smaller (length xs) _ i fuel lt (length-swap_remove xs i) enough) in
        rw (more, t) ((m, e, merge_IsMerged xs i lo hi m lt w s t r))
    | inr t ↦
        rw (more, t)
          (merge_loop_lem fuel lo hi (i + 1) xs w s
            (extend_Passed xs i lo hi p (not_touching _ lo hi (w.ranges i (ground arith)) t))
            (ground arith) (ground arith))
  ]
]
