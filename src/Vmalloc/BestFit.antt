-- ===== src/Vmalloc/BestFit.antt =====
-- The search of `vmfree_take`.
use panuti.Base.{
  ℕ, suc, ◌+◌, ◌≤◌, ◌<◌, ◌≡◌, ◌⊎◌, inl, inr, true, false, List, [], ◌∷◌, Option, none, some, arith,
  length, get_or, leb, if◌then◌else◌, Bool-cases, ap, ◌∙◌, subst, sym,
}
use panuti.Vmalloc.{FreeRange, blank, better, best_fit}

-- `best` is the smallest of the first `n` entries that are large enough, if one is.
abbrev pub IsBest : List FreeRange → ℕ → ℕ → Option ℕ → Type 0
IsBest xs npages n none = (k : ℕ) → k < n → (get_or xs k blank).npages < npages
IsBest xs npages n (some b) =
    (b < length xs)
    × (npages ≤ (get_or xs b blank).npages)
    × ((k : ℕ)
        → k < n
        → npages ≤ (get_or xs k blank).npages
        → (get_or xs b blank).npages ≤ (get_or xs k blank).npages)

next-IsBest :
    (xs : List FreeRange) (npages i : ℕ) (best : Option ℕ)
    → i < length xs
    → IsBest xs npages i best
    → IsBest xs npages (i + 1) (if better xs npages (get_or xs i blank) best then some i else best)
next-IsBest xs npages i none h b = elim (Bool-cases (leb npages (get_or xs i blank).npages)) [
  | inl fits ↦ rw fits ((h, ground arith, λ k hk f. here k hk f))
  | inr small ↦ rw small (λ k hk. miss k hk small)
]
  where
    split : (k : ℕ) → k < i + 1 → (k ≡ i) ⊎ (k < i)
    split k hk = omega arith

    here :
        (k : ℕ)
        → k < i + 1
        → npages ≤ (get_or xs k blank).npages
        → (get_or xs i blank).npages ≤ (get_or xs k blank).npages
    here k hk f = elim (split k hk) [
      | inl e ↦ rw e (omega arith)
      | inr lt ↦ absurd (omega (arith, b k lt))
    ]

    miss :
        (k : ℕ)
        → k < i + 1
        → leb npages (get_or xs i blank).npages ≡ false
        → (get_or xs k blank).npages < npages
    miss k hk small = elim (split k hk) [ inl e ↦ rw e (ground arith) | inr lt ↦ b k lt ]
next-IsBest xs npages i (some c) h b =
    elim (Bool-cases (better xs npages (get_or xs i blank) (some c))) [
      | inl won ↦ rw won ((h, ground arith, λ k hk f. newer k hk f won))
      | inr lost ↦ rw lost ((b.0, b.1, λ k hk f. older k hk f lost))
    ]
  where
    split : (k : ℕ) → k < i + 1 → (k ≡ i) ⊎ (k < i)
    split k hk = omega arith

    newer :
        (k : ℕ)
        → k < i + 1
        → npages ≤ (get_or xs k blank).npages
        → better xs npages (get_or xs i blank) (some c) ≡ true
        → (get_or xs i blank).npages ≤ (get_or xs k blank).npages
    newer k hk f won = elim (split k hk) [
      | inl e ↦ rw e (omega arith)
      | inr lt ↦ ground (arith, b.2 k lt f)
    ]

    older :
        (k : ℕ)
        → k < i + 1
        → npages ≤ (get_or xs k blank).npages
        → better xs npages (get_or xs i blank) (some c) ≡ false
        → (get_or xs c blank).npages ≤ (get_or xs k blank).npages
    older k hk f lost = elim (split k hk) [ inl e ↦ last e f lost | inr lt ↦ b.2 k lt f ]
      where
        last :
            k ≡ i
            → npages ≤ (get_or xs k blank).npages
            → better xs npages (get_or xs i blank) (some c) ≡ false
            → (get_or xs c blank).npages ≤ (get_or xs k blank).npages
        last e f lost = rw e (ground (arith, rw e at f))

pub best_fit-IsBest :
    (xs : List FreeRange) (npages : ℕ) (es : List FreeRange) (i : ℕ) (best : Option ℕ)
    → ((k : ℕ) → get_or es k blank ≡ get_or xs (i + k) blank)
    → i + length es ≡ length xs
    → IsBest xs npages i best
    → IsBest xs npages (length xs) (best_fit xs npages es i best)
unfolding best_fit
best_fit-IsBest xs npages [] i best read e b = let e' : i ≡ length xs = omega arith in rw (← e') b
best_fit-IsBest xs npages (x ∷ es) i best read e b =
    let head : x ≡ get_or xs i blank = ground (arith, read 0) in
    best_fit-IsBest xs npages es (i + 1) _ (λ k. rest k (read (suc k))) (omega arith)
      (subst (λ y. IsBest xs npages (i + 1) (if better xs npages y best then some i else best))
        (sym head) (next-IsBest xs npages i best (omega arith) b))
  where
    rest :
        (k : ℕ)
        → get_or es k blank ≡ get_or xs (i + suc k) blank
        → get_or es k blank ≡ get_or xs (i + 1 + k) blank
    rest k h = let e : i + suc k ≡ i + 1 + k = omega arith in h ∙ ap (λ n. get_or xs n blank) e
