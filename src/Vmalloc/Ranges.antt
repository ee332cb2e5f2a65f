-- ===== src/Vmalloc/Ranges.antt =====
-- Free lists whose entries keep apart, and the addresses that they hold.
use panuti.Base.{
  ℕ, ◌+◌, ◌-◌, ◌*◌, ◌%◌, ◌^◌, ◌≤◌, ◌<◌, ◌≡◌, ◌≢◌, ◌⊎◌, inl, inr, List, arith, length, get_or, ◌==◌,
  if◌then◌else◌, Bool-cases,
}
use panuti.Vmalloc.{FreeRange, blank, swap_remove}
use panuti.Vmalloc.Swap.{length-swap_remove, get_or-swap_remove}

abbrev pub end_of : FreeRange → ℕ
end_of r = r.vaddr + r.npages * 4096

-- A range of at least one whole page that does not wrap.
pub record IsRange (r : FreeRange) : Type 0 where
  pub positive : 0 < r.npages
  pub aligned : r.vaddr % 4096 ≡ 0
  pub fits : end_of r < 2 ^ 32

-- Neither overlapping nor adjacent.
abbrev pub Apart : FreeRange → FreeRange → Type 0
Apart r s = (end_of r < s.vaddr) ⊎ (end_of s < r.vaddr)

abbrev pub InRange : FreeRange → ℕ → Type 0
InRange r a = (r.vaddr ≤ a) × (a < end_of r)

pub record IsFreeList (xs : List FreeRange) : Type 0 where
  pub ranges : (k : ℕ) → k < length xs → IsRange (get_or xs k blank)
  pub apart :
      (j k : ℕ)
      → j < length xs
      → k < length xs
      → j ≢ k
      → Apart (get_or xs j blank) (get_or xs k blank)

-- The address lies in an entry.
abbrev pub Covered : List FreeRange → ℕ → Type 0
Covered xs a = (k : ℕ) × (k < length xs) × InRange (get_or xs k blank) a

-- Where the entry at `k` after a removal at `i` was before, in a list of `n`.
abbrev origin : ℕ → ℕ → ℕ → ℕ
origin n i k = if i == k then n - 1 else k

module _ (xs : List FreeRange) (i : ℕ) (hi : i < length xs) where
  pub read_swapped :
      (k : ℕ)
      → k < length (swap_remove xs i)
      → (get_or (swap_remove xs i) k blank ≡ get_or xs (origin (length xs) i k) blank)
        × (origin (length xs) i k < length xs)
        × (origin (length xs) i k ≢ i)
  read_swapped k hk =
      let len = length-swap_remove xs i in
      ground (arith, get_or-swap_remove xs i k hi (omega arith))

  pub swap_remove-IsFreeList : IsFreeList xs → IsFreeList (swap_remove xs i)
  swap_remove-IsFreeList w = record {
    ranges = λ k hk. let (e, lt, ne) = read_swapped k hk in rw e (w.ranges _ lt);
    apart = λ j k hj hk ne.
        let (e, lt, _) = read_swapped j hj in
        let (e', lt', _) = read_swapped k hk in
        rw (e, e') (w.apart _ _ lt lt' (distinct j k hj hk ne));
  }
    where
      distinct :
          (j k : ℕ)
          → j < length (swap_remove xs i)
          → k < length (swap_remove xs i)
          → j ≢ k
          → origin (length xs) i j ≢ origin (length xs) i k
      distinct j k hj hk ne = let len = length-swap_remove xs i in ground arith

  -- An address of another entry is still covered, and what is covered was.
  pub Covered-swap_remove : (a : ℕ) → Covered (swap_remove xs i) a → Covered xs a
  Covered-swap_remove a (k, hk, inside) =
      let (e, lt, _) = read_swapped k hk in (origin (length xs) i k, lt, rw e at inside)

  pub Covered-split :
      (a : ℕ) → Covered xs a → InRange (get_or xs i blank) a ⊎ Covered (swap_remove xs i) a
  Covered-split a (k, hk, inside) = elim (Bool-cases (i == k)) [
    | inl same ↦ inl (ground arith)
    | inr other ↦ elim (Bool-cases (k == length xs - 1)) [
      | inl last ↦
          inr (
            i,
            ground (arith, length-swap_remove xs i),
            ground (arith, get_or-swap_remove xs i i hi),
          )
      | inr inner ↦
          inr (
            k,
            ground (arith, length-swap_remove xs i),
            ground (arith, get_or-swap_remove xs i k hi),
          )
    ]
  ]
