-- ===== src/Vmalloc.antt =====
-- The free list of the kernel heap, kernel/kernel/memman/vmalloc/vmalloc.c. The entries of `vmfree`
-- below `vmfree_count` are a list.
pub mod Swap
pub mod Ranges
pub mod Merge
pub mod Snoc
pub mod Insert
pub mod BestFit
pub mod Entry
pub mod Take
mod Tests
use panuti.Base.{
  ℕ, zero, suc, ◌+◌, ◌-◌, ◌*◌, ◌/◌, ◌%◌, ◌^◌, Bool, true, false, ◌&&◌, ◌||◌, List, [], ◌∷◌, Option,
  none, some, length, get_or, set, take, ◌++◌, ◌==◌, ltb, leb, if◌then◌else◌,
}

abbrev pub u32 : ℕ → ℕ
u32 n = n % 2 ^ 32

pub record FreeRange : Type 0 where
  pub vaddr : ℕ
  pub npages : ℕ

-- What an index past the last entry reads; no index of the code is.
abbrev pub blank : FreeRange
blank = record { vaddr = 0; npages = 0 }

abbrev pub range_end : FreeRange → ℕ
range_end r = u32 (r.vaddr + r.npages * 4096)

abbrev pub free_max : ℕ
free_max = 256

-- `vmfree[i] = vmfree[--vmfree_count]`
unfoldable pub swap_remove : List FreeRange → ℕ → List FreeRange
swap_remove xs i = take (length xs - 1) (set xs i (get_or xs (length xs - 1) blank))

-- What the loop of `vmfree_insert` has when it ends: the bounds and the entries left.
pub record Merged : Type 0 where
  pub lo : ℕ
  pub hi : ℕ
  pub entries : List FreeRange

abbrev pub touches : FreeRange → ℕ → ℕ → Bool
touches e lo hi = leb lo (range_end e) && leb e.vaddr hi

abbrev pub lower : ℕ → ℕ → ℕ
lower a b = if ltb a b then a else b

abbrev pub higher : ℕ → ℕ → ℕ
higher a b = if ltb b a then a else b

-- The loop of `vmfree_insert`, which starts again at index 0 after each merge. `none` means that the
-- fuel ran out.
unfoldable pub merge_loop : ℕ → (lo hi i : ℕ) → List FreeRange → Option Merged
merge_loop zero lo hi i xs = none
merge_loop (suc fuel) lo hi i xs =
    let e = get_or xs i blank in
    let merged =
      merge_loop fuel (lower e.vaddr lo) (higher (range_end e) hi) 0 (swap_remove xs i) in
    let skipped = merge_loop fuel lo hi (i + 1) xs in
    if ltb i (length xs)
    then (if touches e lo hi then merged else skipped)
    else some (record { lo = lo; hi = hi; entries = xs })

-- A merge removes an entry, and so the rounds are fewer than this.
abbrev pub merge_fuel : List FreeRange → ℕ
merge_fuel xs = (length xs + 1) * (length xs + 1) + 1

abbrev pub range_of : Merged → FreeRange
range_of m = record { vaddr = m.lo; npages = (m.hi - m.lo) / 4096 }

-- `vmfree_insert`; the second branch drops the range when the list is full.
unfoldable pub add_merged : Option Merged → Option (List FreeRange)
add_merged none = none
add_merged (some m) =
    if leb free_max (length m.entries)
    then some m.entries
    else some (m.entries ++ (range_of m ∷ []))

unfoldable pub insert : List FreeRange → (vaddr npages : ℕ) → Option (List FreeRange)
insert xs vaddr npages =
    if npages == 0
    then some xs
    else add_merged (merge_loop (merge_fuel xs) vaddr (u32 (vaddr + npages * 4096)) 0 xs)

-- The test of the best-fit search; `best` is an index, `none` for -1.
abbrev pub better : List FreeRange → ℕ → FreeRange → Option ℕ → Bool
better xs npages e best =
    leb npages e.npages
    && (elim best [ none ↦ true | some b ↦ ltb e.npages (get_or xs b blank).npages ])

-- The search from index `i` on, over the entries that are left.
unfoldable pub best_fit : List FreeRange → ℕ → List FreeRange → ℕ → Option ℕ → Option ℕ
best_fit xs npages [] i best = best
best_fit xs npages (e ∷ es) i best =
    best_fit xs npages es (i + 1) (if better xs npages e best then some i else best)

abbrev pub shrink : FreeRange → ℕ → FreeRange
shrink e npages = record { vaddr = u32 (e.vaddr + npages * 4096); npages = e.npages - npages }

unfoldable pub take_at : List FreeRange → ℕ → ℕ → ℕ × List FreeRange
take_at xs npages b =
    let e = get_or xs b blank in
    (e.vaddr, if e.npages == npages then swap_remove xs b else set xs b (shrink e npages))

-- `vmfree_take`, with 0 for no fit.
unfoldable pub take_range : List FreeRange → ℕ → ℕ × List FreeRange
take_range xs npages = elim (best_fit xs npages xs 0 none) [
  | none ↦ (0, xs)
  | some b ↦ take_at xs npages b
]
