-- ===== src/Vmalloc/Tests.antt =====
-- A free list of three ranges.
use panuti.Base.{ℕ, zero, suc, ◌<◌, ◌≡◌, ◌≢◌, refl, ◌⊎◌, List, [], ◌∷◌, some, arith, length, get_or}
use panuti.Vmalloc.{
  FreeRange, blank, swap_remove, merge_loop, add_merged, insert, best_fit, take_at, take_range,
}
use panuti.Vmalloc.Ranges.{IsRange, Apart, IsFreeList}
use panuti.Vmalloc.Insert.{Freed, insert-Freed}
use panuti.Vmalloc.Take.{Taken, take_range_lem}

abbrev range : ℕ → ℕ → FreeRange
range vaddr npages = record { vaddr = vaddr; npages = npages }

abbrev three : List FreeRange
three = range 0x1000 2 ∷ range 0x8000 1 ∷ range 0x5000 1 ∷ []

three-ranges : (k : ℕ) → k < length three → IsRange (get_or three k blank)
three-ranges zero h = omega arith
three-ranges (suc zero) h = omega arith
three-ranges (suc (suc zero)) h = omega arith
three-ranges (suc (suc (suc k))) h = absurd (omega arith)

three-Apart :
    (j k : ℕ)
    → j < length three
    → k < length three
    → j ≢ k
    → Apart (get_or three j blank) (get_or three k blank)
three-Apart zero zero hj hk ne = absurd (ne refl)
three-Apart zero (suc zero) hj hk ne = omega arith
three-Apart zero (suc (suc zero)) hj hk ne = omega arith
three-Apart (suc zero) zero hj hk ne = omega arith
three-Apart (suc zero) (suc zero) hj hk ne = absurd (ne refl)
three-Apart (suc zero) (suc (suc zero)) hj hk ne = omega arith
three-Apart (suc (suc zero)) zero hj hk ne = omega arith
three-Apart (suc (suc zero)) (suc zero) hj hk ne = omega arith
three-Apart (suc (suc zero)) (suc (suc zero)) hj hk ne = absurd (ne refl)
three-Apart (suc (suc (suc j))) k hj hk ne = absurd (omega arith)
three-Apart j (suc (suc (suc k))) hj hk ne = absurd (omega arith)

three-IsFreeList : IsFreeList three
three-IsFreeList = record { ranges = three-ranges; apart = three-Apart }

-- The pages between two entries join them.
insert-joins : insert three 0x3000 2 ≡ some (range 0x8000 1 ∷ range 0x1000 5 ∷ [])
unfolding insert merge_loop add_merged swap_remove
insert-joins = refl

takes_smallest : take_range three 1 ≡ (0x8000, range 0x1000 2 ∷ range 0x5000 1 ∷ [])
unfolding take_range best_fit take_at swap_remove
takes_smallest = refl

insert-Freed_example :
    (ys : List FreeRange) × (insert three 0x3000 2 ≡ some ys) × Freed three ys (range 0x3000 2)
insert-Freed_example =
    insert-Freed three (range 0x3000 2) three-IsFreeList (omega arith) (omega arith)

take_range_lem_example :
    (((k : ℕ) → k < length three → (get_or three k blank).npages < 2)
      × (take_range three 2 ≡ (0, three)))
    ⊎ Taken three (take_range three 2).1 (take_range three 2).0 2
take_range_lem_example = take_range_lem three 2 three-IsFreeList (omega arith)
