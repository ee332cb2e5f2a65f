-- ===== src/Handle/Tests.antt =====
-- A table of sixteen slots, of which 0, 1 and 3 are in use.
use panuti.Base.{
  ◌≡◌, refl, ◌⊎◌, ◌<◌, ℕ, true, [], ◌∷◌, some, none, arith, replicate, test_bit, clear_bit,
}
use panuti.Base.Int.{pos}
use panuti.Bitmap.{unmark}
use panuti.Handle.{
  FdTable, Memory, file, pipe, zeroed, empty, grow, scan_bytes, alloc, vacate, free,
}
use panuti.Handle.Slots.{IsValid, is_open}
use panuti.Handle.Alloc.{Allocated, alloc_lem}
use panuti.Handle.Free.{Closed, free-Closed}

abbrev plenty : Memory
plenty = record { for_table = true; for_openb = true }

abbrev used : FdTable
used = record { table = replicate 16 zeroed; cap = 16; openb = 0b1011 ∷ 0 ∷ [] }

used-IsValid : IsValid used
used-IsValid = record {
  bytes = omega arith;
  openb_length = refl;
  table_length = refl;
  bounded = omega arith;
  whole_bytes = refl;
}

allocates_lowest : (alloc plenty used pipe).1 ≡ some 2
unfolding alloc scan_bytes test_bit
allocates_lowest = refl

first_allocation : (alloc plenty empty file).1 ≡ some 0
unfolding alloc scan_bytes grow
first_allocation = refl

gives_back : (free (free (free used (pos 0)) (pos 3)) (pos 1)).cap ≡ 0
unfolding free vacate unmark clear_bit
gives_back = refl

alloc_lem_example :
    ((slot : ℕ) × ((alloc plenty used pipe).1 ≡ some slot)
      × Allocated used (alloc plenty used pipe).0 slot pipe)
    ⊎ ((alloc plenty used pipe ≡ (used, none))
        × ((j : ℕ) → j < used.cap → is_open used j ≡ true)
        × (grow plenty used ≡ none))
alloc_lem_example = alloc_lem plenty used pipe used-IsValid

free-Closed_example : Closed used (free used (pos 1)) 1
free-Closed_example = free-Closed used 1 used-IsValid
