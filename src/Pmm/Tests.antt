-- ===== src/Pmm/Tests.antt =====
-- The frame allocator on small machines.
use panuti.Base.{
  ℕ, ◌*◌, ◌/◌, ◌%◌, ◌<◌, ◌≡◌, ◌≢◌, refl, ◌⊎◌, true, false, [], ◌∷◌, some, arith, test_bit,
  clear_bit,
}
use panuti.Bitmap.{is_set, unmark}
use panuti.Pmm.{Pmm, page_size, setp, pass, allocp}
use panuti.Pmm.Bits.{IsValid}
use panuti.Pmm.Alloc.{Took, Failed, allocp_lem}
use panuti.Pmm.Owner.{with_frame, start, next, granted, granted_unheld}
use panuti.Pmm.Init.{Region, BootInfo, carve_place, fill}

-- Frames 1, 2 and 9 of ten are free, and the cursor has passed two of them.
abbrev small : Pmm
small = record { bitmap = 6 ∷ 2 ∷ []; bitmap_frames = 10; next_free_page = 5; rejected_ops = 0 }

small-IsValid : IsValid small
unfolding is_set test_bit
small-IsValid = record {
  sized = record { bytes = omega arith; covers = omega arith; nameable = omega arith };
  zero_used = refl;
}

allocates : (allocp small).1 ≡ 9 * 4096
unfolding allocp pass setp is_set unmark test_bit clear_bit
allocates = refl

wraps_around : (allocp (allocp small).0).1 ≡ 4096
unfolding allocp pass setp is_set unmark test_bit clear_bit
wraps_around = refl

allocp_lem_example :
    ((page : ℕ) × Took small (allocp small).0 (allocp small).1 page)
    ⊎ Failed small (allocp small).0 (allocp small).1 0
allocp_lem_example = allocp_lem small small-IsValid

granted_once : (allocp small).1 ≢ 0
granted_once e = absurd (omega (arith, allocates))

granted_twice : (allocp (allocp small).0).1 ≢ 0
granted_twice e = absurd (omega (arith, wraps_around))

granted_unheld_example :
    let q = (allocp small).0 in
    let held = with_frame (λ j. false) ((allocp small).1 / page_size) true in
    ((allocp q).1 % page_size ≡ 0)
    × ((allocp q).1 < q.bitmap_frames * page_size)
    × (held ((allocp q).1 / page_size) ≡ false)
granted_unheld_example =
    granted_unheld small-IsValid (next start (granted granted_once)) granted_twice

-- Four megabytes from 1 MiB on, with a kernel of half a megabyte and one module.
abbrev machine : BootInfo
machine = record {
  flags = 0x48;
  mmap = record { addr = 0x10_0000; len = 0x40_0000; type = 1 } ∷ [];
  modules = record { mod_start = 0x20_1000; mod_end = 0x20_3000 } ∷ [];
}

abbrev booted : Pmm
booted = (allocp (fill 0x18_0000 0x18_0000 machine)).0

carve_place_example : carve_place 0x18_0000 0x20_1000 0x20_3000 160 machine.mmap ≡ some 0x18_0000
unfolding carve_place
carve_place_example = refl

-- A machine whose memory ends at 4 GiB.
abbrev full_region : Region
full_region = record { addr = 0x10_0000; len = 0xfff0_0000; type = 1 }
