-- ===== src/Pmm/Init/Boot.antt =====
-- What the frame allocator knows when `pmm_init` is done.
use panuti.Base.{
  ℕ, ◌+◌, ◌/◌, ◌<◌, ◌≡◌, Bool, true, false, ◌&&◌, ◌||◌, List, some, ◌==◌, ltb, if◌then◌else◌,
}
use panuti.Pmm.{Pmm, u32}
use panuti.Pmm.Bits.{IsSized, IsValid, is_free}
use panuti.Pmm.Init.{
  Region, BootInfo, max_end, first_module, frames_of, carve_place, reserve_modules, lowmem_end,
}
use panuti.Pmm.Init.Ranges.{within, covered, in_modules, in_regions}

abbrev limit_of : List Region → ℕ
limit_of rs = max_end 0 rs

-- What `pmm_init` keeps back: low memory, the kernel, the modules, and the bitmap itself.
pub reserved : (kernel_end bitmap_phys : ℕ) → BootInfo → ℕ → Bool
reserved kernel_end bitmap_phys info j =
    let m = first_module info in
    within 0 256 j
    || (covered lowmem_end kernel_end j
        || ((ltb m.mod_start m.mod_end && in_modules info.modules j)
            || covered bitmap_phys (bitmap_phys + u32 (frames_of info + 7) / 8) j))

-- The modules are reserved only if the first of them has a positive length.
kept : BootInfo → Pmm → Pmm
kept info p =
    let m = first_module info in
    if ltb m.mod_start m.mod_end then reserve_modules info.modules p else p

record Filled (kernel_end bitmap_phys : ℕ) (info : BootInfo) (q : Pmm) : Type 0 where
  pub sized : IsSized q
  pub frames : q.bitmap_frames ≡ frames_of info
  pub bits :
      (j : ℕ)
      → is_free q j ≡ (
          if reserved kernel_end bitmap_phys info j
          then false
          else if in_regions info.mmap j
          then ltb j (frames_of info)
          else false)

-- The allocator that `pmm_init` leaves; `table` is the frame of the bitmap's page table, which was
-- free before.
pub record Booted (kernel_end : ℕ) (info : BootInfo) (p : Pmm) (bitmap_phys : ℕ) : Type 0 where
  pub valid : IsValid p
  pub placed :
      carve_place kernel_end
        (first_module info).mod_start
        (first_module info).mod_end
        (u32 (frames_of info + 7) / 8)
        info.mmap
      ≡ some bitmap_phys
  pub table : ℕ
  pub table_in : in_regions info.mmap table ≡ true
  pub table_inside : table < frames_of info
  pub table_unreserved : reserved kernel_end bitmap_phys info table ≡ false
  pub bits :
      (j : ℕ)
      → is_free p j ≡ (
          if table == j || reserved kernel_end bitmap_phys info j
          then false
          else if in_regions info.mmap j
          then ltb j (frames_of info)
          else false)
