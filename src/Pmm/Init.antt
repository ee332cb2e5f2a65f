-- ===== src/Pmm/Init.antt =====
-- `pmm_init` and `carve_place` of pmm.c: the allocator is sized and filled from the memory map that
-- the bootloader passes. The map and the modules are lists here; `mmap_length` bounds the walk over
-- the map. `none` stands for `kpanic`.
pub mod Ranges
pub mod Boot
pub mod Carve
use panuti.Base.{
  ℕ, zero, suc, ◌+◌, ◌-◌, ◌*◌, ◌/◌, ◌%◌, ◌^◌, Bool, true, false, ◌&&◌, ◌||◌, List, [], ◌∷◌, Option,
  none, some, ◌==◌, ltb, leb, if◌then◌else◌, replicate,
}
use panuti.Pmm.{Pmm, u32, page_size, clrp, setp, allocp}

-- `multiboot_memory_map_t`, with its 64-bit fields.
pub record Region : Type 0 where
  pub addr : ℕ
  pub len : ℕ
  pub type : ℕ

-- `multiboot_module_t`
pub record BootModule : Type 0 where
  pub mod_start : ℕ
  pub mod_end : ℕ

pub record BootInfo : Type 0 where
  pub flags : ℕ
  pub mmap : List Region
  pub modules : List BootModule

abbrev pub phys_limit : ℕ
phys_limit = 0x1_0000_0000

abbrev pub lowmem_end : ℕ
lowmem_end = 0x10_0000

abbrev pub identity_limit : ℕ
identity_limit = 0x40_0000

abbrev pub usable : Region → Bool
usable r = if r.type == 1 then ltb r.addr phys_limit else false

abbrev pub clamped_end : Region → ℕ
clamped_end r =
    let end = (r.addr + r.len) % 2 ^ 64 in if ltb phys_limit end then phys_limit else end

-- `(a + PMM_PAGE_MASK) & ~PMM_PAGE_MASK` on 32 bits.
abbrev pub page_align : ℕ → ℕ
page_align a = u32 (a + 4095) / 4096 * 4096

abbrev pub carve_skip : (start limit skip_start skip_end : ℕ) → ℕ
carve_skip start limit skip_start skip_end =
    let past = page_align skip_end in
    if leb skip_start start && (ltb start skip_end && leb skip_end limit)
    then (if leb past limit then past else limit)
    else start

-- The cast to `uint32_t`, and the cap of the identity map.
abbrev pub carve_limit : Region → ℕ
carve_limit r =
    let limit = u32 (clamped_end r) in if ltb identity_limit limit then identity_limit else limit

-- Where the bitmap would go in a region.
abbrev pub carve_start : (kernel_end mod_start mod_end limit : ℕ) → ℕ
carve_start kernel_end mod_start mod_end limit =
    page_align
      (carve_skip (carve_skip lowmem_end limit lowmem_end kernel_end) limit mod_start mod_end)

abbrev pub carve_fits : Region → (nbytes limit start : ℕ) → Bool
carve_fits r nbytes limit start =
    usable r && (ltb lowmem_end (clamped_end r) && (ltb start limit && leb nbytes (limit - start)))

unfoldable pub carve_walk : (kernel_end mod_start mod_end nbytes : ℕ) → List Region → Option ℕ
carve_walk kernel_end mod_start mod_end nbytes [] = none
carve_walk kernel_end mod_start mod_end nbytes (r ∷ rs) =
    let start = carve_start kernel_end mod_start mod_end (carve_limit r) in
    let rest = carve_walk kernel_end mod_start mod_end nbytes rs in
    if carve_fits r nbytes (carve_limit r) start then some start else rest

unfoldable pub carve_place : (kernel_end mod_start mod_end nbytes : ℕ) → List Region → Option ℕ
unfolding carve_walk
carve_place kernel_end mod_start mod_end nbytes rs =
    if nbytes == 0 then none else carve_walk kernel_end mod_start mod_end nbytes rs

-- The first pass: the highest address of available memory.
unfoldable pub max_end : ℕ → List Region → ℕ
max_end acc [] = acc
max_end acc (r ∷ rs) =
    max_end (if usable r && ltb acc (clamped_end r) then clamped_end r else acc) rs

-- `for (page = start; page < end; page++)`, as the `n` rounds from `page` on.
unfoldable pub clrp_range : ℕ → ℕ → Pmm → Pmm
clrp_range zero page p = p
clrp_range (suc n) page p = clrp_range n (page + 1) (clrp p page)

unfoldable pub setp_range : ℕ → ℕ → Pmm → Pmm
setp_range zero page p = p
setp_range (suc n) page p = setp_range n (page + 1) (setp p page)

abbrev pub page_up : ℕ → ℕ
page_up a = (a + 4095) / 4096

unfoldable pub free_region : Region → Pmm → Pmm
free_region r p =
    if usable r
    then clrp_range (page_up (clamped_end r) - r.addr / page_size) (r.addr / page_size) p
    else p

-- The second pass: every available region is marked as free.
unfoldable pub free_regions : List Region → Pmm → Pmm
free_regions [] p = p
free_regions (r ∷ rs) p = free_regions rs (free_region r p)

-- Address arithmetic on `uint32_t` wraps.
unfoldable pub reserve : ℕ → ℕ → Pmm → Pmm
reserve start end p = setp_range (u32 (end + 4095) / 4096 - start / 4096) (start / 4096) p

unfoldable pub reserve_modules : List BootModule → Pmm → Pmm
reserve_modules [] p = p
reserve_modules (m ∷ ms) p = reserve_modules ms (reserve m.mod_start m.mod_end p)

-- What the first module leaves in `mod_start` and `mod_end`.
unfoldable pub first_module : BootInfo → BootModule
first_module info = elim (if info.flags / 8 % 2 == 1 then info.modules else []) [
  | [] ↦ record { mod_start = 0; mod_end = 0 }
  | m ∷ ms ↦ m
]

unfoldable pub frames_of : BootInfo → ℕ
frames_of info = u32 ((max_end 0 info.mmap + 4095) / page_size)

unfoldable pub blank : ℕ → Pmm
blank frames = record {
  bitmap = replicate (u32 (frames + 7) / 8) 0;
  bitmap_frames = frames;
  next_free_page = 0;
  rejected_ops = 0;
}

-- The markings, once the bitmap has its place.
unfoldable pub fill : (kernel_end bitmap_phys : ℕ) → BootInfo → Pmm
fill kernel_end bitmap_phys info =
    let frames = frames_of info in
    let m = first_module info in
    let free = free_regions info.mmap (blank frames) in
    let kept = reserve lowmem_end kernel_end (setp_range 256 0 free) in
    let loaded = if ltb m.mod_start m.mod_end then reserve_modules info.modules kept else kept in
    reserve bitmap_phys (bitmap_phys + u32 (frames + 7) / 8) loaded

-- `map_bitmap_home` takes a frame for a page table. The second part is the place of the bitmap.
unfoldable pub init : (kernel_end : ℕ) → BootInfo → Option (Pmm × ℕ)
init kernel_end info =
    let m = first_module info in
    let nbytes = u32 (frames_of info + 7) / 8 in
    let place = carve_place kernel_end m.mod_start m.mod_end nbytes info.mmap in
    if info.flags / 64 % 2 == 0 || max_end 0 info.mmap == 0 then none else (elim place [
      | none ↦ none
      | some phys ↦
          let (p, table) = allocp (fill kernel_end phys info) in
          if table == 0 then none else some (p, phys)
    ])
