-- ===== src/Pmm/Init/Carve.antt =====
-- Where `carve_place` of pmm.c puts the bitmap.
use panuti.Base.{ℕ, ◌+◌, ◌%◌, ◌≤◌, ◌≡◌, List, [], ◌∷◌, Option, some, arith, if◌then◌else◌}
use panuti.Pmm.Init.{
  Region, clamped_end, carve_limit, carve_start, carve_fits, carve_walk, carve_place, carve_skip,
  lowmem_end, identity_limit, phys_limit, page_align,
}

pub record Placed (nbytes phys : ℕ) : Type 0 where
  pub aligned : phys % 4096 ≡ 0
  pub above_lowmem : lowmem_end ≤ phys
  pub below_limit : phys + nbytes ≤ identity_limit

carve_skip_bounds :
    (start limit skip_start skip_end : ℕ)
    → limit ≤ identity_limit
    → start ≤ identity_limit
    → (start ≤ carve_skip start limit skip_start skip_end)
      × (carve_skip start limit skip_start skip_end ≤ identity_limit)
carve_skip_bounds start limit skip_start skip_end h hs = ground arith

carve_limit-le : (r : Region) → carve_limit r ≤ identity_limit
carve_limit-le r = ground arith

carve_start_bounds :
    (kernel_end mod_start mod_end limit : ℕ)
    → limit ≤ identity_limit
    → (lowmem_end ≤ carve_start kernel_end mod_start mod_end limit)
      × (carve_start kernel_end mod_start mod_end limit % 4096 ≡ 0)
carve_start_bounds kernel_end mod_start mod_end limit h =
    let a = carve_skip_bounds lowmem_end limit lowmem_end kernel_end h (omega arith) in
    let b =
      carve_skip_bounds (carve_skip lowmem_end limit lowmem_end kernel_end) limit mod_start mod_end
        h a.1 in
    align_bounds
      (carve_skip (carve_skip lowmem_end limit lowmem_end kernel_end) limit mod_start mod_end)
      (omega (arith, a.0, b.0)) b.1
  where
    align_bounds :
        (x : ℕ)
        → lowmem_end ≤ x
        → x ≤ identity_limit
        → (lowmem_end ≤ page_align x) × (page_align x % 4096 ≡ 0)
    align_bounds x lo hi = omega arith

-- One round of the walk.
round-Placed :
    (r : Region) (nbytes limit start : ℕ) {rest : Option ℕ} {phys : ℕ}
    → (lowmem_end ≤ start) × (start % 4096 ≡ 0)
    → limit ≤ identity_limit
    → (rest ≡ some phys → Placed nbytes phys)
    → (if carve_fits r nbytes limit start then some start else rest) ≡ some phys
    → Placed nbytes phys
round-Placed r nbytes limit start b l later e = ground (arith, later)

carve_walk-Placed :
    (kernel_end mod_start mod_end nbytes : ℕ) (rs : List Region) {phys : ℕ}
    → carve_walk kernel_end mod_start mod_end nbytes rs ≡ some phys
    → Placed nbytes phys
unfolding carve_walk
carve_walk-Placed kernel_end mod_start mod_end nbytes [] h = ground arith
carve_walk-Placed kernel_end mod_start mod_end nbytes (r ∷ rs) h =
    round-Placed r nbytes (carve_limit r) (carve_start kernel_end mod_start mod_end (carve_limit r))
      (carve_start_bounds kernel_end mod_start mod_end (carve_limit r) (carve_limit-le r))
      (carve_limit-le r) (carve_walk-Placed kernel_end mod_start mod_end nbytes rs) h

-- Whatever the memory map, the bitmap is put at the start of a page at or above 1 MiB, and ends at
-- or below 4 MiB, the part of memory that is mapped while the allocator is set up.
pub carve_place_bounds :
    (kernel_end mod_start mod_end nbytes : ℕ) (rs : List Region) {phys : ℕ}
    → carve_place kernel_end mod_start mod_end nbytes rs ≡ some phys
    → Placed nbytes phys
unfolding carve_place
carve_place_bounds kernel_end mod_start mod_end nbytes rs {phys} h =
    ground (arith, carve_walk-Placed kernel_end mod_start mod_end nbytes rs {phys = phys})

-- A region of available memory that reaches 4 GiB never holds the bitmap, however large it is: its
-- clamped end does not fit the 32-bit limit, and wraps to 0.
pub carve_place_skips_top :
    (kernel_end mod_start mod_end nbytes : ℕ) (r : Region) (rs : List Region)
    → clamped_end r ≡ phys_limit
    → carve_place kernel_end mod_start mod_end nbytes (r ∷ rs)
      ≡ carve_place kernel_end mod_start mod_end nbytes rs
unfolding carve_place
carve_place_skips_top kernel_end mod_start mod_end nbytes r rs h = ground arith
