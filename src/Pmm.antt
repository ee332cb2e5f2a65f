-- ===== src/Pmm.antt =====
-- The physical frame allocator, kernel/arch/i386/memman/pmm/pmm.c: the state that the file keeps in
-- its static variables and the operations on it. Log lines and the interrupt flag are left out.
pub mod Bits
pub mod Alloc
pub mod Owner
mod Tests
pub mod Init
use panuti.Base.{
  ℕ, zero, suc, ◌+◌, ◌-◌, ◌*◌, ◌/◌, ◌%◌, ◌^◌, Bool, List, Option, none, some, ◌==◌, ltb,
  if◌then◌else◌,
}
use panuti.Bitmap.{is_set, mark, unmark}

pub record Pmm : Type 0 where
  pub bitmap : List ℕ
  pub bitmap_frames : ℕ
  pub next_free_page : ℕ
  pub rejected_ops : ℕ

abbrev pub u32 : ℕ → ℕ
u32 n = n % 2 ^ 32

abbrev pub page_size : ℕ
page_size = 4096

unfoldable pub page_in_range : Pmm → ℕ → Bool
page_in_range p page = ltb page p.bitmap_frames

unfoldable pub reject : Pmm → Pmm
reject p = record p { rejected_ops = u32 (p.rejected_ops + 1) }

-- `pmm_clrp` sets the bit: the frame is free.
unfoldable pub clrp : Pmm → ℕ → Pmm
unfolding page_in_range reject
clrp p page = if page_in_range p page then record p { bitmap = mark p.bitmap page } else reject p

-- `pmm_setp` clears the bit: the frame is used.
unfoldable pub setp : Pmm → ℕ → Pmm
unfolding page_in_range reject
setp p page = if page_in_range p page then record p { bitmap = unmark p.bitmap page } else reject p

unfoldable pub bitmap_bytes : Pmm → ℕ
bitmap_bytes p = u32 (p.bitmap_frames + 7) / 8

-- The inner loop of `pmm_allocp`: `n` rounds from `page` on, to the first bit that is set.
unfoldable pub find_free : List ℕ → ℕ → ℕ → Option ℕ
find_free map zero page = none
find_free map (suc n) page =
    let rest = find_free map n (page + 1) in if is_set map page then some page else rest

-- What the loop does where it stops at `page`.
unfoldable pub take_page : Pmm → ℕ → Pmm × ℕ
take_page p page =
    (setp (record p { next_free_page = u32 (page + 1) }) page, u32 (page * page_size))

-- One of the two passes.
unfoldable pub pass : Pmm → Pmm × ℕ
unfolding find_free take_page
pass p =
    let found = find_free p.bitmap (p.bitmap_frames - p.next_free_page) p.next_free_page in
    let (q, result) = elim found as (λ _. Pmm × ℕ) [
      | none ↦ (p, 0)
      | some page ↦ take_page p page
    ] in
    if result == 0 then (record q { next_free_page = 0 }, 0) else (q, result)

unfoldable pub allocp : Pmm → Pmm × ℕ
allocp p = let (q, result) = pass p in if result == 0 then pass q else (q, result)

unfoldable pub freep : Pmm → ℕ → Pmm
unfolding page_in_range reject
freep p address =
    let page = address / page_size in
    let rewound = if ltb page p.next_free_page then record p { next_free_page = page } else p in
    if address == 0 then p else if page_in_range p page then clrp rewound page else reject p
