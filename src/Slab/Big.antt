-- ===== src/Slab/Big.antt =====
-- Allocations of whole pages: what kfree gives back is what kmalloc took.
use panuti.Base.{
  ℕ, suc, ◌+◌, ◌-◌, ◌*◌, ◌/◌, ◌%◌, ◌^◌, ◌≤◌, ◌<◌, ◌≡◌, refl, sym, ap, subst, ◌∙◌, inl, inr, true,
  false, List, [], ◌∷◌, none, some, arith, length, get_or, get_or-set, set, ltb, leb, ◌==◌,
  if◌then◌else◌, Bool-cases,
}
use panuti.Slab.{u32, page_size}
use panuti.Slab.Heap.{
  BigAlloc, empty_slot, Heap, Pages, slot_of, place_big, kmalloc_big, kmalloc, kfree,
}

FindsAgain : (i slot : ℕ) → List BigAlloc → Type 0
FindsAgain i slot bs =
    (j : ℕ) × (slot ≡ i + j)
    × (j < length bs)
    × ((v total : ℕ)
        → slot_of i v bs ≡ none
        → slot_of i v (set bs j (record { vaddr = v; npages = total })) ≡ some slot)

-- An address that is written into the first empty entry is found there.
slot_of-set : (i slot : ℕ) (bs : List BigAlloc) → slot_of i 0 bs ≡ some slot → FindsAgain i slot bs
unfolding FindsAgain slot_of
slot_of-set i slot [] e = absurd cc
slot_of-set i slot (b ∷ bs) e = elim (Bool-cases (b.vaddr == 0)) [
  | inl empty ↦
      let here : some i ≡ some slot = rw empty at e in
      let same : i ≡ slot = cc in
      (
        0,
        omega arith,
        omega arith,
        λ v total out. let own : (v == v) ≡ true = ground arith in rw own (ap some same),
      )
  | inr used ↦
      let later : slot_of (i + 1) 0 bs ≡ some slot = rw used at e in
      let (j, place, inside, again) = slot_of-set (i + 1) slot bs later in
      (
        suc j,
        omega arith,
        omega arith,
        λ v total out. elim (Bool-cases (b.vaddr == v)) [
          | inl twin ↦ let found : some i ≡ none = rw twin at out in absurd cc
          | inr other ↦
              let rest : slot_of (i + 1) v bs ≡ none = rw other at out in
              rw other (again v total rest)
        ],
      )
]

-- An allocation in place, and its release.
place_big-kfree :
    (h : Heap) (total header addr slot : ℕ)
    → slot_of 0 0 h.big_allocs ≡ some slot
    → slot_of 0 (addr + header) h.big_allocs ≡ none
    → 0 < addr + header
    → addr % page_size ≡ 0
    → addr + header < 2 ^ 32
    → header ≡ (if ltb 1 total then page_size else 0)
    → (kfree
        (place_big h total header (some addr)).heap
        (place_big h total header (some addr)).ptr).released
      ≡ some (record { vaddr = addr; npages = total })
unfolding FindsAgain kfree
place_big-kfree h total header addr slot room out some_addr aligned below shape =
    let whole : u32 (addr + header) ≡ addr + header = omega arith in
    let (j, place, inside, again) = slot_of-set 0 slot h.big_allocs room in
    let at : slot ≡ j = omega arith in
    let b : BigAlloc = record { vaddr = addr + header; npages = total } in
    let found : slot_of 0 (addr + header) (set h.big_allocs slot b) ≡ some slot =
      subst (λ k. slot_of 0 (addr + header) (set h.big_allocs k b) ≡ some slot) (sym at)
        (again (addr + header) total out) in
    let own : (slot == slot) ≡ true = ground arith in
    let read : get_or (set h.big_allocs slot b) slot empty_slot ≡ b =
      get_or-set h.big_allocs slot slot b empty_slot (omega arith) ∙ (rw own refl) in
    let real : (addr + header == 0) ≡ false = ground arith in
    let page : ((addr + header) % page_size == 0) ≡ true = ground arith in
    let base : (if ltb 1 total then u32 (addr + header + 2 ^ 32 - page_size) else addr + header)
        ≡ addr =
      ground arith in
    rw (room, whole, real, page, found, read, base) refl

abbrev pub npages_of : (size : ℕ) → ℕ
npages_of size = (size + page_size - 1) / page_size

-- kfree of an allocation of more than a page gives vmalloc back the range that kmalloc took, its header page
-- included, when the registry has an empty entry and no entry for the same address, and vmalloc gives pages
-- below 4 GiB.
pub kmalloc-kfree_big :
    (h : Heap) (v : Pages) (size align addr slot : ℕ)
    → page_size < size
    → align ≤ page_size
    → size + page_size - 1 ≤ 65535 * page_size
    → v.range (npages_of size + 1) ≡ some addr
    → addr % page_size ≡ 0
    → addr + page_size < 2 ^ 32
    → slot_of 0 0 h.big_allocs ≡ some slot
    → slot_of 0 (addr + page_size) h.big_allocs ≡ none
    → (kfree (kmalloc h v size align).heap (kmalloc h v size align).ptr).released
      ≡ some (record { vaddr = addr; npages = npages_of size + 1 })
unfolding kmalloc kmalloc_big
kmalloc-kfree_big h v size align addr slot large al fits range aligned below room out =
    let total = npages_of size + 1 in
    let some_size : (size == 0) ≡ false = ground arith in
    let large_size : ltb 2048 size ≡ true = ground arith in
    let pages : ltb page_size (if align == 0 then 1 else align) ≡ false = ground arith in
    let need : ltb (65535 * page_size) (size + page_size - 1) ≡ false = ground arith in
    let many : leb size page_size ≡ false = ground arith in
    let shape : page_size ≡ (if ltb 1 total then page_size else 0) = ground arith in
    rw (some_size, large_size, pages, need, many, range)
      (place_big-kfree h total page_size addr slot room out (omega arith) aligned below shape)
