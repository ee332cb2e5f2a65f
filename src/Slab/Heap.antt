-- ===== src/Slab/Heap.antt =====
-- `kmalloc_inner` and `kfree_inner`: the caches of slabs, and the registry of allocations of whole pages. What vmalloc
-- gives is an argument, and what goes back to it is in the result.
use panuti.Base.{
  ℕ, ◌+◌, ◌-◌, ◌*◌, ◌/◌, ◌%◌, ◌^◌, ◌&&◌, List, [], ◌∷◌, Option, none, some, get_or, set, ltb, leb,
  ◌==◌, if◌then◌else◌,
}
use panuti.Slab.{Slab, u32, page_size, slab_obj, slab_create, is_full, take_object, free_in}

-- An entry of `big_allocs`; the address 0 is an empty one.
pub record BigAlloc : Type 0 where
  pub vaddr : ℕ
  pub npages : ℕ

abbrev pub empty_slot : BigAlloc
empty_slot = record { vaddr = 0; npages = 0 }

pub record Cache : Type 0 where
  pub obj_size : ℕ
  pub slabs : List Slab

pub record Heap : Type 0 where
  pub caches : List Cache
  pub big_allocs : List BigAlloc

-- The pages that vmalloc has: one, or a range of so many.
pub record Pages : Type 0 where
  pub page : Option ℕ
  pub range : (npages : ℕ) → Option ℕ

-- The heap after a call, the address that kmalloc returns, and the range that goes back to vmalloc.
pub record Called : Type 0 where
  pub heap : Heap
  pub ptr : ℕ
  pub released : Option BigAlloc

abbrev pub called : Heap → (ptr : ℕ) → Called
called h ptr = record { heap = h; ptr = ptr; released = none }

-- `cache_for`: the index of the cache from `i` on.
unfoldable pub cache_for : (i : ℕ) → List Cache → (size align : ℕ) → Option ℕ
cache_for i [] size align = none
cache_for i (c ∷ cs) size align =
    let rest = cache_for (i + 1) cs size align in
    if leb size c.obj_size && (c.obj_size % align == 0) then some i else rest

-- The index of the first entry with the address.
unfoldable pub slot_of : (i vaddr : ℕ) → List BigAlloc → Option ℕ
slot_of i vaddr [] = none
slot_of i vaddr (b ∷ bs) =
    let rest = slot_of (i + 1) vaddr bs in if b.vaddr == vaddr then some i else rest

-- The entry of an allocation of whole pages: the data behind the header page when it has one.
abbrev pub register_big : Heap → (data_addr total : ℕ) → Option ℕ → Called
register_big h data_addr total (some slot) =
    called
      (record h {
        big_allocs = set h.big_allocs slot (record { vaddr = data_addr; npages = total });
      })
      data_addr
register_big h data_addr total none = record {
  heap = h;
  ptr = 0;
  released = some (record {
    vaddr = if total == 1 then data_addr else u32 (data_addr + 2 ^ 32 - page_size);
    npages = total;
  });
}

-- With the pages of vmalloc.
abbrev pub place_big : Heap → (total header : ℕ) → Option ℕ → Called
place_big h total header none = called h 0
place_big h total header (some addr) =
    register_big h (u32 (addr + header)) total (slot_of 0 0 h.big_allocs)

-- `kmalloc_inner` above 2048 bytes.
unfoldable pub kmalloc_big : Heap → Pages → (size align : ℕ) → Called
kmalloc_big h v size align =
    let npages = (size + page_size - 1) / page_size in
    if ltb page_size align
    then called h 0
    else if ltb (65535 * page_size) (size + page_size - 1)
    then called h 0
    else if leb size page_size
    then place_big h 1 0 v.page
    else place_big h (npages + 1) page_size (v.range (npages + 1))

-- The first slab with a free object gives it.
unfoldable pub take_first : List Slab → Option (ℕ × List Slab)
take_first [] = none
take_first (s ∷ ss) = elim (take_first ss) as (λ _. Option (ℕ × List Slab)) [
  | none ↦ if is_full s then none else some (slab_obj s s.free, take_object s ∷ ss)
  | some (ptr, rest) ↦
      if is_full s then some (ptr, s ∷ rest) else some (slab_obj s s.free, take_object s ∷ ss)
]

-- Without a page the kernel panics, and there is no slab.
abbrev pub new_slab : (obj_size : ℕ) → Option ℕ → Option Slab
new_slab obj_size none = none
new_slab obj_size (some page) = slab_create page obj_size

abbrev pub with_slabs : Heap → (cache : ℕ) → List Slab → Heap
with_slabs h i ss = record h {
  caches =
      set h.caches i
        (record (get_or h.caches i (record { obj_size = 0; slabs = [] })) { slabs = ss });
}

-- `kmalloc_inner` up to 2048 bytes, with the cache.
unfoldable pub kmalloc_small : Heap → Pages → (cache : ℕ) → Called
kmalloc_small h v i =
    let c = get_or h.caches i (record { obj_size = 0; slabs = [] }) in
    elim (take_first c.slabs) as (λ _. Called) [
      | some (ptr, ss) ↦ called (with_slabs h i ss) ptr
      | none ↦ elim (new_slab c.obj_size v.page) as (λ _. Called) [
        | none ↦ called h 0
        | some s ↦ called (with_slabs h i (take_object s ∷ c.slabs)) (slab_obj s s.free)
      ]
    ]

-- `kmalloc_inner`
unfoldable pub kmalloc : Heap → Pages → (size align : ℕ) → Called
kmalloc h v size align =
    let al = if align == 0 then 1 else align in
    let small = elim (cache_for 0 h.caches size al) as (λ _. Called) [
      | none ↦ called h 0
      | some i ↦ kmalloc_small h v i
    ] in
    if size == 0 then called h 0 else if ltb 2048 size then kmalloc_big h v size al else small

-- The slab that starts at the page frees the address.
unfoldable pub free_slabs : (page ptr : ℕ) → List Slab → List Slab
free_slabs page ptr [] = []
free_slabs page ptr (s ∷ ss) =
    let rest = free_slabs page ptr ss in if s.base == page then free_in s ptr ∷ ss else s ∷ rest

unfoldable pub free_caches : (page ptr : ℕ) → List Cache → List Cache
free_caches page ptr [] = []
free_caches page ptr (c ∷ cs) =
    record c { slabs = free_slabs page ptr c.slabs } ∷ free_caches page ptr cs

-- An entry of the registry that is freed: the header page goes back with it.
abbrev pub release_big : Heap → (ptr : ℕ) → Option ℕ → Called
release_big h ptr (some slot) =
    let b = get_or h.big_allocs slot empty_slot in
    record {
      heap = record h { big_allocs = set h.big_allocs slot (record b { vaddr = 0 }) };
      ptr = 0;
      released = some (record {
        vaddr = if ltb 1 b.npages then u32 (ptr + 2 ^ 32 - page_size) else ptr;
        npages = b.npages;
      });
    }
release_big h ptr none = record {
  heap = h;
  ptr = 0;
  released = some (record { vaddr = ptr; npages = 1 });
}

-- `kfree_inner`
unfoldable pub kfree : Heap → (ptr : ℕ) → Called
kfree h ptr =
    if ptr == 0
    then called h 0
    else if ptr % page_size == 0
    then release_big h ptr (slot_of 0 ptr h.big_allocs)
    else called (record h { caches = free_caches (ptr / page_size * page_size) ptr h.caches }) 0
