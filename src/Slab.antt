-- ===== src/Slab.antt =====
-- The heap of the kernel, kernel/kernel/memman/slab/slab.c. A slab is a page; the first words of its objects, which
-- link the free ones, are a list. The pages that vmalloc gives are arguments.
pub mod Chain
pub mod Create
pub mod Objects
pub mod Owner
pub mod Heap
pub mod Big
mod Tests
use panuti.Base.{
  ℕ, zero, suc, ◌+◌, ◌-◌, ◌*◌, ◌/◌, ◌%◌, ◌^◌, Bool, true, false, not, ◌&&◌, ◌||◌, List, [], ◌∷◌,
  ◌++◌, Option, none, some, length, get_or, set, ltb, leb, ◌==◌, if◌then◌else◌,
}

abbrev pub u32 : ℕ → ℕ
u32 n = n % 2 ^ 32

-- The index -1.
abbrev pub no_index : ℕ
no_index = 2 ^ 32 - 1

abbrev pub page_size : ℕ
page_size = 4096

-- `slab_t` of a page, without the magic number of all slabs and the link to the next.
pub record Slab : Type 0 where
  pub base : ℕ
  pub obj_size : ℕ
  pub free : ℕ
  pub used : ℕ
  pub capacity : ℕ
  pub words : List ℕ

-- For a power of two.
abbrev pub align_up : (value alignment : ℕ) → ℕ
align_up value alignment = (value + alignment - 1) / alignment * alignment

-- `align_up(sizeof(slab_t), obj_size)`; the structure has six words.
abbrev pub header_size : (obj_size : ℕ) → ℕ
header_size obj_size = align_up 24 obj_size

-- `slab_obj`
abbrev pub slab_obj : Slab → (index : ℕ) → ℕ
slab_obj s index = s.base + header_size s.obj_size + index * s.obj_size

-- The links of `n` free objects from `i` on.
unfoldable pub links : (i n : ℕ) → List ℕ
links i zero = []
links i (suc zero) = no_index ∷ []
links i (suc (suc n)) = (i + 1) ∷ links (i + 1) (suc n)

-- `slab_create` on a page of vmalloc; a page that is given back is not there.
abbrev pub capacity_of : (obj_size : ℕ) → ℕ
capacity_of obj_size = (page_size - header_size obj_size) / obj_size

abbrev pub fresh : (page obj_size : ℕ) → Slab
fresh page obj_size = record {
  base = page;
  obj_size = obj_size;
  free = 0;
  used = 0;
  capacity = capacity_of obj_size;
  words = links 0 (capacity_of obj_size);
}

unfoldable pub slab_create : (page obj_size : ℕ) → Option Slab
slab_create page obj_size = if capacity_of obj_size == 0 then none else some (fresh page obj_size)

abbrev pub is_full : Slab → Bool
is_full s = s.free == no_index

-- The end of `kmalloc_inner` with the slab: the object at `free`, cleared.
unfoldable pub take_object : Slab → Slab
take_object s = record s {
  free = get_or s.words s.free 0;
  used = u32 (s.used + 1);
  words = set s.words s.free 0;
}

-- The loop of `kfree_inner`: whether the object is on the list of the free ones.
unfoldable pub on_list : (left : ℕ) → Slab → (free_index index : ℕ) → Bool
on_list zero s free_index index = false
on_list (suc left) s free_index index =
    let rest = on_list left s (get_or s.words free_index 0) index in
    if free_index == no_index then false else if free_index == index then true else rest

unfoldable pub put_object : Slab → (index : ℕ) → Slab
put_object s index = record s { words = set s.words index s.free; free = index; used = s.used - 1 }

-- `kfree_inner` from the slab of the page on.
abbrev pub offset_of : Slab → (ptr : ℕ) → ℕ
offset_of s ptr = u32 (ptr + 2 ^ 32 - s.base + 2 ^ 32 - header_size s.obj_size)

unfoldable pub free_in : Slab → (ptr : ℕ) → Slab
free_in s ptr =
    let offset = offset_of s ptr in
    let index = offset / s.obj_size in
    if not (offset % s.obj_size == 0)
    then s
    else if leb s.capacity index || (s.used == 0)
    then s
    else if on_list s.capacity s s.free index
    then s
    else put_object s index
