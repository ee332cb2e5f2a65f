-- ===== src/Slab/Tests.antt =====
-- A slab of three objects of 1024 bytes at 1 MiB, and a heap with one cache.
use panuti.Base.{
  ℕ, ◌+◌, ◌%◌, ◌^◌, ◌<◌, ◌≡◌, refl, ◌⊎◌, false, List, [], ◌∷◌, none, some, arith, replicate,
}
use panuti.Slab.{
  Slab, no_index, page_size, links, slab_obj, is_full, take_object, on_list, put_object, free_in,
  slab_create,
}
use panuti.Slab.Chain.{is_in, IsSlab}
use panuti.Slab.Objects.{InPage, NotUsed, index_of, free_in-cases}
use panuti.Slab.Owner.{Request, get, give, after, get_unheld}
use panuti.Slab.Heap.{
  empty_slot, Heap, Pages, slot_of, cache_for, take_first, kmalloc_small, kmalloc, kfree,
  free_slabs, free_caches,
}
use panuti.Slab.Big.{npages_of, kmalloc-kfree_big}

abbrev page : ℕ
page = 2 ^ 20

-- Two objects, the first one freed twice, and an address that is none.
abbrev requests : List Request
requests = get ∷ get ∷ give (page + 1024) ∷ give (page + 1024) ∷ give (page + 1025) ∷ []

abbrev heap : Heap
heap = record {
  caches = record { obj_size = 1024; slabs = [] } ∷ [];
  big_allocs = replicate 3 empty_slot;
}

abbrev pages : Pages
pages = record { page = some page; range = λ n. some page }

held_behind : (after page 1024 requests).held ≡ (page + 2048) ∷ []
unfolding take_object put_object free_in on_list links
held_behind = refl

room_behind : is_full (after page 1024 requests).slab ≡ false
unfolding take_object put_object free_in on_list links
room_behind = refl

-- A small allocation takes the first object of a new slab, and a small size with an alignment no object has fails.
kmalloc_thousand : (kmalloc heap pages 1000 16).ptr ≡ page + 1024
unfolding kmalloc cache_for kmalloc_small take_first slab_create links
kmalloc_thousand = refl

kmalloc_aligned : (kmalloc heap pages 1000 4096).ptr ≡ 0
unfolding kmalloc cache_for
kmalloc_aligned = refl

-- Two allocations, and the first one back.
kfree_first :
    (kmalloc
      (kfree (kmalloc (kmalloc heap pages 1000 16).heap pages 1000 16).heap (page + 1024)).heap
      pages
      1000
      16).ptr
    ≡ page + 1024
unfolding kmalloc cache_for kmalloc_small take_first slab_create links take_object kfree free_caches
    free_slabs free_in on_list put_object
kfree_first = refl

get_unheld_example :
    ((after page 1024 requests).slab.free < (after page 1024 requests).slab.capacity)
    × (is_in
          (slab_obj (after page 1024 requests).slab (after page 1024 requests).slab.free)
          (after page 1024 requests).held
        ≡ false)
    × (0
        < slab_obj (after page 1024 requests).slab (after page 1024 requests).slab.free % page_size)
get_unheld_example =
    get_unheld page 1024 requests (omega arith) (omega arith) (omega arith) refl (omega arith)
      room_behind

-- The slab of one object in use.
abbrev one_used : Slab
one_used = record {
  base = page;
  obj_size = 1024;
  free = 1;
  used = 1;
  capacity = 3;
  words = 0 ∷ 2 ∷ no_index ∷ [];
}

one_used-IsSlab : IsSlab one_used (1 ∷ 2 ∷ [])
one_used-IsSlab = record {
  linked = (refl, omega arith, refl, (refl, omega arith, refl, refl));
  sized = refl;
  counted = omega arith;
  small = omega arith;
}

one_used-InPage : InPage one_used
one_used-InPage = record { some_size = omega arith; filled = refl; below = omega arith }

free_in-cases_example :
    ((free_in one_used (page + 1024) ≡ one_used) × NotUsed one_used (1 ∷ 2 ∷ []) (page + 1024))
    ⊎ ((index_of one_used (page + 1024) < 3)
        × (is_in (index_of one_used (page + 1024)) (1 ∷ 2 ∷ []) ≡ false)
        × (slab_obj one_used (index_of one_used (page + 1024)) ≡ page + 1024)
        × (free_in one_used (page + 1024) ≡ put_object one_used (index_of one_used (page + 1024)))
        × IsSlab
            (put_object one_used (index_of one_used (page + 1024)))
            (index_of one_used (page + 1024) ∷ 1 ∷ 2 ∷ []))
free_in-cases_example =
    free_in-cases one_used one_used-InPage (1 ∷ 2 ∷ []) (page + 1024) one_used-IsSlab (omega arith)

no_slot : slot_of 0 0 heap.big_allocs ≡ some 0
unfolding slot_of
no_slot = refl

no_entry : slot_of 0 (page + page_size) heap.big_allocs ≡ none
unfolding slot_of
no_entry = refl

kmalloc-kfree_big_example :
    (kfree (kmalloc heap pages 10000 0).heap (kmalloc heap pages 10000 0).ptr).released
    ≡ some (record { vaddr = page; npages = npages_of 10000 + 1 })
kmalloc-kfree_big_example =
    kmalloc-kfree_big heap pages 10000 0 page 0 (omega arith) (omega arith) (omega arith) refl
      (omega arith) (omega arith) no_slot no_entry
