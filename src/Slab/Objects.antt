-- ===== src/Slab/Objects.antt =====
-- The addresses of a slab's objects.
use panuti.Base.{
  ℕ, ◌+◌, ◌-◌, ◌*◌, ◌/◌, ◌%◌, ◌^◌, ◌≤◌, ◌<◌, ◌≡◌, ◌≢◌, refl, sym, ap, ◌∙◌, ◌⊎◌, inl, inr, true,
  false, ◌||◌, List, ◌∷◌, arith, leb, ◌==◌, if◌then◌else◌, Bool-cases,
}
use native.Mathlib.Nat.{
  lt-div-mul-add, div-mul-le_self, mul-le-mul_right, mul-div_left, div-add-mod, add-mul,
}
use panuti.Slab.{
  Slab, page_size, header_size, capacity_of, slab_obj, offset_of, put_object, free_in,
}
use panuti.Slab.Chain.{is_in, IsSlab, free_list_lem, put_object-IsSlab}

-- A slab that lies in a page of the 32-bit addresses.
pub record InPage (s : Slab) : Type 0 where
  pub some_size : 0 < s.obj_size
  pub filled : s.capacity ≡ capacity_of s.obj_size
  pub below : s.base + page_size ≤ 2 ^ 32

abbrev pub index_of : Slab → (ptr : ℕ) → ℕ
index_of s ptr = offset_of s ptr / s.obj_size

-- The address is not that of an object in use.
abbrev pub NotUsed : Slab → List ℕ → (ptr : ℕ) → Type 0
NotUsed s is ptr = (i : ℕ) → i < s.capacity → is_in i is ≡ false → 0 < s.used → slab_obj s i ≢ ptr

module _ (s : Slab) (page : InPage s) where
  pub objects_end : 0 < s.capacity → header_size s.obj_size + s.capacity * s.obj_size ≤ page_size
  objects_end some_object =
      let fits : capacity_of s.obj_size * s.obj_size ≤ page_size - header_size s.obj_size =
        div-mul-le_self _ _ in
      let same : s.capacity * s.obj_size ≡ capacity_of s.obj_size * s.obj_size =
        ap (λ c. c * s.obj_size) page.filled in
      let one : 1 * s.obj_size ≤ s.capacity * s.obj_size =
        mul-le-mul_right s.obj_size some_object in
      omega (arith, page.some_size)

  object_inside :
      (i : ℕ) → i < s.capacity → header_size s.obj_size + i * s.obj_size + s.obj_size ≤ page_size
  object_inside i lt =
      let le : (i + 1) * s.obj_size ≤ s.capacity * s.obj_size =
        mul-le-mul_right s.obj_size (omega arith) in
      omega (arith, objects_end (omega arith), add-mul i 1 s.obj_size)

  pub offset-slab_obj : (i : ℕ) → i < s.capacity → offset_of s (slab_obj s i) ≡ i * s.obj_size
  offset-slab_obj i lt = omega (arith, object_inside i lt, page.below, page.some_size)

  pub index-slab_obj : (i : ℕ) → i < s.capacity → index_of s (slab_obj s i) ≡ i
  index-slab_obj i lt =
      ap (λ n. n / s.obj_size) (offset-slab_obj i lt) ∙ mul-div_left i page.some_size

  -- An address whose offset is that of an object is the object.
  pub slab_obj-index :
      (ptr : ℕ)
      → ptr < 2 ^ 32
      → (offset_of s ptr % s.obj_size == 0) ≡ true
      → index_of s ptr < s.capacity
      → slab_obj s (index_of s ptr) ≡ ptr
  slab_obj-index ptr small whole lt =
      let exact : s.obj_size * index_of s ptr + offset_of s ptr % s.obj_size ≡ offset_of s ptr =
        div-add-mod _ _ in
      let none_left : offset_of s ptr % s.obj_size ≡ 0 = ground arith in
      let offset : offset_of s ptr ≡ index_of s ptr * s.obj_size = omega arith in
      omega (arith, object_inside (index_of s ptr) lt, page.below, page.some_size)

  -- The page that `kfree_inner` looks into is that of the slab, and no object starts a page.
  pub slab_obj-page :
      (i : ℕ)
      → i < s.capacity
      → s.base % page_size ≡ 0
      → (0 < slab_obj s i % page_size) × (slab_obj s i / page_size * page_size ≡ s.base)
  slab_obj-page i lt aligned =
      let header : 24 + s.obj_size - 1 < header_size s.obj_size + s.obj_size =
        lt-div-mul-add page.some_size in
      omega (arith, object_inside i lt, page.some_size)

  -- An object that is in use is put on the list of the free ones, and one that is free already stays as it is.
  pub free_in-slab_obj :
      (is : List ℕ) (i : ℕ)
      → IsSlab s is
      → i < s.capacity
      → 0 < s.used
      → free_in s (slab_obj s i) ≡ (if is_in i is then s else put_object s i)
  unfolding free_in
  free_in-slab_obj is i h lt some_used =
      let offset = offset-slab_obj i lt in
      let index = mul-div_left i page.some_size in
      let whole : (i * s.obj_size % s.obj_size == 0) ≡ true =
        ground (arith, div-add-mod (i * s.obj_size) s.obj_size, ap (λ k. s.obj_size * k) index) in
      let inside : (leb s.capacity i || (s.used == 0)) ≡ false = ground arith in
      rw (offset, index, whole, inside, free_list_lem s is i h) refl

  -- In a slab that counts an object in use, an address that changes nothing is no object in use.
  unchanged-NotUsed : (is : List ℕ) (ptr : ℕ) → IsSlab s is → free_in s ptr ≡ s → NotUsed s is ptr
  unfolding put_object
  unchanged-NotUsed is ptr h same i lt out some_used object =
      let put : free_in s ptr ≡ put_object s i =
        ap (free_in s) (sym object) ∙ free_in-slab_obj is i h lt some_used ∙ (rw out refl) in
      let count : s.used - 1 ≡ s.used = ap (λ t. t.used) (sym put ∙ same) in
      absurd (omega (arith, count, some_used))

  -- Freeing an address of 32 bits in a slab changes nothing, and then the address is no object, or one on the list,
  -- or the slab counts no object in use; or the address is an object that is not on the list, and the call puts
  -- it there and leaves a slab.
  pub free_in-cases :
      (is : List ℕ) (ptr : ℕ)
      → IsSlab s is
      → ptr < 2 ^ 32
      → ((free_in s ptr ≡ s) × NotUsed s is ptr)
        ⊎ ((index_of s ptr < s.capacity)
            × (is_in (index_of s ptr) is ≡ false)
            × (slab_obj s (index_of s ptr) ≡ ptr)
            × (free_in s ptr ≡ put_object s (index_of s ptr))
            × IsSlab (put_object s (index_of s ptr)) (index_of s ptr ∷ is))
  unfolding free_in
  free_in-cases is ptr h small = elim (Bool-cases (offset_of s ptr % s.obj_size == 0)) [
    | inr part ↦ stays (rw part refl)
    | inl whole ↦ elim (Bool-cases (leb s.capacity (index_of s ptr) || (s.used == 0))) [
      | inl out ↦ stays (rw (whole, out) refl)
      | inr inside ↦
          let walk = free_list_lem s is (index_of s ptr) h in
          let lt : index_of s ptr < s.capacity = ground arith in
          elim (Bool-cases (is_in (index_of s ptr) is)) [
            | inl twice ↦ stays (rw (whole, inside, walk, twice) refl)
            | inr used ↦ inr (
              lt,
              used,
              slab_obj-index ptr small whole lt,
              rw (whole, inside, walk, used) refl,
              put_object-IsSlab s is (index_of s ptr) h lt (ground arith) used,
            )
          ]
    ]
  ]
    where
      stays :
          free_in s ptr ≡ s
          → ((free_in s ptr ≡ s) × NotUsed s is ptr)
            ⊎ ((index_of s ptr < s.capacity)
                × (is_in (index_of s ptr) is ≡ false)
                × (slab_obj s (index_of s ptr) ≡ ptr)
                × (free_in s ptr ≡ put_object s (index_of s ptr))
                × IsSlab (put_object s (index_of s ptr)) (index_of s ptr ∷ is))
      stays same = inl (same, unchanged-NotUsed is ptr h same)
