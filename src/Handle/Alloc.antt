-- ===== src/Handle/Alloc.antt =====
-- `handle_alloc`: which slot it gives out, also when the table has to grow.
use panuti.Base.{
  ℕ, ◌<◌, ◌≡◌, refl, ◌⊎◌, inl, inr, true, false, ◌&&◌, none, some, arith, get_or, ◌==◌, leb,
  if◌then◌else◌, Option-cases, length-set, get_or-set, ◌∙◌,
}
use panuti.Bitmap.{is_set-mark, mark-IsBytes, length-mark}
use panuti.Handle.{
  InodeType, FdTable, Memory, zeroed, max_handles, bytes_for, enlarged, grow, scan_bytes, occupy,
  alloc,
}
use panuti.Handle.Slots.{IsValid, is_open, Lowest, search_lem}
use panuti.Handle.Grow.{Grown, enlarged-Grown}

-- The slot was the lowest one not in use; it is in use now and has the type; all other slots are as
-- they were.
pub record Allocated (t u : FdTable) (slot : ℕ) (type : InodeType) : Type 0 where
  pub valid : IsValid u
  pub inside : slot < u.cap
  pub was_closed : is_open t slot ≡ false
  pub lowest : (j : ℕ) → j < slot → is_open t j ≡ true
  pub opened : (j : ℕ) → is_open u j ≡ (if slot == j then true else is_open t j)
  pub handles :
      (j : ℕ)
      → get_or u.table j zeroed ≡ (
          if slot == j
          then record (get_or t.table slot zeroed) { type = type }
          else get_or t.table j zeroed)

occupy-Allocated :
    (t : FdTable) (slot : ℕ) (type : InodeType)
    → IsValid t
    → slot < t.cap
    → is_open t slot ≡ false
    → ((j : ℕ) → j < slot → is_open t j ≡ true)
    → Allocated t (occupy t slot type) slot type
occupy-Allocated t slot type v inside closed lowest = record {
  valid = record {
    bytes = mark-IsBytes t.openb slot v.bytes;
    openb_length = length-mark t.openb slot ∙ v.openb_length;
    table_length = length-set t.table slot _ ∙ v.table_length;
    bounded = v.bounded;
    whole_bytes = v.whole_bytes;
  };
  inside = inside;
  was_closed = closed;
  lowest = lowest;
  opened = λ j.
      ground (arith, inside, is_set-mark t.openb slot j v.bytes (omega (arith, v.openb_length)));
  handles = λ j. get_or-set t.table slot j _ zeroed (omega (arith, v.table_length));
}

-- The same through a larger table.
Grown-Allocated :
    (t u : FdTable) {w : FdTable} (slot : ℕ) (type : InodeType)
    → Grown t u
    → Allocated u w slot type
    → Allocated t w slot type
Grown-Allocated t u slot type g a = record {
  valid = a.valid;
  inside = a.inside;
  was_closed = rw (← g.same_open slot) a.was_closed;
  lowest = λ j lt. rw (← g.same_open j) (a.lowest j lt);
  opened = λ j. rw (← g.same_open j) (a.opened j);
  handles = λ j. rw (← g.same_handle j, ← g.same_handle slot) (a.handles j);
}

-- With no free slot below it, the first slot behind the old table is given out.
grow-Allocated :
    (m : Memory) (t : FdTable) (type : InodeType) {u : FdTable}
    → IsValid t
    → ((j : ℕ) → j < t.cap → is_open t j ≡ true)
    → grow m t ≡ some u
    → Allocated t (occupy u t.cap type) t.cap type
unfolding grow
grow-Allocated m t type {u} v all e =
    let (room, same) = parts e in rw (← same) (through (enlarged-Grown t v room))
  where
    parts :
        (if leb max_handles t.cap
            then none
            else if m.for_table && m.for_openb
            then some (enlarged t)
            else none)
          ≡ some u
        → (t.cap < max_handles) × (enlarged t ≡ u)
    parts h = ground arith

    through : Grown t (enlarged t) → Allocated t (occupy (enlarged t) t.cap type) t.cap type
    through g = Grown-Allocated t (enlarged t) t.cap type g (
        occupy-Allocated (enlarged t) t.cap type g.valid g.larger
          (rw (g.same_open t.cap) (ground arith)) (λ j lt. rw (g.same_open j) (all j lt)))

-- `handle_alloc` gives out the lowest slot that is not in use, growing the table if need be. It
-- fails only when every slot is in use and the table cannot grow, and then changes nothing.
pub alloc_lem :
    (m : Memory) (t : FdTable) (type : InodeType)
    → IsValid t
    → ((slot : ℕ) × ((alloc m t type).1 ≡ some slot) × Allocated t (alloc m t type).0 slot type)
      ⊎ ((alloc m t type ≡ (t, none))
          × ((j : ℕ) → j < t.cap → is_open t j ≡ true)
          × (grow m t ≡ none))
unfolding alloc
alloc_lem m t type v = elim (Option-cases (scan_bytes t (bytes_for t.cap) 0)) [
  | inr (slot, found) ↦
      let low : Lowest t slot = rw found at (search_lem t) in
      rw (found, alloc) (inl (slot, refl, occupy-Allocated t slot type v low.0 low.1 low.2))
  | inl nothing ↦
      let all : ((j : ℕ) → j < t.cap → j < t.cap → is_open t j ≡ true) =
        rw nothing at (search_lem t) in
      elim (Option-cases (grow m t)) [
        | inl stuck ↦ rw (nothing, stuck, alloc) (inr (refl, λ j lt. all j lt lt, refl))
        | inr (u, grown) ↦
            rw (nothing, grown, alloc)
              (inl (t.cap, refl, grow-Allocated m t type v (λ j lt. all j lt lt) grown))
      ]
]
