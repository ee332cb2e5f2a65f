-- ===== src/Handle.antt =====
-- The handle table of a task, kernel/kernel/handle/handle.c, and the lookup of
-- kernel/kernel/sched/task.c. A null `table` or `openb` is the empty list. Whether kmalloc finds
-- memory is an argument.
pub mod Slots
pub mod Grow
pub mod Alloc
pub mod Free
mod Tests
use panuti.Base.{
  ℕ, zero, suc, ◌+◌, ◌-◌, ◌*◌, ◌/◌, ◌%◌, ◌^◌, Bool, true, false, not, ◌&&◌, ◌||◌, List, [], ◌∷◌,
  ◌++◌, Option, none, some, length, get_or, set, take, replicate, ◌==◌, ltb, leb, if◌then◌else◌,
  test_bit,
}
use panuti.Base.Int.{ℤ, pos, negsuc}
use panuti.Bitmap.{is_set, mark, unmark}

-- `inode_type_t`
pub data InodeType : Type 0 where
  none_type dir file block pipe dvc : InodeType

-- `handle_t`; pointers are numbers, and 0 is the null pointer.
pub record Handle : Type 0 where
  pub type : InodeType
  pub impl : ℕ
  pub ops : ℕ
  pub inode : ℕ

abbrev pub zeroed : Handle
zeroed = record { type = none_type; impl = 0; ops = 0; inode = 0 }

-- `fdtable_t`
pub record FdTable : Type 0 where
  pub table : List Handle
  pub cap : ℕ
  pub openb : List ℕ

abbrev pub empty : FdTable
empty = record { table = []; cap = 0; openb = [] }

abbrev pub max_handles : ℕ
max_handles = 1024

abbrev pub initial_cap : ℕ
initial_cap = 16

abbrev pub bytes_for : ℕ → ℕ
bytes_for cap = (cap + 7) / 8

abbrev pub grown_cap : ℕ → ℕ
grown_cap cap =
    let doubled = if cap == 0 then initial_cap else cap * 2 in
    if ltb max_handles doubled then max_handles else doubled

-- The memory for the new table and for the new bitmap.
pub record Memory : Type 0 where
  pub for_table : Bool
  pub for_openb : Bool

abbrev pub enlarged : FdTable → FdTable
enlarged t =
    let cap = grown_cap t.cap in
    record {
      table = take t.cap t.table ++ replicate (cap - t.cap) zeroed;
      cap = cap;
      openb = take (bytes_for t.cap) t.openb ++ replicate (bytes_for cap - bytes_for t.cap) 0;
    }

-- `fdtable_grow`; `none` is -1.
unfoldable pub grow : Memory → FdTable → Option FdTable
grow m t =
    if leb max_handles t.cap
    then none
    else if m.for_table && m.for_openb
    then some (enlarged t)
    else none

-- The loop over the bits of a byte; it breaks at the capacity.
unfoldable pub scan_bits : FdTable → (byte n bit : ℕ) → Option ℕ
scan_bits t byte zero bit = none
scan_bits t byte (suc n) bit =
    let slot : ℕ = byte * 8 + bit in
    let rest = scan_bits t byte n (bit + 1) in
    if leb t.cap slot
    then none
    else if test_bit (get_or t.openb byte 0) bit
    then rest
    else some slot

-- The loop over the bytes; a byte with no clear bit is skipped.
unfoldable pub scan_bytes : FdTable → (n byte : ℕ) → Option ℕ
unfolding scan_bits
scan_bytes t zero byte = none
scan_bytes t (suc n) byte =
    let rest = scan_bytes t n (byte + 1) in
    let found = scan_bits t byte 8 0 in
    if get_or t.openb byte 0 == 0xFF
    then rest
    else (elim found [ none ↦ rest | some slot ↦ some slot ])

abbrev pub set_type : FdTable → ℕ → InodeType → List Handle
set_type t slot type = set t.table slot (record (get_or t.table slot zeroed) { type = type })

abbrev pub occupy : FdTable → ℕ → InodeType → FdTable
occupy t slot type = record t { table = set_type t slot type; openb = mark t.openb slot }

-- `handle_alloc`, with `none` for an error.
unfoldable pub alloc : Memory → FdTable → InodeType → FdTable × Option ℕ
alloc m t type = elim (scan_bytes t (bytes_for t.cap) 0) [
  | some slot ↦ (occupy t slot type, some slot)
  | none ↦ elim (grow m t) [ none ↦ (t, none) | some u ↦ (occupy u t.cap type, some t.cap) ]
]

abbrev pub all_zero : List ℕ → Bool
all_zero [] = true
all_zero (b ∷ bs) = if b == 0 then all_zero bs else false

-- The rest of `handle_free`, at a slot in range.
unfoldable pub vacate : FdTable → ℕ → FdTable
vacate t slot =
    let openb = unmark t.openb slot in
    if all_zero (take (bytes_for t.cap) openb)
    then empty
    else record t { table = set t.table slot zeroed; openb = openb }

abbrev pub is_null {ℓ} : {A : Type ℓ} → List A → Bool
is_null [] = true
is_null (x ∷ xs) = false

-- `handle_free`
unfoldable pub free : FdTable → ℤ → FdTable
free t (negsuc n) = t
free t (pos slot) =
    if is_null t.table || is_null t.openb || leb t.cap slot then t else vacate t slot

-- `task_return_hslot`, with `none` for a null pointer.
unfoldable pub return_hslot : FdTable → ℕ → Option Handle
return_hslot t slot =
    if is_null t.table || is_null t.openb || leb t.cap slot
    then none
    else if is_set t.openb slot
    then some (get_or t.table slot zeroed)
    else none
