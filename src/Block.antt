-- ===== src/Block.antt =====
-- Handles of block devices, kernel/kernel/block/block.c. The driver's read and write, and whether kmalloc
-- has room, are parameters; a device's contents are what its driver keeps.
pub mod Bytes
pub mod Span
pub mod Read
pub mod Write
pub mod Seek
mod Tests
use panuti.Base.{
  ℕ, zero, suc, ◌+◌, ◌-◌, ◌*◌, ◌/◌, ◌%◌, ◌^◌, Bool, true, false, not, ◌&&◌, ◌||◌, List, [], ◌∷◌,
  Option, none, some, length, take, drop, replicate, ltb, leb, ◌==◌, if◌then◌else◌,
}
use panuti.Base.Int.{ℤ, pos, negsuc, ◌+ℤ◌, ltb_ℤ}

abbrev pub u32 : ℕ → ℕ
u32 n = n % 2 ^ 32

-- A `size_t` as an `int`.
abbrev pub as_int : ℕ → ℤ
as_int n = if ltb n (2 ^ 31) then pos n else negsuc (2 ^ 32 - 1 - n)

-- `len` bytes at `i`, and a copy of `ys` over the bytes at `i`.
abbrev pub slice : List ℕ → (i len : ℕ) → List ℕ
slice xs i len = take len (drop i xs)

abbrev pub splice : List ℕ → (i : ℕ) → List ℕ → List ℕ
splice [] i ys = []
splice (x ∷ xs) zero [] = x ∷ xs
splice (x ∷ xs) zero (y ∷ ys) = y ∷ splice xs zero ys
splice (x ∷ xs) (suc i) ys = x ∷ splice xs i ys

-- A driver with its device; `none` is an error of a read. A write leaves a device also when it fails,
-- which is `false`: it may have written some of the blocks.
pub record Driver {ℓ} (D : Type ℓ) : Type ℓ where
  pub read : D → (block count : ℕ) → Option (List ℕ)
  pub write : D → (block count : ℕ) → List ℕ → D × Bool
  pub has_write : Bool
  pub block_size : ℕ
  pub block_count : ℕ

-- What a handle operation leaves: the device, the offset, the bytes read, and what it returns.
pub record Done {ℓ} (D : Type ℓ) : Type ℓ where
  pub device : D
  pub offset : ℕ
  pub bytes : List ℕ
  pub returned : ℤ

-- `bh->offset + len - 1` is a sum of 32 bits.
abbrev pub first_block : (bs offset : ℕ) → ℕ
first_block bs offset = offset / bs

abbrev pub last_block : (bs offset len : ℕ) → ℕ
last_block bs offset len = u32 (offset + len + 2 ^ 32 - 1) / bs

abbrev pub num_blocks : (bs offset len : ℕ) → ℕ
num_blocks bs offset len = u32 (last_block bs offset len + 1 + 2 ^ 64 - first_block bs offset)

module _ {ℓ} {D : Type ℓ} (v : Driver D) (has_room : (size : ℕ) → Bool) where
  -- Nothing happened but the value returned.
  abbrev pub returns : D → (offset : ℕ) → ℤ → Done D
  returns d offset rc = record { device = d; offset = offset; bytes = []; returned = rc }

  unfoldable pub read_op : D → (offset len : ℕ) → Done D
  read_op d offset len =
      let bs = v.block_size in
      let num = num_blocks bs offset len in
      if len == 0
      then returns d offset (pos 0)
      else if not (has_room (u32 (num * bs)))
      then returns d offset (pos 0)
      else elim (v.read d (first_block bs offset) num) as (λ _. Done D) [
        | none ↦ returns d offset (pos 0)
        | some tmp ↦ record {
          device = d;
          offset = u32 (offset + len);
          bytes = slice tmp (offset % bs) len;
          returned = as_int len;
        }
      ]

  -- The blocks before the copy: those of the device if the copy leaves a part of them, else the memory
  -- of kmalloc, which is zero.
  abbrev pub old_blocks : D → (offset len : ℕ) → Option (List ℕ)
  old_blocks d offset len =
      let bs = v.block_size in
      let num = num_blocks bs offset len in
      if not (offset % bs == 0) || ltb len (u32 (num * bs))
      then v.read d (first_block bs offset) num
      else some (replicate (u32 (num * bs)) 0)

  -- The end of `block_write_op`, with the blocks to change.
  abbrev pub write_blocks : D → (offset : ℕ) → List ℕ → Option (List ℕ) → Done D
  write_blocks d offset buf none = returns d offset (pos 0)
  write_blocks d offset buf (some tmp) =
      let bs = v.block_size in
      let num = num_blocks bs offset (length buf) in
      let (e, done) = v.write d (first_block bs offset) num (splice tmp (offset % bs) buf) in
      if done
      then record {
        device = e;
        offset = u32 (offset + length buf);
        bytes = [];
        returned = as_int (length buf);
      }
      else returns e offset (pos 0)

  -- `BLOCK_ERR_INVAL` is -1.
  unfoldable pub write_op : D → (offset : ℕ) → List ℕ → Done D
  write_op d offset buf =
      let bs = v.block_size in
      let num = num_blocks bs offset (length buf) in
      if length buf == 0
      then returns d offset (pos 0)
      else if not v.has_write
      then returns d offset (negsuc 0)
      else if ltb v.block_count (first_block bs offset + num)
      then returns d offset (negsuc 0)
      else if not (has_room (u32 (num * bs)))
      then returns d offset (pos 0)
      else write_blocks d offset buf (old_blocks d offset (length buf))

  abbrev pub dev_size : ℕ
  dev_size = (v.block_count * v.block_size) % 2 ^ 64

  abbrev pub int64_max : ℕ
  int64_max = 2 ^ 63 - 1

  -- The base of a seek by `whence`; the product of the size is one of 64 bits.
  abbrev pub seek_base : (offset whence : ℕ) → Option ℕ
  seek_base offset zero = some 0
  seek_base offset (suc zero) = some offset
  seek_base offset (suc (suc zero)) = some (if ltb int64_max dev_size then int64_max else dev_size)
  seek_base offset (suc (suc (suc n))) = none

  abbrev pub seek_sum : (base : ℕ) → (by : ℤ) → ℤ
  seek_sum base (pos by) =
      if ltb 0 by && ltb (int64_max - by) base then pos int64_max else pos (base + by)
  seek_sum base (negsuc by) = pos base +ℤ negsuc by

  abbrev pub not_below_zero : ℤ → ℕ
  not_below_zero (pos n) = n
  not_below_zero (negsuc n) = 0

  abbrev pub seek_to : (base : ℕ) → (by : ℤ) → ℕ
  seek_to base by =
      let np = not_below_zero (seek_sum base by) in if ltb dev_size np then u32 dev_size else u32 np

  -- `block_seek_op`: the offset after it; `none` is the error of an unknown `whence`.
  unfoldable pub seek_op : (offset whence : ℕ) → (by : ℤ) → Option ℕ
  seek_op offset whence by = elim (seek_base offset whence) as (λ _. Option ℕ) [
    | none ↦ none
    | some base ↦ some (seek_to base by)
  ]
