-- ===== src/Block/Read.antt =====
-- `block_read_op` against the contents of the device.
use panuti.Base.{
  ℕ, ◌+◌, ◌*◌, ◌%◌, ◌≤◌, ◌≡◌, refl, ap, ◌∙◌, ◌⊎◌, inl, inr, Bool, true, false, List, none, some,
  arith, length, ◌==◌, Bool-cases,
}
use panuti.Base.Int.{pos}
use panuti.Block.{as_int, u32, slice, splice, Driver, first_block, num_blocks, returns, read_op}
use panuti.Block.Bytes.{slice-slice}
use panuti.Block.Span.{Inside, blocks_inside, start_lem, bytes_inside, size-no_wrap}

-- What a driver promises: a read or a write of blocks of the device that does not fail is one of the bytes
-- of these blocks. A write that fails may leave any bytes in these blocks, but keeps all others.
pub record Stores {ℓ} {D : Type ℓ} (v : Driver D) (contents : D → List ℕ) : Type ℓ where
  pub size : (d : D) → length (contents d) ≡ v.block_count * v.block_size
  pub reads :
      (d : D) (block count : ℕ)
      → block + count ≤ v.block_count
      → (v.read d block count ≡ none)
        ⊎ (v.read d block count
            ≡ some (slice (contents d) (block * v.block_size) (count * v.block_size)))
  pub writes :
      (d : D) (block count : ℕ) (data_bytes : List ℕ)
      → block + count ≤ v.block_count
      → length data_bytes ≡ count * v.block_size
      → ((e : D) × (left : List ℕ) × (v.write d block count data_bytes ≡ (e, false))
          × (length left ≡ count * v.block_size)
          × (contents e ≡ splice (contents d) (block * v.block_size) left))
        ⊎ ((e : D) × (v.write d block count data_bytes ≡ (e, true))
            × (contents e ≡ splice (contents d) (block * v.block_size) data_bytes))

abbrev pub InsideOf {ℓ} : {D : Type ℓ} → Driver D → (offset len : ℕ) → Type 0
InsideOf v offset len = Inside v.block_size v.block_count offset len

-- A read of bytes inside a device of less than 4 GiB gives these bytes and moves the offset behind them. It
-- returns 0 and does nothing only when kmalloc has no room for the blocks or the driver does not read them.
pub read_op-slice {ℓ} :
    {D : Type ℓ} (v : Driver D) (contents : D → List ℕ) (has_room : ℕ → Bool) (d : D)
    (offset len : ℕ)
    → Stores v contents
    → InsideOf v offset len
    → (((has_room (num_blocks v.block_size offset len * v.block_size) ≡ false)
          ⊎ (v.read d (first_block v.block_size offset) (num_blocks v.block_size offset len)
              ≡ none))
        × (read_op v has_room d offset len ≡ returns v has_room d offset (pos 0)))
      ⊎ (read_op v has_room d offset len ≡ record {
        device = d;
        offset = offset + len;
        bytes = slice (contents d) offset len;
        returned = as_int len;
      })
unfolding read_op
read_op-slice v contents has_room d offset len stores inside =
    let bs = v.block_size in
    let num = num_blocks bs offset len in
    let some_bytes : (len == 0) ≡ false = ground (arith, inside.some_bytes) in
    let wrap = size-no_wrap inside in
    let whole : u32 (offset + len) ≡ offset + len = omega (arith, inside.ends, inside.small) in
    let same : slice (slice (contents d) (first_block bs offset * bs) (num * bs)) (offset % bs) len
        ≡ slice (contents d) offset len =
      slice-slice (contents d) (first_block bs offset * bs) (offset % bs) (num * bs) len
        (bytes_inside inside)
      ∙ ap (λ i. slice (contents d) i len) (start_lem inside) in
    elim (Bool-cases (has_room (num * bs))) [
      | inr full ↦ inl (inl full, rw (some_bytes, wrap, full) refl)
      | inl room ↦ elim (stores.reads d (first_block bs offset) num (blocks_inside inside)) [
        | inl failed ↦ inl (inr failed, rw (some_bytes, wrap, room, failed) refl)
        | inr read ↦ inr (rw (some_bytes, wrap, room, read, same, whole) refl)
      ]
    ]
