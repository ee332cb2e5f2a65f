-- ===== src/Block/Span.antt =====
-- The blocks that a read or a write touches, when it ends inside a device of less than 4 GiB.
use panuti.Base.{ℕ, ◌+◌, ◌-◌, ◌*◌, ◌/◌, ◌%◌, ◌^◌, ◌≤◌, ◌<◌, ◌≡◌, ap, arith}
use native.Mathlib.Nat.{
  lt-div-mul-add, div-lt_iff_lt-mul, mul-le-mul_right, div-add-mod, div-le_self, add-mul,
}
use panuti.Block.{u32, first_block, last_block, num_blocks}

-- A span of a device.
pub record Inside (bs count offset len : ℕ) : Type 0 where
  pub some_size : 0 < bs
  pub some_bytes : 0 < len
  pub ends : offset + len ≤ count * bs
  pub small : count * bs < 2 ^ 32

-- The blocks, when the sum of the offset and the length is one of 32 bits.
module _ {bs : ℕ} (offset len : ℕ) (some_size : 0 < bs) (some_bytes : 0 < len)
    (small : offset + len < 2 ^ 32) where
  last_lem : last_block bs offset len ≡ (offset + len - 1) / bs
  last_lem = ap (λ n. n / bs) (omega arith)

  first-le_last : offset / bs ≤ (offset + len - 1) / bs
  first-le_last =
      let l = (offset + len - 1) / bs in
      let below : offset + len - 1 < l * bs + bs = lt-div-mul-add some_size in
      let lt : offset / bs < l + 1 =
        (div-lt_iff_lt-mul some_size).1 (omega (arith, add-mul l 1 bs)) in
      omega arith

  pub num-small : first_block bs offset + num_blocks bs offset len ≡ (offset + len - 1) / bs + 1
  num-small =
      let le = first-le_last in
      let below : (offset + len - 1) / bs ≤ offset + len - 1 = div-le_self _ _ in
      rw last_lem (omega arith)

module _ {bs count offset len : ℕ} (s : Inside bs count offset len) where
  num_lem : first_block bs offset + num_blocks bs offset len ≡ (offset + len - 1) / bs + 1
  num_lem = num-small offset len s.some_size s.some_bytes (omega (arith, s.ends, s.small))

  pub blocks_inside : first_block bs offset + num_blocks bs offset len ≤ count
  blocks_inside =
      let lt : (offset + len - 1) / bs < count =
        (div-lt_iff_lt-mul s.some_size).1 (omega (arith, s.ends, s.some_bytes)) in
      omega (arith, num_lem)

  -- The bytes of the blocks.
  size_lem : offset / bs * bs + num_blocks bs offset len * bs ≡ (offset + len - 1) / bs * bs + bs
  size_lem =
      let l = (offset + len - 1) / bs in
      omega (
        arith,
        add-mul (offset / bs) (num_blocks bs offset len) bs,
        ap (λ n. n * bs) num_lem,
        add-mul l 1 bs,
      )

  pub start_lem : first_block bs offset * bs + offset % bs ≡ offset
  start_lem = omega (arith, div-add-mod offset bs)

  pub bytes_inside : offset % bs + len ≤ num_blocks bs offset len * bs
  bytes_inside =
      let below : offset + len - 1 < (offset + len - 1) / bs * bs + bs =
        lt-div-mul-add s.some_size in
      omega (arith, size_lem, start_lem, s.some_bytes)

  pub size_inside : first_block bs offset * bs + num_blocks bs offset len * bs ≤ count * bs
  size_inside =
      let le : (first_block bs offset + num_blocks bs offset len) * bs ≤ count * bs =
        mul-le-mul_right bs blocks_inside in
      omega (arith, add-mul (first_block bs offset) (num_blocks bs offset len) bs)

  pub size-no_wrap : u32 (num_blocks bs offset len * bs) ≡ num_blocks bs offset len * bs
  size-no_wrap = omega (arith, size_inside, s.small)
