-- ===== src/Block/Write.antt =====
-- `block_write_op` against the contents of the device.
use panuti.Base.{
  ℕ, ◌+◌, ◌-◌, ◌*◌, ◌/◌, ◌%◌, ◌^◌, ◌≤◌, ◌<◌, ◌≡◌, refl, ap, ◌∙◌, ◌⊎◌, inl, inr, Bool, true, false,
  not, ◌||◌, List, none, some, arith, length, length-replicate, replicate, [], ltb, ◌==◌,
  Bool-cases,
}
use panuti.Base.Int.{pos, negsuc, pos_part}
use native.Mathlib.Nat.{div-lt_iff_lt-mul}
use panuti.Block.{
  as_int, u32, slice, splice, Driver, first_block, num_blocks, returns, old_blocks, write_blocks,
  write_op, read_op,
}
use panuti.Block.Bytes.{length-splice, splice-part, splice-whole, length-slice, slice-splice}
use panuti.Block.Span.{blocks_inside, num-small, start_lem, bytes_inside, size_inside, size-no_wrap}
use panuti.Block.Read.{Stores, InsideOf, read_op-slice}

module _ {ℓ} {D : Type ℓ} (v : Driver D) (contents : D → List ℕ) (has_room : ℕ → Bool) (d : D)
    (offset : ℕ) (buf : List ℕ) (stores : Stores v contents)
    (inside : InsideOf v offset (length buf)) where
  abbrev num : ℕ
  num = num_blocks v.block_size offset (length buf)

  abbrev first : ℕ
  first = first_block v.block_size offset

  -- Blocks that the copy turns into what the device should have there.
  abbrev CanChange : List ℕ → Type 0
  CanChange tmp =
      (length tmp ≡ num * v.block_size)
      × (splice (contents d) (first * v.block_size) (splice tmp (offset % v.block_size) buf)
          ≡ splice (contents d) offset buf)

  old_blocks-CanChange :
      ((v.read d first num ≡ none) × (old_blocks v has_room d offset (length buf) ≡ none))
      ⊎ ((tmp : List ℕ) × (old_blocks v has_room d offset (length buf) ≡ some tmp) × CanChange tmp)
  old_blocks-CanChange =
      let bs = v.block_size in
      let wrap = size-no_wrap inside in
      let start = start_lem inside in
      let fits = bytes_inside inside in
      elim (Bool-cases (not (offset % bs == 0) || ltb (length buf) (num * bs))) [
        | inl part ↦ elim (stores.reads d first num (blocks_inside inside)) [
          | inl failed ↦ inl (failed, rw (wrap, part) failed)
          | inr read ↦ inr (
            slice (contents d) (first * bs) (num * bs),
            rw (wrap, part) read,
            (
              length-slice (contents d) (first * bs) (num * bs)
                  (omega (arith, stores.size d, size_inside inside)),
              splice-part (contents d) (first * bs) (offset % bs) (num * bs) buf fits
                  ∙ ap (λ i. splice (contents d) i buf) start,
            ),
          )
        ]
        | inr whole ↦
            let zero_off : offset % bs ≡ 0 = ground arith in
            let all : length buf ≡ num * bs = ground arith in
            let begin : first * bs ≡ offset = omega arith in
            inr (
              replicate (num * bs) 0,
              rw (wrap, whole) refl,
              (
                length-replicate (num * bs) 0,
                rw (zero_off, begin)
                    (ap (splice (contents d) offset) (
                      splice-whole (replicate (num * bs) 0) buf (num * bs)
                        (length-replicate (num * bs) 0) all)),
              ),
            )
      ]

  -- A write of bytes inside a device of less than 4 GiB, whose driver can write, copies them over the bytes at the
  -- offset, leaves all other bytes of the device alone and moves the offset behind them. It returns 0 and does
  -- nothing only when kmalloc has no room for the blocks or the driver does not read them. When the driver
  -- fails to write the blocks that have the bytes in them, it returns 0 and keeps the offset; the blocks
  -- that the bytes touch may then hold anything, and all others are as they were.
  pub write_op-splice :
      v.has_write ≡ true
      → (((has_room (num * v.block_size) ≡ false) ⊎ (v.read d first num ≡ none))
          × (write_op v has_room d offset buf ≡ returns v has_room d offset (pos 0)))
        ⊎ ((e : D) × (new : List ℕ) × (left : List ℕ) × (v.write d first num new ≡ (e, false))
            × (splice (contents d) (first * v.block_size) new ≡ splice (contents d) offset buf)
            × (length left ≡ num * v.block_size)
            × (contents e ≡ splice (contents d) (first * v.block_size) left)
            × (write_op v has_room d offset buf ≡ returns v has_room e offset (pos 0)))
        ⊎ ((e : D) × (write_op v has_room d offset buf ≡ record {
          device = e;
          offset = offset + length buf;
          bytes = [];
          returned = as_int (length buf);
        })
            × (contents e ≡ splice (contents d) offset buf))
  unfolding write_op
  write_op-splice can_write =
      let bs = v.block_size in
      let some_bytes : (length buf == 0) ≡ false = ground (arith, inside.some_bytes) in
      let fits : ltb v.block_count (first + num) ≡ false = ground (arith, blocks_inside inside) in
      let wrap = size-no_wrap inside in
      let moved : u32 (offset + length buf) ≡ offset + length buf =
        omega (arith, inside.ends, inside.small) in
      elim (Bool-cases (has_room (num * bs))) [
        | inr full ↦ inl (inl full, rw (some_bytes, can_write, fits, wrap, full) refl)
        | inl room ↦
            let reach : write_op v has_room d offset buf
                ≡ write_blocks v has_room d offset buf
                    (old_blocks v has_room d offset (length buf)) =
              rw (some_bytes, can_write, fits, wrap, room) refl in
            elim old_blocks-CanChange [
              | inl (failed, same) ↦ inl (inr failed, reach ∙ rw same refl)
              | inr (tmp, same, can_change) ↦
                  let new = splice tmp (offset % bs) buf in
                  let size : length new ≡ num * bs =
                    length-splice tmp (offset % bs) buf ∙ can_change.0 in
                  elim (stores.writes d first num new (blocks_inside inside) size) [
                    | inl (e, left, failed, whole, stored) ↦ inr (
                        inl (
                          e,
                          new,
                          left,
                          failed,
                          can_change.1,
                          whole,
                          stored,
                          reach ∙ rw same (rw (failed, write_blocks) refl),
                        ))
                    | inr (e, wrote, stored) ↦ inr (
                        inr (
                          e,
                          reach ∙ rw same (rw (wrote, write_blocks) (rw moved refl)),
                          stored ∙ can_change.1,
                        ))
                  ]
            ]
      ]

-- A write that ends behind the device, below 4 GiB, is refused and does nothing.
pub write_op-refuses {ℓ} :
    {D : Type ℓ} (v : Driver D) (has_room : ℕ → Bool) (d : D) (offset : ℕ) (buf : List ℕ)
    → 0 < v.block_size
    → v.block_count * v.block_size < offset + length buf
    → offset ≤ v.block_count * v.block_size
    → offset + length buf < 2 ^ 32
    → write_op v has_room d offset buf ≡ returns v has_room d offset (negsuc 0)
unfolding write_op
write_op-refuses v has_room d offset buf some_size behind start small =
    let bs = v.block_size in
    let len = length buf in
    let some_bytes : 0 < len = omega arith in
    let counted : (len == 0) ≡ false = ground arith in
    let sum = num-small offset len some_size some_bytes small in
    let past : v.block_count ≤ (offset + len - 1) / bs =
      elim (Bool-cases (ltb ((offset + len - 1) / bs) v.block_count)) [
        | inl lt ↦
            let inside : offset + len - 1 < v.block_count * bs =
              (div-lt_iff_lt-mul some_size).0 (ground arith) in
            absurd (omega arith)
        | inr ge ↦ ground arith
      ] in
    let refused : ltb v.block_count (first_block bs offset + num_blocks bs offset len) ≡ true =
      ground arith in
    elim (Bool-cases v.has_write) [
      | inl can ↦ rw (counted, can, refused) refl
      | inr cannot ↦ rw (counted, cannot) refl
    ]

-- A result of bytes is not 0.
some_returned : (n : ℕ) → 0 < n → pos 0 ≡ as_int n → ⊥
some_returned n some_bytes e = elim (Bool-cases (ltb n (2 ^ 31))) [
  | inl small ↦
      let nothing : pos 0 ≡ pos n = rw small at e in absurd (omega (arith, ap pos_part nothing))
  | inr large ↦ let below : pos 0 ≡ negsuc (2 ^ 32 - 1 - n) = rw large at e in absurd cc
]

-- What a write of bytes has put into a device, a read at the same offset gives back, when the device is of less than
-- 4 GiB and neither returns an error.
pub write_op-read_op {ℓ} :
    {D : Type ℓ} (v : Driver D) (contents : D → List ℕ) (has_room : ℕ → Bool) (d : D) (offset : ℕ)
    (buf : List ℕ)
    → Stores v contents
    → InsideOf v offset (length buf)
    → v.has_write ≡ true
    → (write_op v has_room d offset buf).returned ≡ as_int (length buf)
    → (read_op v has_room (write_op v has_room d offset buf).device offset (length buf)).returned
      ≡ as_int (length buf)
    → (read_op v has_room (write_op v has_room d offset buf).device offset (length buf)).bytes ≡ buf
write_op-read_op v contents has_room d offset buf stores inside can_write wrote read =
    elim (write_op-splice v contents has_room d offset buf stores inside can_write) [
      | inl (why, same) ↦
          let nothing : pos 0 ≡ as_int (length buf) = rw same at wrote in
          absurd (some_returned (length buf) inside.some_bytes nothing)
      | inr (inl (e, new, left, failed, spliced, whole, stored, same)) ↦
          let nothing : pos 0 ≡ as_int (length buf) = rw same at wrote in
          absurd (some_returned (length buf) inside.some_bytes nothing)
      | inr (inr (e, done, stored)) ↦
          let back : (read_op v has_room e offset (length buf)).returned ≡ as_int (length buf) =
            rw done at read in
          rw done (elim (read_op-slice v contents has_room e offset (length buf) stores inside) [
            | inl (why, same) ↦
                let nothing : pos 0 ≡ as_int (length buf) = rw same at back in
                absurd (some_returned (length buf) inside.some_bytes nothing)
            | inr same ↦
                rw (same, stored)
                  (slice-splice (contents d) offset buf (omega (arith, stores.size d, inside.ends)))
          ])
    ]
