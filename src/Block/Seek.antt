-- ===== src/Block/Seek.antt =====
-- `block_seek_op` against the place it is to reach.
use panuti.Base.{
  ℕ, zero, suc, ◌+◌, ◌-◌, ◌*◌, ◌%◌, ◌^◌, ◌≤◌, ◌<◌, ◌≡◌, refl, ap, ◌∙◌, Bool, Option, none, some,
  arith, min, ltb, if◌then◌else◌,
}
use panuti.Base.Int.{ℤ, pos, negsuc, ◌+ℤ◌}
use panuti.Block.{Driver, dev_size, int64_max, seek_to, seek_op}

-- The place `by` bytes from `base`, or the nearest one of the device.
abbrev pub place : (size base : ℕ) → (by : ℤ) → ℕ
place size base (pos n) = min size (base + n)
place size base (negsuc n) = min size (base - suc n)

-- The byte that `whence` names.
abbrev pub origin : (size offset whence : ℕ) → Option ℕ
origin size offset zero = some 0
origin size offset (suc zero) = some offset
origin size offset (suc (suc zero)) = some size
origin size offset (suc (suc (suc n))) = none

abbrev pub placed : (size : ℕ) → Option ℕ → ℤ → Option ℕ
placed size none by = none
placed size (some base) by = some (place size base by)

-- A 64-bit number.
abbrev pub IsInt64 : ℤ → Type 0
IsInt64 (pos n) = n < 2 ^ 63
IsInt64 (negsuc n) = n < 2 ^ 63

module _ {ℓ} {D : Type ℓ} (v : Driver D) (has_room : ℕ → Bool) where
  seek_to_lem :
      (base : ℕ) (by : ℤ)
      → v.block_count * v.block_size < 2 ^ 32
      → base ≤ v.block_count * v.block_size
      → IsInt64 by
      → seek_to v has_room base by ≡ place (v.block_count * v.block_size) base by
  unfolding ◌+ℤ◌
  seek_to_lem base (pos n) small le range = ground arith
  seek_to_lem base (negsuc n) small le range = ground arith

  end_base :
      v.block_count * v.block_size < 2 ^ 63
      → (if ltb (int64_max v has_room) (dev_size v has_room)
          then int64_max v has_room
          else dev_size v has_room)
        ≡ v.block_count * v.block_size
  end_base fits = ground arith

  -- A seek in a device of less than 4 GiB goes to the place that is asked for, counted from the start, the
  -- offset or the end of the device, and to the nearest place of the device when that is not in it; an unknown
  -- `whence` is an error.
  pub seek_op-placed :
      (offset whence : ℕ) (by : ℤ)
      → v.block_count * v.block_size < 2 ^ 32
      → offset ≤ v.block_count * v.block_size
      → IsInt64 by
      → seek_op v has_room offset whence by
        ≡ placed
            (v.block_count * v.block_size)
            (origin (v.block_count * v.block_size) offset whence)
            by
  unfolding seek_op
  seek_op-placed offset zero by small le range =
      ap some (seek_to_lem 0 by small (omega arith) range)
  seek_op-placed offset (suc zero) by small le range =
      ap some (seek_to_lem offset by small le range)
  seek_op-placed offset (suc (suc zero)) by small le range =
      ap (λ b. some (seek_to v has_room b by)) (end_base (omega arith))
      ∙ ap some (seek_to_lem (v.block_count * v.block_size) by small (omega arith) range)
  seek_op-placed offset (suc (suc (suc n))) by small le range = refl

  -- In a device of 4 GiB or more a seek to the end goes to the size modulo 4 GiB, which is not the end.
  pub seek_op-end_wraps :
      (offset : ℕ)
      → 2 ^ 32 ≤ v.block_count * v.block_size
      → v.block_count * v.block_size < 2 ^ 63
      → (seek_op v has_room offset 2 (pos 0) ≡ some ((v.block_count * v.block_size) % 2 ^ 32))
        × ((v.block_count * v.block_size) % 2 ^ 32 < v.block_count * v.block_size)
  unfolding seek_op
  seek_op-end_wraps offset big fits =
      let last : seek_to v has_room (v.block_count * v.block_size) (pos 0)
          ≡ (v.block_count * v.block_size) % 2 ^ 32 =
        ground arith in
      (ap (λ b. some (seek_to v has_room b (pos 0))) (end_base fits) ∙ ap some last, omega arith)
