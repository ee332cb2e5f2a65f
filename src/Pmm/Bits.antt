-- ===== src/Pmm/Bits.antt =====
-- The invariant of the frame allocator, and what the bit operations do under it.
use panuti.Base.{ℕ, ◌*◌, ◌≤◌, ◌^◌, ◌≡◌, Bool, false, arith, length, ◌==◌, if◌then◌else◌, ltb}
use panuti.Bitmap.{
  is_set, IsBytes, mark-IsBytes, unmark-IsBytes, length-mark, length-unmark, is_set-mark,
  is_set-unmark,
}
use panuti.Pmm.{Pmm, clrp, setp}

-- The bitmap holds a bit for each frame, and there are at most 2 ^ 20 frames.
pub record IsSized (p : Pmm) : Type 0 where
  pub bytes : IsBytes p.bitmap
  pub covers : p.bitmap_frames ≤ 8 * length p.bitmap
  pub nameable : p.bitmap_frames ≤ 2 ^ 20

-- Frame 0 is reserved as well.
pub record IsValid (p : Pmm) : Type 0 where
  pub sized : IsSized p
  pub zero_used : is_set p.bitmap 0 ≡ false

-- The frames that an allocation may return.
abbrev pub is_free : Pmm → ℕ → Bool
is_free p page = if ltb page p.bitmap_frames then is_set p.bitmap page else false

module _ (p : Pmm) (page : ℕ) (sized : IsSized p) where
  pub setp-IsSized : IsSized (setp p page)
  unfolding setp
  setp-IsSized =
      ground (arith, sized.bytes, unmark-IsBytes p.bitmap page, length-unmark p.bitmap page)

  pub clrp-IsSized : IsSized (clrp p page)
  unfolding clrp
  clrp-IsSized = ground (arith, mark-IsBytes p.bitmap page, length-mark p.bitmap page)

  pub is_free-setp : (j : ℕ) → is_free (setp p page) j ≡ (if page == j then false else is_free p j)
  unfolding setp
  is_free-setp j = ground (arith, is_set-unmark p.bitmap page j)

  pub is_free-clrp :
      (j : ℕ) → is_free (clrp p page) j ≡ (if page == j then ltb j p.bitmap_frames else is_free p j)
  unfolding clrp
  is_free-clrp j = ground (arith, is_set-mark p.bitmap page j)

pub bitmap_frames-setp : (p : Pmm) (page : ℕ) → (setp p page).bitmap_frames ≡ p.bitmap_frames
unfolding setp
bitmap_frames-setp p page = ground arith

pub bitmap_frames-clrp : (p : Pmm) (page : ℕ) → (clrp p page).bitmap_frames ≡ p.bitmap_frames
unfolding clrp
bitmap_frames-clrp p page = ground arith
