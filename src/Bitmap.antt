-- ===== src/Bitmap.antt =====
-- Bitmaps as arrays of bytes, one bit to an index: `map[i / 8]` and bit `i % 8`. The frame
-- allocator (kernel/arch/i386/memman/pmm/pmm.c) and the handle table
-- (kernel/kernel/handle/handle.c) keep one each.
use panuti.Base.{
  ℕ, zero, suc, ◌*◌, ◌/◌, ◌%◌, ◌<◌, ◌≡◌, Bool, true, false, List, [], ◌∷◌, arith, length, get_or,
  set, replicate, get_or-set, length-set, get_or-replicate, get_or_of_ge, ◌≤◌, ◌==◌, if◌then◌else◌,
  test_bit, set_bit, clear_bit, test_bit-set_bit, test_bit-clear_bit, set_bit-lt, clear_bit-lt,
  test_bit-zero,
}

unfoldable pub is_set : List ℕ → ℕ → Bool
is_set map i = test_bit (get_or map (i / 8) 0) (i % 8)

-- `map[i / 8] |= 1 << (i % 8)`
unfoldable pub mark : List ℕ → ℕ → List ℕ
mark map i = set map (i / 8) (set_bit (get_or map (i / 8) 0) (i % 8))

-- `map[i / 8] &= ~(1 << (i % 8))`
unfoldable pub unmark : List ℕ → ℕ → List ℕ
unmark map i = set map (i / 8) (clear_bit (get_or map (i / 8) 0) (i % 8))

abbrev pub IsBytes : List ℕ → Type 0
IsBytes [] = Unit {0}
IsBytes (b ∷ bs) = (b < 256) × IsBytes bs

pub get_or-IsBytes : (bs : List ℕ) (i : ℕ) → IsBytes bs → get_or bs i 0 < 256
get_or-IsBytes [] i h = omega arith
get_or-IsBytes (b ∷ bs) zero h = h.0
get_or-IsBytes (b ∷ bs) (suc i) h = get_or-IsBytes bs i h.1

set-IsBytes : (bs : List ℕ) (i v : ℕ) → IsBytes bs → v < 256 → IsBytes (set bs i v)
set-IsBytes [] i v h hv = tt
set-IsBytes (b ∷ bs) zero v h hv = (hv, h.1)
set-IsBytes (b ∷ bs) (suc i) v h hv = (h.0, set-IsBytes bs i v h.1 hv)

pub replicate-IsBytes : (n : ℕ) → IsBytes (replicate n 0)
replicate-IsBytes zero = tt
replicate-IsBytes (suc n) = (omega arith, replicate-IsBytes n)

pub mark-IsBytes : (map : List ℕ) (i : ℕ) → IsBytes map → IsBytes (mark map i)
unfolding mark
mark-IsBytes map i h =
    set-IsBytes map (i / 8) _ h (set_bit-lt _ _ (get_or-IsBytes map (i / 8) h) (omega arith))

pub unmark-IsBytes : (map : List ℕ) (i : ℕ) → IsBytes map → IsBytes (unmark map i)
unfolding unmark
unmark-IsBytes map i h =
    set-IsBytes map (i / 8) _ h (clear_bit-lt _ _ (get_or-IsBytes map (i / 8) h) (omega arith))

pub length-mark : (map : List ℕ) (i : ℕ) → length (mark map i) ≡ length map
unfolding mark
length-mark map i = length-set map _ _

pub length-unmark : (map : List ℕ) (i : ℕ) → length (unmark map i) ≡ length map
unfolding unmark
length-unmark map i = length-set map _ _

-- Every bit of a zeroed map is clear, and so is a bit out of range.
pub is_set-replicate : (n i : ℕ) → is_set (replicate n 0) i ≡ false
unfolding is_set
is_set-replicate n i =
    rw (get_or-replicate {A = ℕ} n (i / 8) 0) (test_bit-zero (i % 8) (omega arith))

pub is_set_of_ge : (map : List ℕ) (i : ℕ) → 8 * length map ≤ i → is_set map i ≡ false
unfolding is_set
is_set_of_ge map i h =
    rw (get_or_of_ge map (i / 8) 0 (omega arith)) (test_bit-zero (i % 8) (omega arith))

module _ (map : List ℕ) (i j : ℕ) (bytes : IsBytes map) (inside : i < 8 * length map) where
  -- What a test sees after a bit is set.
  pub is_set-mark : is_set (mark map i) j ≡ (if i == j then true else is_set map j)
  unfolding is_set mark
  is_set-mark = ground (
    arith,
    get_or-set map (i / 8) (j / 8) (set_bit (get_or map (i / 8) 0) (i % 8)) 0 (omega arith),
    test_bit-set_bit (get_or map (i / 8) 0) (i % 8) (j % 8) (get_or-IsBytes map (i / 8) bytes)
        (omega arith) (omega arith),
  )

  -- What a test sees after a bit is cleared.
  pub is_set-unmark : is_set (unmark map i) j ≡ (if i == j then false else is_set map j)
  unfolding is_set unmark
  is_set-unmark = ground (
    arith,
    get_or-set map (i / 8) (j / 8) (clear_bit (get_or map (i / 8) 0) (i % 8)) 0 (omega arith),
    test_bit-clear_bit (get_or map (i / 8) 0) (i % 8) (j % 8) (get_or-IsBytes map (i / 8) bytes)
        (omega arith) (omega arith),
  )
