-- ===== src/Base/Bits.antt =====
-- The bits of a byte, as C reads and writes them: `b & (1 << k)`, `b |= 1 << k`, `b &= ~(1 << k)`.
-- The laws hold of every byte and are checked on all of them.
use Prim.Native.Nat.{ℕ, zero, suc, ◌-◌, ◌^◌, ◌<◌, bit_and, bit_or}
use mathlib.Core.Path.{◌≡◌, refl}
use mathlib.Core.Logic.{◌≢◌, inl, inr}
use mathlib.Core.Bool.{Bool, true, false, not, ◌&&◌, ◌||◌, false≢true}
use native.Mathlib.Omega.{arith}
use panuti.Base.Tests.{◌==◌, if◌then◌else◌, ltb, ltb→lt, Bool-cases}

unfoldable pub test_bit : ℕ → ℕ → Bool
test_bit b k = not (bit_and b (2 ^ k) == 0)

unfoldable pub set_bit : ℕ → ℕ → ℕ
set_bit b k = bit_or b (2 ^ k)

-- `~(1 << k)` is taken at the width of `int`, and the byte keeps the low eight bits.
unfoldable pub clear_bit : ℕ → ℕ → ℕ
clear_bit b k = bit_and b (2 ^ 32 - 1 - 2 ^ k)

-- A test of every number below a bound.
every : (ℕ → Bool) → ℕ → Bool
every p zero = true
every p (suc n) = if p n then every p n else false

every_holds : (p : ℕ → Bool) (n : ℕ) → every p n ≡ true → (x : ℕ) → x < n → p x ≡ true
unfolding every
every_holds p zero h x lt = elim lt [ ]
every_holds p (suc n) h x lt =
    let rest : every p n ≡ true → x < n → p x ≡ true = λ q l. every_holds p n q x l in
    ground (arith, rest)

-- A table over a byte and two bit numbers.
all_bytes : (ℕ → ℕ → ℕ → Bool) → Bool
unfolding every
all_bytes p = every (λ b. every (λ k. every (λ j. p b k j) 8) 8) 256

all_bytes_sound :
    (p : ℕ → ℕ → ℕ → Bool) (b k j : ℕ)
    → all_bytes p ≡ true
    → b < 256
    → k < 8
    → j < 8
    → p b k j ≡ true
unfolding all_bytes
all_bytes_sound p b k j t hb hk hj =
    let row = every_holds (λ b. every (λ k. every (λ j. p b k j) 8) 8) 256 t b hb in
    every_holds (λ j. p b k j) 8 (every_holds (λ k. every (λ j. p b k j) 8) 8 row k hk) j hj

same : Bool → Bool → Bool
same true c = c
same false c = not c

same_sound : (a c : Bool) → same a c ≡ true → a ≡ c
unfolding same
same_sound a c h = ground arith

set_entry : ℕ → ℕ → ℕ → Bool
unfolding same test_bit set_bit
set_entry b k j =
    same (test_bit (set_bit b k) j) (if k == j then true else test_bit b j) && ltb (set_bit b k) 256

clear_entry : ℕ → ℕ → ℕ → Bool
unfolding same test_bit clear_bit
clear_entry b k j =
    same (test_bit (clear_bit b k) j) (if k == j then false else test_bit b j)
    && ltb (clear_bit b k) 256

set_table : all_bytes set_entry ≡ true
unfolding all_bytes set_entry
set_table = refl

clear_table : all_bytes clear_entry ≡ true
unfolding all_bytes clear_entry
clear_table = refl

and_left : (a c : Bool) → (a && c) ≡ true → a ≡ true
and_left a c h = ground arith

and_right : (a c : Bool) → (a && c) ≡ true → c ≡ true
and_right a c h = ground arith

set_entry_holds : (b k j : ℕ) → b < 256 → k < 8 → j < 8 → set_entry b k j ≡ true
set_entry_holds b k j hb hk hj = all_bytes_sound set_entry b k j set_table hb hk hj

clear_entry_holds : (b k j : ℕ) → b < 256 → k < 8 → j < 8 → clear_entry b k j ≡ true
clear_entry_holds b k j hb hk hj = all_bytes_sound clear_entry b k j clear_table hb hk hj

pub test_bit-set_bit :
    (b k j : ℕ)
    → b < 256
    → k < 8
    → j < 8
    → test_bit (set_bit b k) j ≡ (if k == j then true else test_bit b j)
unfolding set_entry
test_bit-set_bit b k j hb hk hj = same_sound _ _ (and_left _ _ (set_entry_holds b k j hb hk hj))

pub test_bit-clear_bit :
    (b k j : ℕ)
    → b < 256
    → k < 8
    → j < 8
    → test_bit (clear_bit b k) j ≡ (if k == j then false else test_bit b j)
unfolding clear_entry
test_bit-clear_bit b k j hb hk hj = same_sound _ _ (and_left _ _ (clear_entry_holds b k j hb hk hj))

pub set_bit-lt : (b k : ℕ) → b < 256 → k < 8 → set_bit b k < 256
unfolding set_entry
set_bit-lt b k hb hk = ltb→lt _ _ (and_right _ _ (set_entry_holds b k 0 hb hk (omega arith)))

pub clear_bit-lt : (b k : ℕ) → b < 256 → k < 8 → clear_bit b k < 256
unfolding clear_entry
clear_bit-lt b k hb hk = ltb→lt _ _ (and_right _ _ (clear_entry_holds b k 0 hb hk (omega arith)))

pub test_bit_full : (k : ℕ) → k < 8 → test_bit 0xFF k ≡ true
unfolding every test_bit
test_bit_full k h = every_holds (λ k. test_bit 0xFF k) 8 refl k h

pub test_bit-zero : (k : ℕ) → k < 8 → test_bit 0 k ≡ false
unfolding every test_bit same
test_bit-zero k h = same_sound _ _ (every_holds (λ k. same (test_bit 0 k) false) 8 refl k h)

-- A byte that is not zero has a bit set.
bit_found : ℕ → ℕ → Bool
unfolding test_bit
bit_found b zero = false
bit_found b (suc k) = test_bit b k || bit_found b k

bit_found_sound : (b n : ℕ) → bit_found b n ≡ true → (k : ℕ) × (k < n) × (test_bit b k ≡ true)
unfolding bit_found
bit_found_sound b zero h = absurd (false≢true h)
bit_found_sound b (suc n) h = elim (Bool-cases (test_bit b n)) [
  | inl t ↦ (n, omega arith, t)
  | inr f ↦ let (k, lt, t) = bit_found_sound b n (or_right _ _ f h) in (k, omega arith, t)
]
  where
    or_right : (a c : Bool) → a ≡ false → (a || c) ≡ true → c ≡ true
    or_right a c e h = ground arith

pub bit_of_ne_zero : (b : ℕ) → b < 256 → b ≢ 0 → (k : ℕ) × (k < 8) × (test_bit b k ≡ true)
unfolding every bit_found
bit_of_ne_zero b hb h =
    bit_found_sound b 8
      (ground (arith, every_holds (λ b. if b == 0 then true else bit_found b 8) 256 refl b hb))
