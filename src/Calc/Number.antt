-- ===== src/Calc/Number.antt =====
-- Decimal numbers.
use panuti.Base.{
  ℕ, ◌+◌, ◌-◌, ◌*◌, ◌/◌, ◌≤◌, ◌≡◌, refl, true, false, List, [], ◌∷◌, ◌++◌, arith, ltb, leb,
  if◌then◌else◌, Bool-cases, inl, inr,
}
use panuti.Base.Int.{pos}
use panuti.Calc.{value, fails, overflow, long_max, char_at, is_digit, number_loop, number}

-- The number that digits write behind `v`.
abbrev pub decimal : List ℕ → ℕ → ℕ
decimal [] v = v
decimal (c ∷ cs) v = decimal cs (v * 10 + (c - 48))

abbrev pub AllDigits : List ℕ → Type 0
AllDigits [] = Unit {0}
AllDigits (c ∷ cs) = (is_digit c ≡ true) × AllDigits cs

decimal-ge : (cs : List ℕ) (v : ℕ) → v ≤ decimal cs v
decimal-ge [] v = omega arith
decimal-ge (c ∷ cs) v = omega (arith, decimal-ge cs (v * 10 + (c - 48)))

number_loop-decimal :
    (cs rest : List ℕ) (v : ℕ)
    → AllDigits cs
    → is_digit (char_at rest) ≡ false
    → v ≤ long_max
    → number_loop (cs ++ rest) v
      ≡ (if leb (decimal cs v) long_max then value (pos (decimal cs v)) rest else fails overflow)
unfolding number_loop
number_loop-decimal [] [] v d h le = let t : leb v long_max ≡ true = ground arith in rw t refl
number_loop-decimal [] (r ∷ rs) v d h le =
    let t : leb v long_max ≡ true = ground arith in rw (h, t) refl
number_loop-decimal (c ∷ cs) rest v d h le =
    elim (Bool-cases (ltb ((long_max - (c - 48)) / 10) v)) [
      | inl past ↦
          let t : leb (decimal cs (v * 10 + (c - 48))) long_max ≡ false =
            ground (arith, decimal-ge cs (v * 10 + (c - 48))) in
          rw (d.0, past, t) refl
      | inr within ↦
          rw (d.0, within)
            (number_loop-decimal cs rest (v * 10 + (c - 48)) d.1 h (ground (arith, d.0)))
    ]

-- A number of one or more digits, with no digit behind it, is read as its value if that fits the 31
-- bits of a positive `long`, and is refused as an overflow otherwise.
pub number-decimal :
    (c : ℕ) (cs rest : List ℕ)
    → AllDigits (c ∷ cs)
    → is_digit (char_at rest) ≡ false
    → number (c ∷ (cs ++ rest)) ≡ (
        if leb (decimal (c ∷ cs) 0) long_max
        then value (pos (decimal (c ∷ cs) 0)) rest
        else fails overflow)
unfolding number
number-decimal c cs rest d h = rw d.0 (number_loop-decimal (c ∷ cs) rest 0 d h (omega arith))
