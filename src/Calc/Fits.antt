-- ===== src/Calc/Fits.antt =====
-- The steps of the evaluator: each one gives an error of the code or a value that fits a `long`.
use panuti.Base.{
  ℕ, zero, suc, ◌+◌, ◌-◌, ◌*◌, ◌/◌, ◌≤◌, ◌<◌, ◌≡◌, refl, inl, inr, Bool, true, false, ◌&&◌, List,
  [], ◌∷◌, arith, length, length-drop, ◌==◌, ltb, if◌then◌else◌, Bool-cases,
}
use panuti.Base.Int.{ℤ, pos, negsuc, ◌+ℤ◌, ◌-ℤ◌, ◌*ℤ◌}
use native.Mathlib.Nat.{div-le_self, mod-le, div-lt_self}
use panuti.Calc.{
  Failure, syntax, divzero, overflow, complex, trailing, no_fuel, Result, value, fails, long_max,
  char_at, skip_ws, is_digit, number_loop, number, fits, checked, quotient, remainder, is_zero,
  is_minus_one, is_long_min, term_step, expr_step, after, close,
}

abbrev pub IsReal : Failure → Type 0
IsReal syntax = Unit {0}
IsReal divzero = Unit {0}
IsReal overflow = Unit {0}
IsReal complex = Unit {0}
IsReal trailing = Unit {0}
IsReal no_fuel = ⊥

-- A value that fits, with at most `size` bytes left, or an error of the code.
pub data Answers (size : ℕ) : Result → Type 0 where
  answers :
      {v : ℤ} → {rest : List ℕ} → fits v ≡ true → length rest ≤ size → Answers size (value v rest)
  refuses : {e : Failure} → IsReal e → Answers size (fails e)

pub Answers-if :
    {size : ℕ} (b : Bool) {x y : Result}
    → (b ≡ true → Answers size x)
    → (b ≡ false → Answers size y)
    → Answers size (if b then x else y)
Answers-if true f g = f refl
Answers-if false f g = g refl

pub Answers-after :
    {size less : ℕ} {r : Result} {k : ℤ → List ℕ → Result}
    → Answers less r
    → ((v : ℤ) (rest : List ℕ) → fits v ≡ true → length rest ≤ less → Answers size (k v rest))
    → Answers size (after r k)
Answers-after (answers {v} {rest} ok le) next = next v rest ok le
Answers-after (refuses real) next = refuses real

pub Answers-le : {less size : ℕ} {r : Result} → less ≤ size → Answers less r → Answers size r
Answers-le le (answers ok le') = answers ok (omega arith)
Answers-le le (refuses real) = refuses real

pub length-skip_ws : (cs : List ℕ) → length (skip_ws cs) ≤ length cs
unfolding skip_ws
length-skip_ws [] = omega arith
length-skip_ws (c ∷ cs) = ground (arith, length-skip_ws cs)

-- Only the 0 is read at the end of a text.
pub some_left : (cs : List ℕ) (c : ℕ) → 0 < c → (char_at cs == c) ≡ true → 0 < length cs
some_left [] c lt e = absurd (ground arith)
some_left (d ∷ cs) c lt e = omega arith

number_loop-Answers : (cs : List ℕ) (v : ℕ) → v ≤ long_max → Answers (length cs) (number_loop cs v)
unfolding number_loop fits
number_loop-Answers [] v small = answers (ground arith) (omega arith)
number_loop-Answers (c ∷ cs) v small =
    Answers-if (is_digit c)
      (λ digit.
        Answers-if (ltb ((long_max - (c - 48)) / 10) v) (λ e. refuses tt)
          (λ e.
            Answers-le (omega arith) (number_loop-Answers cs (v * 10 + (c - 48)) (ground arith))))
      (λ e. answers (ground arith) (omega arith))

pub checked-Answers : (v : ℤ) (rest : List ℕ) → Answers (length rest) (checked v rest)
checked-Answers v rest = Answers-if (fits v) (λ e. answers e (omega arith)) (λ e. refuses tt)

quotient-fits :
    (v w : ℤ)
    → fits v ≡ true
    → is_zero w ≡ false
    → (is_minus_one w && is_long_min v) ≡ false
    → fits (quotient v w) ≡ true
unfolding quotient fits
quotient-fits (pos a) (pos b) ok some_w safe = ground (arith, div-le_self a b)
quotient-fits (pos a) (negsuc b) ok some_w safe = ground (arith, div-le_self a (suc b))
quotient-fits (negsuc a) (pos b) ok some_w safe = ground (arith, div-le_self (suc a) b)
quotient-fits (negsuc a) (negsuc zero) ok some_w safe = ground (arith, div-le_self (suc a) 1)
quotient-fits (negsuc a) (negsuc (suc b)) ok some_w safe =
    let less : suc a / suc (suc b) < suc a = div-lt_self (omega arith) (omega arith) in ground arith

remainder-fits : (v w : ℤ) → fits v ≡ true → fits (remainder v w) ≡ true
unfolding remainder fits
remainder-fits (pos a) (pos b) ok = ground (arith, mod-le a b)
remainder-fits (pos a) (negsuc b) ok = ground (arith, mod-le a (suc b))
remainder-fits (negsuc a) (pos b) ok = ground (arith, mod-le (suc a) b)
remainder-fits (negsuc a) (negsuc b) ok = ground (arith, mod-le (suc a) (suc b))

pub term_step-Answers :
    (op : ℕ) (v w : ℤ) (rest : List ℕ)
    → fits v ≡ true
    → fits w ≡ true
    → Answers (length rest) (term_step op v w rest)
unfolding term_step
term_step-Answers op v w rest ok ok' =
    Answers-if (op == 42) (λ e. checked-Answers (v *ℤ w) rest)
      (λ e.
        Answers-if (is_zero w) (λ e. refuses tt)
          (λ some_w.
            Answers-if (is_minus_one w && is_long_min v) (λ e. refuses tt)
              (λ safe.
                answers
                  (elim (Bool-cases (op == 47)) [
                    | inl divide ↦ rw divide (quotient-fits v w ok some_w safe)
                    | inr other ↦ rw other (remainder-fits v w ok)
                  ])
                  (omega arith))))

pub expr_step-Answers :
    (op : ℕ) (v w : ℤ) (rest : List ℕ) → Answers (length rest) (expr_step op v w rest)
unfolding expr_step
expr_step-Answers op v w rest = checked-Answers (if op == 43 then v +ℤ w else v -ℤ w) rest

pub number-Answers : (cs : List ℕ) → Answers (length cs - 1) (number cs)
unfolding number number_loop
number-Answers [] = refuses tt
number-Answers (c ∷ cs) =
    Answers-if (is_digit c)
      (λ digit.
        Answers-if (is_digit c)
          (λ e.
            Answers-if (ltb ((long_max - (c - 48)) / 10) 0) (λ e. refuses tt)
              (λ e.
                Answers-le (omega arith)
                  (number_loop-Answers cs (0 * 10 + (c - 48)) (ground arith))))
          (λ e. absurd cc))
      (λ e. refuses tt)

pub close-Answers : (v : ℤ) (cs : List ℕ) → fits v ≡ true → Answers (length cs) (close v cs)
close-Answers v cs ok =
    Answers-if (char_at (skip_ws cs) == 41)
      (λ e. answers ok (omega (arith, length-skip_ws cs, length-drop 1 (skip_ws cs))))
      (λ e. refuses tt)
