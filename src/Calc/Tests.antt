-- ===== src/Calc/Tests.antt =====
-- Some texts.
use panuti.Base.{arith, ◌≡◌, refl, [], ◌∷◌}
use panuti.Base.Int.{pos, negsuc, ◌+ℤ◌, ◌-ℤ◌, ◌*ℤ◌}
use panuti.Calc.{
  value, fails, divzero, skip_ws, number_loop, number, fits, quotient, term_step, expr_step,
  parse_factor, eval,
}
use panuti.Calc.Fits.{Answers}
use panuti.Calc.Answers.{eval-Answers}

-- "2+3*4"
precedence : eval 30 (50 ∷ 43 ∷ 51 ∷ 42 ∷ 52 ∷ []) ≡ value (pos 14) []
unfolding eval parse_factor skip_ws number number_loop term_step expr_step fits ◌+ℤ◌ ◌*ℤ◌
precedence = refl

-- "-7/2"
towards_zero : eval 30 (45 ∷ 55 ∷ 47 ∷ 50 ∷ []) ≡ value (negsuc 2) []
unfolding eval parse_factor skip_ws number number_loop term_step expr_step fits quotient ◌-ℤ◌
towards_zero = refl

-- "1/0"
by_zero : eval 30 (49 ∷ 47 ∷ 48 ∷ []) ≡ fails divzero
unfolding eval parse_factor skip_ws number number_loop term_step expr_step fits
by_zero = refl

eval-Answers_example : Answers 5 (eval 30 (50 ∷ 43 ∷ 51 ∷ 42 ∷ 52 ∷ []))
eval-Answers_example = eval-Answers 30 (50 ∷ 43 ∷ 51 ∷ 42 ∷ 52 ∷ []) (omega arith)
