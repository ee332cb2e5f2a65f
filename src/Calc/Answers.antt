-- ===== src/Calc/Answers.antt =====
-- The evaluator answers: with enough fuel it ends with an error of the code or a value that fits.
use panuti.Base.{
  ℕ, zero, suc, ◌+◌, ◌-◌, ◌*◌, ◌<◌, ◌≡◌, true, List, [], ◌∷◌, arith, length, length-drop, drop,
  ◌==◌, leb,
}
use panuti.Base.Int.{ℤ, pos, ◌-ℤ◌}
use panuti.Calc.{
  max_depth, char_at, skip_ws, fits, is_term_op, is_expr_op, parse_factor, parse_term, term_loop,
  parse_expr, expr_loop, eval,
}
use panuti.Calc.Fits.{
  Answers, answers, refuses, Answers-if, Answers-after, Answers-le, length-skip_ws, some_left,
  checked-Answers, term_step-Answers, expr_step-Answers, number-Answers, close-Answers,
}

-- What holds of the five functions with that fuel, in terms of the bytes that are left.
record AnswersAt (fuel : ℕ) : Type 0 where
  of_factor :
      (depth : ℕ) (text : List ℕ)
      → 4 * length text < fuel
      → Answers (length text - 1) (parse_factor fuel depth text)
  of_term :
      (depth : ℕ) (text : List ℕ)
      → 4 * length text + 1 < fuel
      → Answers (length text - 1) (parse_term fuel depth text)
  of_term_loop :
      (depth : ℕ) (v : ℤ) (text : List ℕ)
      → fits v ≡ true
      → 4 * length text < fuel
      → Answers (length text) (term_loop fuel depth v text)
  of_expr :
      (depth : ℕ) (text : List ℕ)
      → 4 * length text + 2 < fuel
      → Answers (length text - 1) (parse_expr fuel depth text)
  of_expr_loop :
      (depth : ℕ) (v : ℤ) (text : List ℕ)
      → fits v ≡ true
      → 4 * length text < fuel
      → Answers (length text) (expr_loop fuel depth v text)

factor-next :
    (fuel : ℕ)
    → AnswersAt fuel
    → (depth : ℕ) (text : List ℕ) → 4 * length text < suc fuel
    → Answers (length text - 1) (parse_factor (suc fuel) depth text)
unfolding parse_factor
factor-next fuel ih depth text enough =
    let cs = skip_ws text in
    let le = length-skip_ws text in
    let size = length-drop 1 cs in
    Answers-if (leb max_depth depth) (λ e. refuses tt)
      (λ e.
        Answers-if (char_at cs == 40)
          (λ bracket.
            let some_byte = some_left cs 40 (omega arith) bracket in
            Answers-after (ih.of_expr (depth + 1) (drop 1 cs) (omega arith))
              (λ v rest ok le'. Answers-le (omega arith) (close-Answers v rest ok)))
          (λ e.
            Answers-if (char_at cs == 45)
              (λ minus.
                let some_byte = some_left cs 45 (omega arith) minus in
                Answers-after (ih.of_factor (depth + 1) (drop 1 cs) (omega arith))
                  (λ v rest ok le'. Answers-le (omega arith) (checked-Answers (pos 0 -ℤ v) rest)))
              (λ e.
                Answers-if (char_at cs == 43)
                  (λ plus.
                    let some_byte = some_left cs 43 (omega arith) plus in
                    Answers-le (omega arith) (ih.of_factor (depth + 1) (drop 1 cs) (omega arith)))
                  (λ e. Answers-le (omega arith) (number-Answers cs)))))

-- An operator of a loop has a byte of its own.
term_op-some_left : (cs : List ℕ) → is_term_op (char_at cs) ≡ true → 0 < length cs
term_op-some_left [] e = absurd (ground arith)
term_op-some_left (c ∷ cs) e = omega arith

expr_op-some_left : (cs : List ℕ) → is_expr_op (char_at cs) ≡ true → 0 < length cs
expr_op-some_left [] e = absurd (ground arith)
expr_op-some_left (c ∷ cs) e = omega arith

term_loop-next :
    (fuel : ℕ)
    → AnswersAt fuel
    → (depth : ℕ) (v : ℤ) (text : List ℕ) → fits v ≡ true
    → 4 * length text < suc fuel
    → Answers (length text) (term_loop (suc fuel) depth v text)
unfolding term_loop
term_loop-next fuel ih depth v text ok enough =
    let cs = skip_ws text in
    let le = length-skip_ws text in
    let size = length-drop 1 cs in
    Answers-if (is_term_op (char_at cs))
      (λ op.
        let some_byte = term_op-some_left cs op in
        Answers-after (ih.of_factor depth (drop 1 cs) (omega arith)) (λ w rest ok' le'.
          Answers-after (term_step-Answers (char_at cs) v w rest ok ok') (λ u rest' ok'' le''.
            Answers-le (omega arith) (ih.of_term_loop depth u rest' ok'' (omega arith)))))
      (λ e. answers ok (omega arith))

expr_loop-next :
    (fuel : ℕ)
    → AnswersAt fuel
    → (depth : ℕ) (v : ℤ) (text : List ℕ) → fits v ≡ true
    → 4 * length text < suc fuel
    → Answers (length text) (expr_loop (suc fuel) depth v text)
unfolding expr_loop
expr_loop-next fuel ih depth v text ok enough =
    let cs = skip_ws text in
    let le = length-skip_ws text in
    let size = length-drop 1 cs in
    Answers-if (is_expr_op (char_at cs))
      (λ op.
        let some_byte = expr_op-some_left cs op in
        Answers-after (ih.of_term depth (drop 1 cs) (omega arith)) (λ w rest ok' le'.
          Answers-after (expr_step-Answers (char_at cs) v w rest) (λ u rest' ok'' le''.
            Answers-le (omega arith) (ih.of_expr_loop depth u rest' ok'' (omega arith)))))
      (λ e. answers ok (omega arith))

term-next :
    (fuel : ℕ)
    → AnswersAt fuel
    → (depth : ℕ) (text : List ℕ) → 4 * length text + 1 < suc fuel
    → Answers (length text - 1) (parse_term (suc fuel) depth text)
unfolding parse_term
term-next fuel ih depth text enough =
    Answers-after (ih.of_factor depth text (omega arith))
      (λ v rest ok le. Answers-le le (ih.of_term_loop depth v rest ok (omega arith)))

expr-next :
    (fuel : ℕ)
    → AnswersAt fuel
    → (depth : ℕ) (text : List ℕ) → 4 * length text + 2 < suc fuel
    → Answers (length text - 1) (parse_expr (suc fuel) depth text)
unfolding parse_expr
expr-next fuel ih depth text enough =
    Answers-after (ih.of_term depth text (omega arith))
      (λ v rest ok le. Answers-le le (ih.of_expr_loop depth v rest ok (omega arith)))

all_answer : (fuel : ℕ) → AnswersAt fuel
all_answer zero = record {
  of_factor = λ depth text enough. absurd (omega arith);
  of_term = λ depth text enough. absurd (omega arith);
  of_term_loop = λ depth v text ok enough. absurd (omega arith);
  of_expr = λ depth text enough. absurd (omega arith);
  of_expr_loop = λ depth v text ok enough. absurd (omega arith);
}
all_answer (suc fuel) =
    let ih = all_answer fuel in
    record {
      of_factor = factor-next fuel ih;
      of_term = term-next fuel ih;
      of_term_loop = term_loop-next fuel ih;
      of_expr = expr-next fuel ih;
      of_expr_loop = expr_loop-next fuel ih;
    }

-- `calc_eval` ends on every text: with fuel for four calls for each byte it answers a value, which fits a `long`, or
-- one of the errors of the code.
pub eval-Answers :
    (fuel : ℕ) (text : List ℕ) → 4 * length text + 2 < fuel → Answers (length text) (eval fuel text)
unfolding eval
eval-Answers fuel text enough =
    Answers-after ((all_answer fuel).of_expr 0 text enough) (λ v rest ok le.
      Answers-if (char_at (skip_ws rest) == 0)
        (λ e. answers ok (omega (arith, length-skip_ws rest))) (λ e. refuses tt))
