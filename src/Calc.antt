-- ===== src/Calc.antt =====
-- The evaluator of the calculator, calc/src/eval.c. The text is the list of its bytes before the 0 at its end, which a
-- read past the list gives. An error ends every function that is running, and so it is a result; `no_fuel` is
-- a run that ends too early. `long` has 32 bits.
pub mod Number
pub mod Fits
pub mod Answers
mod Tests
use panuti.Base.{
  ℕ, zero, suc, ◌+◌, ◌-◌, ◌*◌, ◌/◌, ◌%◌, ◌^◌, Bool, true, false, not, ◌&&◌, List, [], ◌∷◌, drop,
  get_or, ◌==◌, ltb, leb, if◌then◌else◌,
}
use panuti.Base.Int.{ℤ, pos, negsuc, ◌+ℤ◌, ◌-ℤ◌, ◌*ℤ◌, sub_ℕ}

abbrev pub long_max : ℕ
long_max = 2 ^ 31 - 1

abbrev pub max_depth : ℕ
max_depth = 64

pub data Failure : Type 0 where
  syntax divzero overflow complex trailing no_fuel : Failure

-- A value with the rest of the text, or an error.
pub data Result : Type 0 where
  value : ℤ → List ℕ → Result
  fails : Failure → Result

abbrev pub char_at : List ℕ → ℕ
char_at [] = 0
char_at (c ∷ cs) = c

abbrev pub is_space : ℕ → Bool
is_space c = if c == 32 then true else if c == 9 then true else if c == 10 then true else c == 13

-- `skip_ws`
unfoldable pub skip_ws : List ℕ → List ℕ
skip_ws [] = []
skip_ws (c ∷ cs) = let rest = skip_ws cs in if is_space c then rest else c ∷ cs

abbrev pub is_digit : ℕ → Bool
is_digit c = leb 48 c && leb c 57

-- The loop of `parse_number`; `v` stays at most `long_max`.
unfoldable pub number_loop : List ℕ → ℕ → Result
number_loop [] v = value (pos v) []
number_loop (c ∷ cs) v =
    let d = c - 48 in
    let rest = number_loop cs (v * 10 + d) in
    if is_digit c
    then (if ltb ((long_max - d) / 10) v then fails overflow else rest)
    else value (pos v) (c ∷ cs)

-- `parse_number`
unfoldable pub number : List ℕ → Result
number cs = if is_digit (char_at cs) then number_loop cs 0 else fails syntax

-- A result that fits a `long`, as the `__builtin_*_overflow` functions tell.
unfoldable pub fits : ℤ → Bool
fits (pos n) = leb n long_max
fits (negsuc n) = leb n long_max

abbrev pub checked : ℤ → List ℕ → Result
checked v rest = if fits v then value v rest else fails overflow

-- Division of C, towards zero, by a number other than 0.
abbrev neg : ℕ → ℤ
neg n = sub_ℕ 0 n

unfoldable pub quotient : ℤ → ℤ → ℤ
quotient (pos a) (pos b) = pos (a / b)
quotient (pos a) (negsuc b) = neg (a / suc b)
quotient (negsuc a) (pos b) = neg (suc a / b)
quotient (negsuc a) (negsuc b) = pos (suc a / suc b)

unfoldable pub remainder : ℤ → ℤ → ℤ
remainder (pos a) (pos b) = pos (a % b)
remainder (pos a) (negsuc b) = pos (a % suc b)
remainder (negsuc a) (pos b) = neg (suc a % b)
remainder (negsuc a) (negsuc b) = neg (suc a % suc b)

abbrev pub is_zero : ℤ → Bool
is_zero (pos n) = n == 0
is_zero (negsuc n) = false

abbrev pub is_minus_one : ℤ → Bool
is_minus_one (pos n) = false
is_minus_one (negsuc n) = n == 0

abbrev pub is_long_min : ℤ → Bool
is_long_min (pos n) = false
is_long_min (negsuc n) = n == long_max

-- `v op rhs` of `parse_term`, with `op` one of '*', '/' and '%'.
unfoldable pub term_step : ℕ → ℤ → ℤ → List ℕ → Result
term_step op v rhs rest =
    if op == 42
    then checked (v *ℤ rhs) rest
    else if is_zero rhs
    then fails divzero
    else if is_minus_one rhs && is_long_min v
    then fails overflow
    else value (if op == 47 then quotient v rhs else remainder v rhs) rest

-- `v op rhs` of `parse_expr`, with `op` one of '+' and '-'.
unfoldable pub expr_step : ℕ → ℤ → ℤ → List ℕ → Result
expr_step op v rhs rest = checked (if op == 43 then v +ℤ rhs else v -ℤ rhs) rest

abbrev pub is_term_op : ℕ → Bool
is_term_op c = if c == 42 then true else if c == 47 then true else c == 37

abbrev pub is_expr_op : ℕ → Bool
is_expr_op c = if c == 43 then true else c == 45

abbrev pub after : Result → (ℤ → List ℕ → Result) → Result
after (value v rest) k = k v rest
after (fails e) k = fails e

abbrev pub close : ℤ → List ℕ → Result
close v cs =
    let rest = skip_ws cs in if char_at rest == 41 then value v (drop 1 rest) else fails syntax

abbrev pub negate : ℤ → List ℕ → Result
negate v rest = checked (pos 0 -ℤ v) rest

-- `parse_factor`, `parse_term` with its loop, and `parse_expr` with its loop, on fuel.
unfoldable mutual
  pub parse_factor : ℕ → (depth : ℕ) → List ℕ → Result
  parse_factor zero depth text = fails no_fuel
  parse_factor (suc fuel) depth text =
      let cs = skip_ws text in
      let c = char_at cs in
      let inner = parse_expr fuel (depth + 1) (drop 1 cs) in
      let signed = parse_factor fuel (depth + 1) (drop 1 cs) in
      if leb max_depth depth
      then fails complex
      else if c == 40
      then after inner close
      else if c == 45
      then after signed negate
      else if c == 43
      then signed
      else number cs

  pub parse_term : ℕ → (depth : ℕ) → List ℕ → Result
  parse_term zero depth text = fails no_fuel
  parse_term (suc fuel) depth text = after (parse_factor fuel depth text) (term_loop fuel depth)

  pub term_loop : ℕ → (depth : ℕ) → ℤ → List ℕ → Result
  term_loop zero depth v text = fails no_fuel
  term_loop (suc fuel) depth v text =
      let cs = skip_ws text in
      let c = char_at cs in
      let more =
        after (parse_factor fuel depth (drop 1 cs))
          (λ rhs rest. after (term_step c v rhs rest) (term_loop fuel depth)) in
      if is_term_op c then more else value v cs

  pub parse_expr : ℕ → (depth : ℕ) → List ℕ → Result
  parse_expr zero depth text = fails no_fuel
  parse_expr (suc fuel) depth text = after (parse_term fuel depth text) (expr_loop fuel depth)

  pub expr_loop : ℕ → (depth : ℕ) → ℤ → List ℕ → Result
  expr_loop zero depth v text = fails no_fuel
  expr_loop (suc fuel) depth v text =
      let cs = skip_ws text in
      let c = char_at cs in
      let more =
        after (parse_term fuel depth (drop 1 cs))
          (λ rhs rest. after (expr_step c v rhs rest) (expr_loop fuel depth)) in
      if is_expr_op c then more else value v cs

abbrev pub at_end : ℤ → List ℕ → Result
at_end v cs = let rest = skip_ws cs in if char_at rest == 0 then value v rest else fails trailing

-- `calc_eval` of a text that is not null.
unfoldable pub eval : ℕ → List ℕ → Result
eval fuel text = after (parse_expr fuel 0 text) at_end
