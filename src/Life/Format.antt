-- ===== src/Life/Format.antt =====
-- The size of what is parsed and of what is formatted.
use panuti.Base.{
  ℕ, zero, suc, ◌+◌, ◌*◌, ◌≡◌, refl, ◌∙◌, Bool, true, false, List, [], ◌∷◌, arith, length,
  length-append, length-set, length-replicate, set, replicate, ltb, leb, ◌==◌, if◌then◌else◌,
}
use panuti.Life.{
  life_w, life_h, life_cells, is_alive, bit, parse_loop, parse, format_row, format_rows, format,
}

abbrev Sized : List ℕ → List ℕ → Type 0
Sized board result = length result ≡ length board

Sized-if :
    (board : List ℕ) (b : Bool) (x y : List ℕ)
    → Sized board x
    → Sized board y
    → Sized board (if b then x else y)
Sized-if board true x y p q = p
Sized-if board false x y p q = q

parse_loop-Sized : (cs : List ℕ) (x y : ℕ) (board : List ℕ) → Sized board (parse_loop cs x y board)
unfolding parse_loop
parse_loop-Sized [] x y board = refl
parse_loop-Sized (c ∷ cs) x y board =
    let written =
      if ltb y life_h
      then (if ltb x life_w then set board (y * life_w + x) (bit (is_alive c)) else board)
      else board in
    let same_size : Sized board written =
      Sized-if board (ltb y life_h) _ _
        (Sized-if board (ltb x life_w) _ _ (length-set board (y * life_w + x) (bit (is_alive c)))
          refl)
        refl in
    Sized-if board (c == 13) _ _ (parse_loop-Sized cs x y board) (
      Sized-if board (c == 10) _ _
        (Sized-if board (leb life_h (y + 1)) _ _ refl (parse_loop-Sized cs 0 (y + 1) board))
        (parse_loop-Sized cs (x + 1) y written ∙ same_size))

length-format_row : (board : List ℕ) (n i : ℕ) → length (format_row board n i) ≡ n + 1
unfolding format_row
length-format_row board zero i = refl
length-format_row board (suc n) i = omega (arith, length-format_row board n (i + 1))

length-format_rows : (board : List ℕ) (n y : ℕ) → length (format_rows board n y) ≡ n * (life_w + 1)
unfolding format_rows
length-format_rows board zero y = refl
length-format_rows board (suc n) y = omega (
  arith,
  length-append (format_row board life_w (y * life_w)) (format_rows board n (y + 1)),
  length-format_row board life_w (y * life_w),
  length-format_rows board n (y + 1),
)

-- Whatever text is parsed, it gives a whole board of 1920 cells; whatever board is formatted, it gives 24
-- lines of 81 bytes.
pub length-parse_and_format :
    (text board : List ℕ)
    → (length (parse text) ≡ life_cells) × (length (format board) ≡ life_h * (life_w + 1))
unfolding parse format
length-parse_and_format text board = (
  parse_loop-Sized text 0 0 (replicate life_cells 0) ∙ length-replicate {A = ℕ} life_cells 0,
  length-format_rows board life_h 0,
)
