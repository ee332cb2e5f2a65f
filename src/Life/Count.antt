-- ===== src/Life/Count.antt =====
-- What a step returns, and the bounds of the board.
use panuti.Base.{
  ℕ, zero, suc, ◌+◌, ◌-◌, ◌≤◌, ◌<◌, ◌*◌, ◌/◌, ◌%◌, ◌≡◌, refl, ap, ◌∙◌, List, get_or, arith, length,
  ◌==◌, if◌then◌else◌,
}
use mathlib.Core.List.{[], ◌∷◌}
use panuti.Life.{
  alive, life_w, life_h, life_cells, count, neighbours, rule, next_cell, step_loop, step,
}

rule-le : (cell n : ℕ) → rule cell n ≤ 1
rule-le cell n = ground arith

step_loop-count :
    (board : List ℕ) (n i : ℕ)
    → ((step_loop board n i).1 ≡ count (step_loop board n i).0)
      × (length (step_loop board n i).0 ≡ n)
unfolding step_loop count
step_loop-count board zero i = (refl, refl)
step_loop-count board (suc n) i =
    let rest = step_loop-count board n (i + 1) in
    (
      ground
          (arith, rest.0, rule-le (get_or board i 0) (neighbours board (i % life_w) (i / life_w))),
      omega (arith, rest.1),
    )

step_loop-get :
    (board : List ℕ) (n i k : ℕ)
    → k < n
    → get_or (step_loop board n i).0 k 0 ≡ next_cell board (i + k)
unfolding step_loop
step_loop-get board zero i k h = absurd (omega arith)
step_loop-get board (suc n) i zero h = ap (next_cell board) (omega arith)
step_loop-get board (suc n) i (suc k) h =
    step_loop-get board n (i + 1) k (omega arith) ∙ ap (next_cell board) (omega arith)

neighbours-le : (board : List ℕ) (x y : ℕ) → neighbours board x y ≤ 8
unfolding neighbours
neighbours-le board x y = ground arith

at_place :
    (board : List ℕ) (x y : ℕ)
    → x < life_w
    → next_cell board (0 + (y * life_w + x))
      ≡ rule (get_or board (y * life_w + x) 0) (neighbours board x y)
at_place board x y h =
    let start : 0 + (y * life_w + x) ≡ y * life_w + x = omega arith in
    let column : (y * life_w + x) % life_w ≡ x = omega arith in
    let line : (y * life_w + x) / life_w ≡ y = omega arith in
    ap (next_cell board) start
    ∙ ap
        (λ u.
          rule (get_or board (y * life_w + x) 0) (neighbours board u ((y * life_w + x) / life_w)))
        column
    ∙ ap (λ v. rule (get_or board (y * life_w + x) 0) (neighbours board x v)) line

-- The column or the line before and behind one, around the edge of `size`.
abbrev pub previous : (size i : ℕ) → ℕ
previous size i = if i == 0 then size - 1 else i - 1

abbrev pub following : (size i : ℕ) → ℕ
following size i = if i + 1 == size then 0 else i + 1

abbrev pub living_at : List ℕ → (x y : ℕ) → ℕ
living_at board x y = alive (get_or board (y * life_w + x) 0)

abbrev pub living_of : List ℕ → List (ℕ × ℕ) → ℕ
living_of board [] = 0
living_of board ((x, y) ∷ places) = living_at board x y + living_of board places

-- The eight places around one on the torus.
abbrev pub around : (x y : ℕ) → List (ℕ × ℕ)
around x y =
    (previous life_w x, previous life_h y)
    ∷ (x, previous life_h y)
    ∷ (following life_w x, previous life_h y)
    ∷ (previous life_w x, y)
    ∷ (following life_w x, y)
    ∷ (previous life_w x, following life_h y)
    ∷ (x, following life_h y)
    ∷ (following life_w x, following life_h y)
    ∷ []

-- Alive with three around, or with two and alive before.
abbrev pub reborn : (cell living : ℕ) → ℕ
reborn cell living = if living == 3 then 1 else (if living == 2 then alive cell else 0)

rule-reborn : (cell n : ℕ) → rule cell n ≡ reborn cell n
rule-reborn cell n = ground arith

column_before : (x : ℕ) → x < life_w → (x + 0 + life_w - 1) % life_w ≡ previous life_w x
column_before x h = ground arith

column_at : (x : ℕ) → x < life_w → (x + 1 + life_w - 1) % life_w ≡ x
column_at x h = omega arith

column_behind : (x : ℕ) → x < life_w → (x + 2 + life_w - 1) % life_w ≡ following life_w x
column_behind x h = ground arith

line_before : (y : ℕ) → y < life_h → (y + 0 + life_h - 1) % life_h ≡ previous life_h y
line_before y h = ground arith

line_at : (y : ℕ) → y < life_h → (y + 1 + life_h - 1) % life_h ≡ y
line_at y h = omega arith

line_behind : (y : ℕ) → y < life_h → (y + 2 + life_h - 1) % life_h ≡ following life_h y
line_behind y h = ground arith

neighbours-around :
    (board : List ℕ) (x y : ℕ)
    → x < life_w
    → y < life_h
    → neighbours board x y ≡ living_of board (around x y)
unfolding neighbours
neighbours-around board x y hx hy =
    rw
      (
        column_before x hx,
        column_at x hx,
        column_behind x hx,
        line_before y hy,
        line_at y hy,
        line_behind y hy,
      )
      (omega arith)

-- A step gives a whole board, and returns the number of its cells that are alive. A cell of it is alive if
-- three of the eight cells around it on the torus are, or two and the cell itself.
pub step_lem :
    (board : List ℕ)
    → let (cells, living) = step board in
      (length cells ≡ life_cells)
      × (living ≡ count cells)
      × ((x y : ℕ)
          → x < life_w
          → y < life_h
          → get_or cells (y * life_w + x) 0
            ≡ reborn (get_or board (y * life_w + x) 0) (living_of board (around x y)))
unfolding step
step_lem board =
    let c = step_loop-count board life_cells 0 in
    (
      c.1,
      c.0,
      λ x y hx hy.
          step_loop-get board life_cells 0 (y * life_w + x) (omega arith)
          ∙ at_place board x y hx
          ∙ rule-reborn (get_or board (y * life_w + x) 0) (neighbours board x y)
          ∙ ap (reborn (get_or board (y * life_w + x) 0)) (neighbours-around board x y hx hy),
    )
