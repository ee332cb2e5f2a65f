-- ===== src/Life.antt =====
-- The game of life, conway/src/life.c. A board is the list of its cells, row by row; a cell is a byte, alive
-- when it is not 0. The loops write the cells in order, and so they are the list that they write.
pub mod Count
pub mod Format
mod Tests
use panuti.Base.{
  ℕ, zero, suc, ◌+◌, ◌-◌, ◌*◌, ◌/◌, ◌%◌, Bool, true, false, List, [], ◌∷◌, ◌++◌, get_or, set,
  replicate, ◌==◌, ltb, leb, if◌then◌else◌,
}

abbrev pub life_w : ℕ
life_w = 80

abbrev pub life_h : ℕ
life_h = 24

abbrev pub life_cells : ℕ
life_cells = life_w * life_h

-- `life_is_alive`: one of "#*OoXx1".
unfoldable pub is_alive : ℕ → Bool
is_alive c =
    if c == 35
    then true
    else if c == 42
    then true
    else if c == 79
    then true
    else if c == 111
    then true
    else if c == 88
    then true
    else if c == 120
    then true
    else c == 49

abbrev pub alive : ℕ → ℕ
alive cell = if cell == 0 then 0 else 1

-- `life_count`
unfoldable pub count : List ℕ → ℕ
count [] = 0
count (c ∷ cs) = alive c + count cs

-- The cell at the offset (dx - 1, dy - 1) from (x, y), around the edges.
abbrev pub cell_at : List ℕ → (x y dx dy : ℕ) → ℕ
cell_at board x y dx dy =
    get_or board ((y + dy + life_h - 1) % life_h * life_w + (x + dx + life_w - 1) % life_w) 0

abbrev row_of : List ℕ → (x y dy : ℕ) → ℕ
row_of board x y dy =
    alive (cell_at board x y 0 dy) + alive (cell_at board x y 1 dy) + alive (cell_at board x y 2 dy)

-- `neighbours`
unfoldable pub neighbours : List ℕ → (x y : ℕ) → ℕ
neighbours board x y =
    row_of board x y 0
    + (alive (cell_at board x y 0 1) + alive (cell_at board x y 2 1))
    + row_of board x y 2

abbrev pub bit : Bool → ℕ
bit true = 1
bit false = 0

-- The new cell, from the old one and its neighbours.
abbrev pub rule : (cell n : ℕ) → ℕ
rule cell n = if cell == 0 then bit (n == 3) else (if n == 2 then 1 else bit (n == 3))

abbrev pub next_cell : List ℕ → ℕ → ℕ
next_cell board i = rule (get_or board i 0) (neighbours board (i % life_w) (i / life_w))

-- The two loops of `life_step`, from the cell `i` on: the new cells, and how many live.
unfoldable pub step_loop : List ℕ → (n i : ℕ) → List ℕ × ℕ
step_loop board zero i = ([], 0)
step_loop board (suc n) i =
    let (cells, living) = step_loop board n (i + 1) in
    (next_cell board i ∷ cells, next_cell board i + living)

-- `life_step`
unfoldable pub step : List ℕ → List ℕ × ℕ
step board = step_loop board life_cells 0

-- The loop of `life_parse`.
unfoldable pub parse_loop : List ℕ → (x y : ℕ) → (board : List ℕ) → List ℕ
parse_loop [] x y board = board
parse_loop (c ∷ cs) x y board =
    let written =
      if ltb y life_h
      then (if ltb x life_w then set board (y * life_w + x) (bit (is_alive c)) else board)
      else board in
    let same_line = parse_loop cs (x + 1) y written in
    let next_line = parse_loop cs 0 (y + 1) board in
    let skipped = parse_loop cs x y board in
    if c == 13
    then skipped
    else if c == 10
    then (if leb life_h (y + 1) then board else next_line)
    else same_line

-- `life_parse`
unfoldable pub parse : List ℕ → List ℕ
parse text = parse_loop text 0 0 (replicate life_cells 0)

abbrev pub glyph : ℕ → ℕ
glyph cell = if cell == 0 then 46 else 35

-- A row of `life_format`, with its newline.
unfoldable pub format_row : List ℕ → (n i : ℕ) → List ℕ
format_row board zero i = 10 ∷ []
format_row board (suc n) i = glyph (get_or board i 0) ∷ format_row board n (i + 1)

unfoldable pub format_rows : List ℕ → (n y : ℕ) → List ℕ
format_rows board zero y = []
format_rows board (suc n) y = format_row board life_w (y * life_w) ++ format_rows board n (y + 1)

-- `life_format`
unfoldable pub format : List ℕ → List ℕ
format board = format_rows board life_h 0
