-- ===== src/Life/Tests.antt =====
-- A board with a blinker, three cells in a row, one of them past the edge.
use panuti.Base.{◌≡◌, refl, ◌<◌, ◌+◌, ◌*◌, ℕ, List, get_or, set, replicate, length}
use panuti.Life.{life_w, life_h, life_cells, count, neighbours, step, step_loop}
use panuti.Life.Count.{around, living_of, reborn, step_lem}

abbrev blinker : List ℕ
blinker = set (set (set (replicate life_cells 0) 0 1) 1 1) 79 1

turns : (step blinker).1 ≡ 3
unfolding step step_loop neighbours
turns = refl

step_lem_example :
    (length (step blinker).0 ≡ life_cells)
    × ((step blinker).1 ≡ count (step blinker).0)
    × ((x y : ℕ)
        → x < life_w
        → y < life_h
        → get_or (step blinker).0 (y * life_w + x) 0
          ≡ reborn (get_or blinker (y * life_w + x) 0) (living_of blinker (around x y)))
step_lem_example = step_lem blinker
