-- ===== src/Libc/Tests.antt =====
-- A move of four bytes by one place, up and down.
use panuti.Base.{ℕ, ◌≡◌, refl, ◌&&◌, List, [], ◌∷◌, arith, get_or, ltb, leb, if◌then◌else◌}
use panuti.Libc.{copy_up, copy_down, memmove, fill_up, memset, compare_from, memcmp}
use panuti.Base.Int.{negsuc}
use panuti.Libc.Moving.{memmove_lem}

abbrev bytes : List ℕ
bytes = 1 ∷ 2 ∷ 3 ∷ 4 ∷ 5 ∷ []

moved_up : memmove bytes 1 0 4 ≡ 1 ∷ 1 ∷ 2 ∷ 3 ∷ 4 ∷ []
unfolding memmove copy_up copy_down
moved_up = refl

moved_down : memmove bytes 0 1 4 ≡ 2 ∷ 3 ∷ 4 ∷ 5 ∷ 5 ∷ []
unfolding memmove copy_up copy_down
moved_down = refl

memmove_lem_example :
    get_or (memmove bytes 1 0 4) 3 0
    ≡ (if leb 1 3 && ltb 3 5 then get_or bytes 2 0 else get_or bytes 3 0)
memmove_lem_example = memmove_lem bytes 1 0 4 3 (omega arith) (omega arith)

compared : memcmp bytes 1 2 3 ≡ negsuc 0
unfolding compare_from
compared = refl

filled : memset bytes 1 258 2 ≡ 1 ∷ 2 ∷ 2 ∷ 4 ∷ 5 ∷ []
unfolding fill_up
filled = refl
