-- ===== src/Nib/Operator.antt =====
-- A motion, its range and the deletion of it, in the normal mode of nib/src/main.c.
use panuti.Base.{ℕ, ◌+◌, min, if◌then◌else◌, Bool, true, false, List, Option}
use Prim.Native.Nat.{max}
use panuti.Nib.{Line, Editor, len_at}
use panuti.Nib.Motion.{Place, Motion, Range, before, place}
use panuti.Nib.Text.{before_at, behind_at}
use panuti.Nib.Deletion.{row_left, Leaves}
use panuti.Nib.Deletion.Linewise.{LeavesRows}

-- The earlier one of the cursor and of the place that a motion leads to, and the later one; a motion that
-- includes its place, and goes on from the cursor, takes a byte more, if the row has it.
abbrev pub start_of : Editor → Motion → Place
start_of e m = if before m.to (place e.cur_y e.cur_x) then m.to else place e.cur_y e.cur_x

abbrev pub stop_of : Editor → Motion → Place
stop_of e m =
    if before m.to (place e.cur_y e.cur_x)
    then place e.cur_y e.cur_x
    else place m.to.y (min (len_at e.lines m.to.y) (m.to.x + (if m.inclusive then 1 else 0)))

-- What is left of the text: the rows around those of the cursor and of the motion's place, or the bytes
-- around the ones from the one to the other.
abbrev pub Deletes :
    (room : ℕ → Bool) → Editor → Motion → (linewise : Bool) → Option Editor → Type 0
Deletes room e m true o = LeavesRows room e.lines (min e.cur_y m.to.y) (max e.cur_y m.to.y) o
Deletes room e m false o =
    let p = start_of e m in
    let q = stop_of e m in
    Leaves room (row_left e.lines p.y p.x q.y q.x) (before_at e.lines p.y p.x)
      (behind_at e.lines q.y q.x) o

abbrev DeletesRange :
    (room : ℕ → Bool) (linewise : Bool) → List Line → Range → Option Editor → Type 0
DeletesRange room true ls r o = LeavesRows room ls r.from.y r.to.y o
DeletesRange room false ls r o =
    Leaves room (row_left ls r.from.y r.from.x r.to.y r.to.x) (before_at ls r.from.y r.from.x)
      (behind_at ls r.to.y r.to.x) o
