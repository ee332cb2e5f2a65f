-- ===== src/Nib/Normal.antt =====
-- The normal mode of nib: operators on ranges, and the keys. An answer is what the code returns.
use Prim.Native.Char.{code}
use Prim.Native.String.{String}
use panuti.Base.{
  ℕ, ◌+◌, ◌-◌, Bool, true, false, not, ◌&&◌, ◌||◌, List, [], ◌∷◌, ◌++◌, Option, none, some, length,
  set, take, drop, ltb, leb, ◌==◌, if◌then◌else◌,
}
use panuti.Line.Ascii.{Packet, to_ascii, keycode_enter}
use panuti.Nib.{
  Line, Editor, em_command, em_insert, line_len_max, line_reserve, line_set, line_new_at, line_at,
  len_at, delete_lines, set_line, set_errmsg,
}
use panuti.Nib.Motion.{Place, place, Range, Motion, motion_range, resolve_motion}

abbrev pub codes : String → List ℕ
codes String.[] = []
codes (String.◌∷◌ c s) = code c ∷ codes s

abbrev pub keycode_escape : ℕ
keycode_escape = 61

-- What a handler leaves and returns: 0 to go on, 1 to quit, 2 for an error. `crash` is a write through a null pointer.
pub data Handled : Type 0 where
  handled : Editor → (hc : ℕ) → Handled
  crash : Handled

abbrev pub out_of_memory : (room : ℕ → Bool) → Editor → (hc : ℕ) → Handled
out_of_memory room e hc = handled (set_errmsg room e (codes "out of memory")) hc

abbrev pub at_place : Editor → Place → Editor
at_place e p = record e { cur_y = p.y; cur_x = p.x }

abbrev pub clamp : (v hi : ℕ) → ℕ
clamp v hi = if ltb hi v then hi else v

-- `hinormal_range_delete` of whole rows.
abbrev pub delete_all : Editor → Range → Option Line → Option Editor
delete_all e r none = none
delete_all e r (some l) = some (
    at_place (record e { lines = delete_lines (length e.lines - 1) 1 (set e.lines 0 l) })
      (place 0 0))

abbrev pub delete_rows : Editor → Range → Editor
delete_rows e r =
    let ls = delete_lines (r.to.y + 1 - r.from.y) r.from.y e.lines in
    at_place (record e { lines = ls })
      (place (if ltb r.from.y (length ls) then r.from.y else length ls - 1) 0)

abbrev pub delete_linewise : (room : ℕ → Bool) → Editor → Range → Option Editor
delete_linewise room e r =
    if (r.from.y == 0) && leb (length e.lines) (r.to.y + 1)
    then delete_all e r (line_set room (line_at e.lines 0) [])
    else some (delete_rows e r)

-- The bytes between two columns of a row.
abbrev pub delete_in_line : Editor → (y x1 x2 : ℕ) → Editor
delete_in_line e y x1 x2 =
    let l = line_at e.lines y in
    let cut = set_line e y (record l { string = take x1 l.string ++ drop x2 l.string }) in
    at_place (if ltb x1 x2 then cut else e) (place y x1)

-- The rest of the last row behind the start of the first.
abbrev pub join_rows : Editor → (y1 x1 y2 x2 : ℕ) → Option Line → Option Editor
join_rows e y1 x1 y2 x2 none = none
join_rows e y1 x1 y2 x2 (some l) =
    let joined = record l { string = take x1 l.string ++ drop x2 (line_at e.lines y2).string } in
    some (
      at_place (record e { lines = delete_lines (y2 - y1) (y1 + 1) (set e.lines y1 joined) })
        (place y1 x1))

abbrev pub delete_charwise : (room : ℕ → Bool) → Editor → Range → Option Editor
delete_charwise room e r =
    let x1 = clamp r.from.x (len_at e.lines r.from.y) in
    let x2 = clamp r.to.x (len_at e.lines r.to.y) in
    let rem = len_at e.lines r.to.y - x2 in
    if r.from.y == r.to.y
    then some (delete_in_line e r.from.y x1 x2)
    else if ltb (line_len_max - x1) rem
    then none
    else join_rows e r.from.y x1 r.to.y x2
        (line_reserve room (line_at e.lines r.from.y) (x1 + rem + 1))

-- `hinormal_range_delete`; `none` is false.
unfoldable pub range_delete : (room : ℕ → Bool) → Editor → Range → Option Editor
range_delete room e r = if r.linewise then delete_linewise room e r else delete_charwise room e r

-- The end of `hinormal_operator_exec`.
abbrev pub finish_operator : (room : ℕ → Bool) → (op : ℕ) → Editor → Option Editor → Handled
finish_operator room op e none = out_of_memory room e 2
finish_operator room op e (some d) =
    let changed = record d { dirty = true } in
    handled
      (if op == b'c' then record changed { insert_x = d.cur_x; mode = em_insert } else changed) 0

-- The rows of a change are one empty row.
abbrev pub change_rows : Editor → Range → Option Line → Option Editor
change_rows e r none = none
change_rows e r (some l) = some (
    at_place
      (record e {
        lines = delete_lines (r.to.y - r.from.y) (r.from.y + 1) (set e.lines r.from.y l);
      })
      (place r.from.y 0))

-- `hinormal_operator_exec`
unfoldable pub operator_exec : (room : ℕ → Bool) → Editor → (op : ℕ) → Range → Handled
operator_exec room e op r = finish_operator room op e (
    if (op == b'c') && r.linewise
    then change_rows e r (line_set room (line_at e.lines r.from.y) [])
    else range_delete room e r)

-- `hinormal_ismotion`
abbrev pub ismotion : ℕ → Bool
ismotion c =
    (c == b'h')
    || (c == b'j')
    || (c == b'k')
    || (c == b'l')
    || (c == b'w')
    || (c == b'b')
    || (c == b'e')
    || (c == b'0')
    || (c == b'^')
    || (c == b'$')

-- `hinormal_isoperator`
abbrev pub isoperator : ℕ → Bool
isoperator c = (c == b'd') || (c == b'c')

abbrev pub apply_operator : (room : ℕ → Bool) → Editor → (op : ℕ) → Option Range → Handled
apply_operator room e op none = handled e 0
apply_operator room e op (some r) = operator_exec room e op r

abbrev pub this_row : Editor → Range
this_row e = record { from = place e.cur_y 0; to = place e.cur_y 0; linewise = true }

-- `handin_normal_operator`
unfoldable pub handin_normal_operator : (room : ℕ → Bool) → Editor → Packet → Handled
handin_normal_operator room e kp =
    let c = to_ascii kp in
    let op = e.pending_op in
    let waiting = record e { pending_op = 0 } in
    if kp.keycode == keycode_escape
    then handled waiting 0
    else if c == op
    then operator_exec room waiting op (this_row e)
    else if ismotion c
    then apply_operator room waiting op (motion_range e (resolve_motion e c))
    else handled waiting 0

-- A new row, or an error.
abbrev pub open_row : (room : ℕ → Bool) → Editor → (Editor → Editor) → Option Editor → Handled
open_row room e k none = out_of_memory room e 2
open_row room e k (some d) = handled (k (record d { dirty = true })) 0

abbrev pub into_insert : Editor → (x : ℕ) → Editor
into_insert e x = record e { cur_x = x; insert_x = x; mode = em_insert }

abbrev pub move_cursor : Editor → Option Motion → Editor
move_cursor e none = e
move_cursor e (some m) = at_place e m.to

-- `handin_normal`
unfoldable pub handin_normal : (room : ℕ → Bool) → Editor → Packet → Handled
handin_normal room e kp =
    let c = to_ascii kp in
    let len = len_at e.lines e.cur_y in
    if not (e.pending_op == 0)
    then handin_normal_operator room e kp
    else if c == b':'
    then handled (record e { mode = em_command }) 0
    else if kp.keycode == keycode_escape
    then handled (record e { show_errmsg = false }) 0
    else if kp.keycode == keycode_enter
    then open_row room e (λ d. record d { cur_y = e.cur_y + 1; cur_x = 0 })
        (line_new_at room e (e.cur_y + 1))
    else if c == b'o'
    then open_row room e (λ d. into_insert (record d { cur_y = e.cur_y + 1 }) 0)
        (line_new_at room e (e.cur_y + 1))
    else if c == b'O'
    then open_row room e (λ d. into_insert d 0) (line_new_at room e e.cur_y)
    else if isoperator c
    then handled (record e { pending_op = c }) 0
    else if ismotion c
    then handled (move_cursor e (resolve_motion e c)) 0
    else if c == b'i'
    then handled (into_insert e e.cur_x) 0
    else if c == b'a'
    then handled (into_insert e (if ltb e.cur_x len then e.cur_x + 1 else e.cur_x)) 0
    else if c == b'A'
    then handled (into_insert e len) 0
    else handled e 0
