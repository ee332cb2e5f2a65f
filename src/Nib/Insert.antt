-- ===== src/Nib/Insert.antt =====
-- The insert mode of nib.
use panuti.Base.{
  ℕ, ◌+◌, ◌-◌, Bool, true, not, ◌++◌, Option, none, some, set, take, drop, ltb, ◌==◌, if◌then◌else◌,
}
use panuti.Line.Ascii.{Packet, to_ascii, keycode_enter, keycode_backspace, keycode_tab}
use panuti.Nib.{
  Line, Editor, em_normal, line_init, line_len_max, line_reserve, line_set, line_insert,
  line_backspace_at, line_new_at, line_delete_at, line_at, len_at, set_line, set_errmsg,
}
use panuti.Nib.Normal.{Handled, handled, crash, codes, keycode_escape, out_of_memory}

-- A byte at the cursor.
abbrev pub typed : (room : ℕ → Bool) → Editor → Option Line → Handled
typed room e none = out_of_memory room e 0
typed room e (some l) =
    handled (record (set_line e e.cur_y l) { cur_x = e.cur_x + 1; dirty = true }) 0

abbrev pub type_byte : (room : ℕ → Bool) → Editor → (c : ℕ) → Handled
type_byte room e c = typed room e (line_insert room (line_at e.lines e.cur_y) e.cur_x c)

-- The row is cut at the cursor, once the new row has the rest of it. The 0 at the cut is written to the row's memory,
-- also when it has none.
abbrev pub cut_row : (room : ℕ → Bool) → (e d : Editor) → Option Line → Handled
cut_row room e d none =
    out_of_memory room (record d { lines = line_delete_at (e.cur_y + 1) d.lines }) 0
cut_row room e d (some nl) =
    let l = line_at e.lines e.cur_y in
    let cut = record l { string = take e.cur_x l.string } in
    if l.cap == 0
    then crash
    else handled
        (record d {
          lines = set (set d.lines (e.cur_y + 1) nl) e.cur_y cut;
          cur_y = e.cur_y + 1;
          cur_x = 0;
          insert_x = 0;
          dirty = true;
        })
        0

abbrev pub split_row : (room : ℕ → Bool) → Editor → Option Editor → Handled
split_row room e none = out_of_memory room e 0
split_row room e (some d) =
    cut_row room e d (line_set room line_init (drop e.cur_x (line_at e.lines e.cur_y).string))

-- The row is put behind the one before.
abbrev pub joined : (room : ℕ → Bool) → Editor → Option Line → Handled
joined room e none = out_of_memory room e 0
joined room e (some l) =
    let at = len_at e.lines (e.cur_y - 1) in
    handled
      (record e {
        lines = line_delete_at e.cur_y (
            set e.lines (e.cur_y - 1)
              (record l { string = l.string ++ (line_at e.lines e.cur_y).string }));
        cur_y = e.cur_y - 1;
        cur_x = at;
        insert_x = at;
        dirty = true;
      })
      0

abbrev pub join_row : (room : ℕ → Bool) → Editor → Handled
join_row room e =
    let len = len_at e.lines e.cur_y in
    let at = len_at e.lines (e.cur_y - 1) in
    if ltb (line_len_max - at) len
    then handled (set_errmsg room e (codes "line too long")) 0
    else joined room e (line_reserve room (line_at e.lines (e.cur_y - 1)) (at + len + 1))

abbrev pub backspace : (room : ℕ → Bool) → Editor → Handled
backspace room e =
    if ltb 0 e.cur_x
    then handled
        (record (set_line e e.cur_y (line_backspace_at (line_at e.lines e.cur_y) (e.cur_x - 1))) {
          cur_x = e.cur_x - 1;
          dirty = true;
        })
        0
    else if ltb 0 e.cur_y
    then join_row room e
    else handled e 0

-- `handin_insert`
unfoldable pub handin_insert : (room : ℕ → Bool) → Editor → Packet → Handled
handin_insert room e kp =
    let c = to_ascii kp in
    if kp.keycode == keycode_escape
    then handled
        (record e {
          mode = em_normal;
          cur_x = if ltb e.insert_x e.cur_x then e.cur_x - 1 else e.cur_x;
        })
        0
    else if kp.keycode == keycode_enter
    then split_row room e (line_new_at room e (e.cur_y + 1))
    else if kp.keycode == keycode_backspace
    then backspace room e
    else if kp.keycode == keycode_tab
    then type_byte room e 9
    else if not (c == 0)
    then type_byte room e c
    else handled e 0
