-- ===== src/Nib/Typing.antt =====
-- The insert mode of nib, handin_insert of nib/src/main.c, as edits of the text before the cursor.
pub mod Within
pub mod Between
pub mod Keys
use mathlib.Core.List.{append-nil, append_assoc}
use panuti.Line.Ascii.{Packet, to_ascii, keycode_enter, keycode_backspace, keycode_tab}
use panuti.Base.{
  ℕ, zero, suc, ◌+◌, ◌-◌, ◌/◌, ◌≤◌, ◌<◌, ◌≡◌, refl, sym, ap, subst, ◌∙◌, inl, inr, Bool, true,
  false, not, List, [], ◌∷◌, ◌++◌, Option, none, some, arith, length, length-append, length-take,
  length-drop, length-set, get_or, set, take, drop, ltb, leb, ◌==◌, if◌then◌else◌, Bool-cases,
}
use panuti.Nib.{
  Line, Editor, int_max, new_capl, line_init, line_at, len_at, line_insert, line_backspace_at,
  line_new_at, line_delete_at, line_set, line_reserve, insert_line, line_len_max, set_errmsg,
  with_message, put_at, cut_at, set_line,
}
use panuti.Nib.Rows.{
  replace_rows, set_lem, length-replace_rows, line_at-replace_rows, insert_line-split,
  line_delete_at-set, line_delete_at-insert_line,
}
use panuti.Nib.Text.{
  full, full-take, before_at, behind_at, before_at-replace_rows, behind_at-replace_rows,
}
use panuti.Nib.Bytes.{
  but_last, take-put_at, drop-put_at, take-cut_at, drop-cut_at, but_last-append, take-suc,
  take-length, drop-length,
}
use panuti.Nib.Memory.{
  IsLine, AreLines, Holds, held, lacks, Reserved, room_for, no_room, line_at-IsLine,
  line_init-IsLine, replace_rows-AreLines, line_insert-Holds, line_set-Holds, line_reserve-Reserved,
  line_backspace_at-IsLine, length-put_at, length-cut_at, shorter-IsLine,
}
use panuti.Nib.Normal.{Handled, handled, crash, codes, keycode_escape, out_of_memory}
use panuti.Nib.Insert.{
  typed, type_byte, cut_row, split_row, joined, join_row, backspace, handin_insert,
}

-- The cursor stands in the text, and every line is in its memory.
pub record IsEditor (e : Editor) : Type 0 where
  pub rows_ok : AreLines e.lines
  pub y_lt : e.cur_y < length e.lines
  pub x_le : e.cur_x ≤ len_at e.lines e.cur_y
  pub errmsg_ok : IsLine e.errormsg
  pub command_ok : IsLine e.command

abbrev pub before_cursor : Editor → List ℕ
before_cursor e = before_at e.lines e.cur_y e.cur_x

abbrev pub behind_cursor : Editor → List ℕ
behind_cursor e = behind_at e.lines e.cur_y e.cur_x

-- What a key means for the text before the cursor.
abbrev pub edited : Packet → List ℕ → List ℕ
edited kp s =
    if kp.keycode == keycode_enter
    then s ++ 10 ∷ []
    else if kp.keycode == keycode_backspace
    then but_last s
    else if kp.keycode == keycode_tab
    then s ++ 9 ∷ []
    else if not (to_ascii kp == 0)
    then s ++ to_ascii kp ∷ []
    else s

-- Why there is no room for one more row: realloc has none, or the capacity cannot be doubled.
pub data NoRows (room : ℕ → Bool) (e : Editor) : Type 0 where
  no_memory_to_grow : (size : ℕ) → room size ≡ false → NoRows room e
  many_rows : length e.lines ≡ e.capl → int_max / 12 < new_capl e.capl → NoRows room e

-- Why an edit finds no room: realloc has none, the row of the cursor or the row that a join would make is
-- too long, or there are as many rows as the editor can have.
pub data Full (room : ℕ → Bool) (e : Editor) : Type 0 where
  no_memory_for : (size : ℕ) → room size ≡ false → Full room e
  long_row : line_len_max ≤ len_at e.lines e.cur_y → Full room e
  long_rows :
      0 < e.cur_y
      → e.cur_x ≡ 0
      → line_len_max < len_at e.lines (e.cur_y - 1) + len_at e.lines e.cur_y
      → Full room e
  no_rows : NoRows room e → Full room e

-- An edit was made, or there was no room for it and the editor says so, or a newline was to cut a row
-- without memory.
pub data Edited (room : ℕ → Bool) (e : Editor) (s : List ℕ) : Handled → Type 0 where
  makes :
      {e' : Editor}
      → IsEditor e'
      → before_cursor e' ≡ s
      → behind_cursor e' ≡ behind_cursor e
      → Edited room e s (handled e' 0)
  refuses :
      {e' : Editor}
      → IsEditor e'
      → e'.lines ≡ e.lines
      → e'.cur_y ≡ e.cur_y
      → e'.cur_x ≡ e.cur_x
      → e'.show_errmsg ≡ true
      → Full room e
      → Edited room e s (handled e' 0)
  faults :
      (line_at e.lines e.cur_y).cap ≡ 0 → s ≡ before_cursor e ++ 10 ∷ [] → Edited room e s crash

-- A message leaves the text.
pub set_errmsg-refuses :
    (room : ℕ → Bool) (e d : Editor) (s msg : List ℕ)
    → IsEditor d
    → d.lines ≡ e.lines
    → d.cur_y ≡ e.cur_y
    → d.cur_x ≡ e.cur_x
    → Full room e
    → Edited room e s (handled (set_errmsg room d msg) 0)
unfolding set_errmsg
set_errmsg-refuses room e d s msg ok ls y x why =
    go (line_set room d.errormsg msg) (line_set-Holds room d.errormsg msg ok.errmsg_ok.cap_le)
  where
    go : (o : Option Line) → Holds room msg o → Edited room e s (handled (with_message d o) 0)
    go none h =
        refuses
          (record {
            rows_ok = ok.rows_ok;
            y_lt = ok.y_lt;
            x_le = ok.x_le;
            errmsg_ok = ok.errmsg_ok;
            command_ok = ok.command_ok;
          })
          ls y x refl why
    go (some l) (held same pos is) =
        refuses
          (record {
            rows_ok = ok.rows_ok;
            y_lt = ok.y_lt;
            x_le = ok.x_le;
            errmsg_ok = is;
            command_ok = ok.command_ok;
          })
          ls y x refl why

-- What an edit leaves is known by its rows and its cursor.
pub rows-IsEditor :
    (e' : Editor) (ls : List Line)
    → e'.lines ≡ ls
    → AreLines ls
    → e'.cur_y < length ls
    → e'.cur_x ≤ len_at ls e'.cur_y
    → IsLine e'.errormsg
    → IsLine e'.command
    → IsEditor e'
rows-IsEditor e' ls rows_e oks lt le msg_ok com_ok = record {
  rows_ok = subst AreLines (sym rows_e) oks;
  y_lt = subst (λ r. e'.cur_y < length r) (sym rows_e) lt;
  x_le = subst (λ r. e'.cur_x ≤ len_at r e'.cur_y) (sym rows_e) le;
  errmsg_ok = msg_ok;
  command_ok = com_ok;
}

-- An editor with the bytes before and behind its cursor.
pub record Shows (e : Editor) (before behind : List ℕ) : Type 0 where
  pub ok : IsEditor e
  pub before_e : before_cursor e ≡ before
  pub behind_e : behind_cursor e ≡ behind

pub rows-Shows :
    (e e' : Editor) (before behind : List ℕ) (l : Line) (new : List Line) (n : ℕ)
    → IsEditor e
    → e'.lines ≡ replace_rows e.lines e'.cur_y n (l ∷ new)
    → IsLine e'.errormsg
    → IsLine e'.command
    → AreLines (l ∷ new)
    → e'.cur_y + n ≤ length e.lines
    → e'.cur_x ≤ length l.string
    → full (take e'.cur_y e.lines) ++ take e'.cur_x l.string ≡ before
    → drop e'.cur_x l.string ++ 10 ∷ full (new ++ drop (e'.cur_y + n) e.lines) ≡ behind
    → Shows e' before behind
rows-Shows e e' before behind l new n ok rows_e msg_ok com_ok news le x_le b a =
    let ls = replace_rows e.lines e'.cur_y n (l ∷ new) in
    let len = length-replace_rows e.lines e'.cur_y n (l ∷ new) le in
    let at = line_at-replace_rows e.lines e'.cur_y n l new (omega arith) in
    record {
      ok =
          rows-IsEditor e' ls rows_e
            (replace_rows-AreLines e.lines e'.cur_y n (l ∷ new) ok.rows_ok news)
            (omega (arith, len)) (subst (λ r. e'.cur_x ≤ length r.string) (sym at) x_le) msg_ok
            com_ok;
      before_e =
          ap (λ r. before_at r e'.cur_y e'.cur_x) rows_e
          ∙ before_at-replace_rows e.lines e'.cur_y n e'.cur_x l new (omega arith)
          ∙ b;
      behind_e =
          ap (λ r. behind_at r e'.cur_y e'.cur_x) rows_e
          ∙ behind_at-replace_rows e.lines e'.cur_y n e'.cur_x l new (omega arith)
          ∙ a;
    }

-- An edit leaves what is behind the cursor.
pub Shows-Edited :
    {room : ℕ → Bool} {e e' : Editor} {s : List ℕ}
    → Shows e' s (behind_cursor e)
    → Edited room e s (handled e' 0)
Shows-Edited w = makes w.ok w.before_e w.behind_e

pub one_row :
    (ls : List Line) (y : ℕ) (s : List ℕ)
    → s ++ 10 ∷ full (drop (y + 1) ls) ≡ s ++ 10 ∷ full (drop (suc y) ls)
one_row ls y s = let next : y + 1 ≡ suc y = omega arith in ap (λ k. s ++ 10 ∷ full (drop k ls)) next
