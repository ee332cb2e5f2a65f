-- ===== src/Nib/Soundness.antt =====
-- Editors between the keys of nib, and the operators of the normal mode, handin_normal_operator of nib/src/main.c.
pub mod Keys
pub mod Commands
pub mod Steps
use panuti.Line.Ascii.{Packet, to_ascii, keycode_enter}
use panuti.Base.{
  ℕ, zero, suc, ◌+◌, ◌-◌, ◌≤◌, ◌<◌, ◌≡◌, refl, sym, ap, subst, ◌∙◌, inl, inr, Bool, true, false,
  not, ◌&&◌, List, [], ◌∷◌, ◌++◌, Option, none, some, arith, length, take, drop, set, ltb, leb,
  ◌==◌, if◌then◌else◌, Bool-cases,
}
use panuti.Nib.{
  Line, Editor, Mode, em_normal, em_command, em_insert, line_init, line_at, len_at, line_set,
  line_new_at, delete_lines, insert_line, set_errmsg, with_message,
}
use panuti.Nib.Motion.{Place, place, Motion, Range, resolve_motion, motion_range, range_to}
use panuti.Nib.Rows.{replace_rows, length-replace_rows, delete_lines-set, insert_line_lem}
use panuti.Nib.Memory.{
  IsLine, AreLines, Holds, held, lacks, line_at-IsLine, line_init-IsLine, line_set-Holds,
  replace_rows-AreLines,
}
use panuti.Nib.Normal.{
  Handled, handled, crash, codes, keycode_escape, out_of_memory, at_place, change_rows,
  range_delete, finish_operator, operator_exec, isoperator, ismotion, apply_operator, this_row,
  handin_normal_operator, open_row, into_insert, move_cursor, handin_normal,
}
use panuti.Nib.Typing.{IsEditor, Shows, rows-IsEditor}
use panuti.Nib.Typing.Between.{Opened, opened, not_opened, line_new_at-Opened}
use panuti.Nib.Ranges.{IsRange, range_to-IsRange, Leads, leads, fails, resolve_motion-Leads}
use panuti.Nib.Deletion.{Leaves, leaves, keeps, delete_charwise-Leaves}
use panuti.Nib.Deletion.Linewise.{
  LeavesRows, leaves_rows, leaves_none, keeps_rows, delete_linewise-LeavesRows,
}

-- An editor whose column may be past the end of its row.
pub record IsSound (e : Editor) : Type 0 where
  pub rows_ok : AreLines e.lines
  pub y_lt : e.cur_y < length e.lines
  pub errmsg_ok : IsLine e.errormsg
  pub command_ok : IsLine e.command

pub editor-IsSound : (e : Editor) → IsEditor e → IsSound e
editor-IsSound e ok = record {
  rows_ok = ok.rows_ok;
  y_lt = ok.y_lt;
  errmsg_ok = ok.errmsg_ok;
  command_ok = ok.command_ok;
}

-- A handler that leaves a sound editor, and does not fault.
pub data Sound : Handled → Type 0 where
  sound : {e : Editor} {hc : ℕ} → IsSound e → Sound (handled e hc)

pub Sound-if : (b : Bool) {x y : Handled} → Sound x → Sound y → Sound (if b then x else y)
Sound-if true x y = x
Sound-if false x y = y

with_message-IsSound :
    {room : ℕ → Bool} (e : Editor) (msg : List ℕ) (o : Option Line)
    → IsSound e
    → Holds room msg o
    → IsSound (with_message e o)
with_message-IsSound e msg none ok h = record {
  rows_ok = ok.rows_ok;
  y_lt = ok.y_lt;
  errmsg_ok = ok.errmsg_ok;
  command_ok = ok.command_ok;
}
with_message-IsSound e msg (some l) ok (held same pos is) = record {
  rows_ok = ok.rows_ok;
  y_lt = ok.y_lt;
  errmsg_ok = is;
  command_ok = ok.command_ok;
}

pub set_errmsg-IsSound :
    (room : ℕ → Bool) (e : Editor) (msg : List ℕ) → IsSound e → IsSound (set_errmsg room e msg)
unfolding set_errmsg
set_errmsg-IsSound room e msg ok =
    with_message-IsSound e msg (line_set room e.errormsg msg) ok
      (line_set-Holds room e.errormsg msg ok.errmsg_ok.cap_le)

-- A step that may fail.
data Fine : Option Editor → Type 0 where
  fine : {e : Editor} → IsEditor e → Fine (some e)
  lacking : Fine none

range_delete-Fine :
    (room : ℕ → Bool) (e : Editor) (r : Range)
    → IsEditor e
    → IsRange (length e.lines) r
    → Fine (range_delete room e r)
unfolding range_delete
range_delete-Fine room e r ok is = elim (Bool-cases r.linewise) [
  | inl f ↦ rw f (by_rows (delete_linewise-LeavesRows room e r ok is))
  | inr f ↦ rw f (by_bytes (delete_charwise-Leaves room e r ok is))
]
  where
    by_rows : {o : Option Editor} → LeavesRows room e.lines r.from.y r.to.y o → Fine o
    by_rows (leaves_rows good x t) = fine good
    by_rows (leaves_none good x z all t) = fine good
    by_rows (keeps_rows size denied) = lacking

    by_bytes : {l b a : List ℕ} {o : Option Editor} → Leaves room l b a o → Fine o
    by_bytes (leaves w) = fine w.ok
    by_bytes (keeps why) = lacking

change_rows-Fine :
    {room : ℕ → Bool} (e : Editor) (r : Range) (o : Option Line)
    → IsEditor e
    → IsRange (length e.lines) r
    → Holds room [] o
    → Fine (change_rows e r o)
change_rows-Fine e r none ok is h = lacking
change_rows-Fine e r (some l) ok is (held same pos l_ok) =
    let y = r.from.y in
    let n = r.to.y - y in
    let le : y + suc n ≤ length e.lines = omega (arith, is.y_le, is.y_lt) in
    fine (
      rows-IsEditor _ (replace_rows e.lines y (suc n) (l ∷ [])) (delete_lines-set e.lines y n l le)
        (replace_rows-AreLines e.lines y (suc n) (l ∷ []) ok.rows_ok (l_ok, tt))
        (omega (arith, length-replace_rows e.lines y (suc n) (l ∷ []) le)) (omega arith)
        ok.errmsg_ok ok.command_ok)

finish_operator-Sound :
    (room : ℕ → Bool) (op : ℕ) (e : Editor) (o : Option Editor)
    → IsSound e
    → Fine o
    → Sound (finish_operator room op e o)
finish_operator-Sound room op e none ok f = sound (set_errmsg-IsSound room e _ ok)
finish_operator-Sound room op e (some d) ok (fine d_ok) = elim (Bool-cases (op == b'c')) [
  | inl g ↦ rw g (
      sound (record {
        rows_ok = d_ok.rows_ok;
        y_lt = d_ok.y_lt;
        errmsg_ok = d_ok.errmsg_ok;
        command_ok = d_ok.command_ok;
      }))
  | inr g ↦ rw g (
      sound (record {
        rows_ok = d_ok.rows_ok;
        y_lt = d_ok.y_lt;
        errmsg_ok = d_ok.errmsg_ok;
        command_ok = d_ok.command_ok;
      }))
]

pub operator_exec-Sound :
    (room : ℕ → Bool) (e : Editor) (op : ℕ) (r : Range)
    → IsEditor e
    → IsRange (length e.lines) r
    → Sound (operator_exec room e op r)
unfolding operator_exec
operator_exec-Sound room e op r ok is =
    finish_operator-Sound room op e _ (editor-IsSound e ok)
      (elim (Bool-cases ((op == b'c') && r.linewise)) [
        | inl f ↦ rw f (
            change_rows-Fine e r (line_set room (line_at e.lines r.from.y) []) ok is (
              line_set-Holds room (line_at e.lines r.from.y) []
                (line_at-IsLine e.lines r.from.y ok.rows_ok).cap_le))
        | inr f ↦ rw f (range_delete-Fine room e r ok is)
      ])
