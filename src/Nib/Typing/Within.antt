-- ===== src/Nib/Typing/Within.antt =====
-- The bytes that the insert mode of nib/src/main.c puts into the row of the cursor and takes out of it.
use mathlib.Core.List.{append_assoc}
use panuti.Base.{
  ℕ, suc, ◌+◌, ◌≤◌, ◌<◌, ◌≡◌, refl, sym, ap, ◌∙◌, Bool, true, false, List, [], ◌∷◌, ◌++◌, Option,
  none, some, arith, length, get_or, set, take, drop, leb,
}
use panuti.Nib.{Line, Editor, line_at, line_insert, line_backspace_at, put_at, cut_at, set_line}
use panuti.Nib.Rows.{set_lem}
use panuti.Nib.Text.{full}
use panuti.Nib.Bytes.{
  but_last, take-put_at, drop-put_at, take-cut_at, drop-cut_at, but_last-append, take-suc,
}
use panuti.Nib.Memory.{
  Holds, held, lacks, no_memory, too_long, line_at-IsLine, line_insert-Holds, length-put_at,
  length-cut_at, shorter-IsLine,
}
use panuti.Nib.Normal.{handled}
use panuti.Nib.Insert.{typed, type_byte}
use panuti.Nib.Typing.{
  IsEditor, before_cursor, Edited, no_memory_for, long_row, set_errmsg-refuses, rows-Shows,
  Shows-Edited, one_row,
}

-- A byte goes in at the cursor.
typed-Edited :
    (room : ℕ → Bool) (e : Editor) (c : ℕ) (o : Option Line)
    → IsEditor e
    → Holds room (put_at e.cur_x c (line_at e.lines e.cur_y).string) o
    → Edited room e (before_cursor e ++ c ∷ []) (typed room e o)
typed-Edited room e c none ok (lacks (no_memory size denied)) =
    set_errmsg-refuses room e e _ _ ok refl refl refl (no_memory_for size denied)
typed-Edited room e c none ok (lacks (too_long lt)) =
    set_errmsg-refuses room e e _ _ ok refl refl refl
      (long_row (omega (arith, length-put_at e.cur_x c (line_at e.lines e.cur_y).string)))
typed-Edited room e c (some l) ok (held same pos is) =
    let s = (line_at e.lines e.cur_y).string in
    let start = full (take e.cur_y e.lines) in
    let len = length-put_at e.cur_x c s in
    let x_le : e.cur_x + 1 ≤ length l.string = rw same (omega (arith, len, ok.x_le)) in
    Shows-Edited (
      rows-Shows e _ _ _ l [] 1 ok (set_lem e.lines e.cur_y l ok.y_lt) ok.errmsg_ok ok.command_ok
        (is, tt) (omega (arith, ok.y_lt)) x_le
        (ap (λ r. start ++ take (e.cur_x + 1) r) same
          ∙ ap (λ r. start ++ r) (take-put_at e.cur_x c s ok.x_le)
          ∙ sym (append_assoc start (take e.cur_x s) (c ∷ [])))
        (ap (λ r. drop (e.cur_x + 1) r ++ 10 ∷ full (drop (e.cur_y + 1) e.lines)) same
          ∙ ap (λ r. r ++ 10 ∷ full (drop (e.cur_y + 1) e.lines)) (drop-put_at e.cur_x c s ok.x_le)
          ∙ one_row e.lines e.cur_y (drop e.cur_x s)))

pub type_byte-Edited :
    (room : ℕ → Bool) (e : Editor) (c : ℕ)
    → IsEditor e
    → Edited room e (before_cursor e ++ c ∷ []) (type_byte room e c)
type_byte-Edited room e c ok =
    typed-Edited room e c (line_insert room (line_at e.lines e.cur_y) e.cur_x c) ok (
      line_insert-Holds room (line_at e.lines e.cur_y) e.cur_x c
        (line_at-IsLine e.lines e.cur_y ok.rows_ok) ok.x_le)

-- A byte before the cursor is taken out.
line_backspace_at_lem :
    (l : Line) (x : ℕ)
    → x < length l.string
    → line_backspace_at l x ≡ record l { string = cut_at x l.string }
unfolding line_backspace_at
line_backspace_at_lem l x lt = let e : leb (length l.string) x ≡ false = ground arith in rw e refl

but_last-take :
    (start s : List ℕ) (x : ℕ)
    → x < length s
    → start ++ take x s ≡ but_last (start ++ take (suc x) s)
but_last-take start s x lt = sym (
    ap (λ r. but_last (start ++ r)) (take-suc x s lt)
    ∙ ap but_last (sym (append_assoc start (take x s) (get_or s x 0 ∷ [])))
    ∙ but_last-append (start ++ take x s) (get_or s x 0))

pub backspace_in-Edited :
    (room : ℕ → Bool) (e : Editor) (x : ℕ)
    → IsEditor e
    → e.cur_x ≡ suc x
    → Edited room e (but_last (before_cursor e)) (
        handled
          (record (set_line e e.cur_y (line_backspace_at (line_at e.lines e.cur_y) x)) {
            cur_x = x;
            dirty = true;
          })
          0)
backspace_in-Edited room e x ok here =
    let l = line_at e.lines e.cur_y in
    let start = full (take e.cur_y e.lines) in
    let lt : x < length l.string = omega (arith, ok.x_le, here) in
    let len = length-cut_at x l.string lt in
    let cut : Line = record l { string = cut_at x l.string } in
    let is = line_at-IsLine e.lines e.cur_y ok.rows_ok in
    Shows-Edited (
      rows-Shows e _ _ _ cut [] 1 ok
        (ap (λ r. set e.lines e.cur_y r) (line_backspace_at_lem l x lt)
          ∙ set_lem e.lines e.cur_y cut ok.y_lt)
        ok.errmsg_ok ok.command_ok
        (shorter-IsLine l (cut_at x l.string) is (omega (arith, len)), tt) (omega (arith, ok.y_lt))
        (omega (arith, len))
        (ap (λ r. start ++ r) (take-cut_at x l.string (omega arith))
          ∙ but_last-take start l.string x lt
          ∙ ap (λ k. but_last (start ++ take k l.string)) (sym here))
        (ap (λ r. r ++ 10 ∷ full (drop (e.cur_y + 1) e.lines))
            (drop-cut_at x l.string (omega arith))
          ∙ ap (λ k. drop k l.string ++ 10 ∷ full (drop (e.cur_y + 1) e.lines)) (sym here)
          ∙ one_row e.lines e.cur_y (drop e.cur_x l.string)))
