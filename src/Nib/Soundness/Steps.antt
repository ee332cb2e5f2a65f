-- ===== src/Nib/Soundness/Steps.antt =====
-- Editors after the rounds of the main loop of nib/src/main.c.
use panuti.Line.Ascii.{Packet}
use panuti.Base.{
  ℕ, ◌+◌, ◌≤◌, ◌<◌, ◌≡◌, refl, inl, inr, Bool, true, not, List, arith, ltb, ◌==◌, if◌then◌else◌,
  Bool-cases,
}
use panuti.Nib.{Editor, Mode, em_normal, em_command, em_insert, line_at, len_at}
use panuti.Nib.Memory.{line_at-IsLine}
use panuti.Nib.Normal.{Handled, handled, keycode_escape, handin_normal}
use panuti.Nib.Insert.{handin_insert}
use panuti.Nib.File.{Disk, Answers}
use panuti.Nib.Command.{
  Turn, turn, handin_command, rows, cols, window, settle, Step, go_on, quits, crashed,
  after_handler, dispatch, step,
}
use panuti.Nib.Typing.{IsEditor, Edited, makes, refuses, faults, before_cursor, edited}
use panuti.Nib.Typing.Keys.{handin_insert-Edited}
use panuti.Nib.Soundness.{IsSound, editor-IsSound, Sound, sound}
use panuti.Nib.Soundness.Keys.{handin_normal-Sound}
use panuti.Nib.Soundness.Commands.{SoundTurn, sound_turn, handin_command-SoundTurn}

-- The cursor is in its row, and in the window.
pub record IsShown (e : Editor) : Type 0 where
  pub ok : IsEditor e
  pub top_le : e.vup_y ≤ e.cur_y
  pub row_lt : e.cur_y < e.vup_y + rows
  pub left_le : e.vup_x ≤ e.cur_x
  pub col_lt : e.cur_x < e.vup_x + cols

window_le : (vup cur size : ℕ) → 0 < size → window vup cur size ≤ cur
window_le vup cur size pos = ground arith

window_lt : (vup cur size : ℕ) → 0 < size → cur < window vup cur size + size
window_lt vup cur size pos = ground arith

pub settle-IsShown : (e : Editor) → IsSound e → IsShown (settle e)
unfolding settle
settle-IsShown e ok =
    let len = len_at e.lines e.cur_y in
    let x = if ltb len e.cur_x then len else e.cur_x in
    record {
      ok = record {
        rows_ok = ok.rows_ok;
        y_lt = ok.y_lt;
        x_le = ground arith;
        errmsg_ok = ok.errmsg_ok;
        command_ok = ok.command_ok;
      };
      top_le = window_le e.vup_y e.cur_y rows (omega arith);
      row_lt = window_lt e.vup_y e.cur_y rows (omega arith);
      left_le = window_le e.vup_x x cols (omega arith);
      col_lt = window_lt e.vup_x x cols (omega arith);
    }

-- What a packet leads to: a shown editor, the end of the loop, or the fault of a split empty row without memory.
pub data Lives (e : Editor) : Step → Type 0 where
  lives : {e' : Editor} {d : Disk} → IsShown e' → Lives e (go_on e' d)
  ends : {e' : Editor} {d : Disk} → IsSound e' → Lives e (quits e' d)
  dies :
      e.mode ≡ em_insert
      → (line_at e.lines e.cur_y).cap ≡ 0
      → len_at e.lines e.cur_y ≡ 0
      → Lives e crashed

after_handler-Lives :
    (e e' : Editor) (hc : ℕ) (d : Disk)
    → IsSound e'
    → Lives e (after_handler (turn (handled e' hc) d))
after_handler-Lives e e' hc d ok = elim (Bool-cases (hc == 1)) [
  | inl f ↦ rw f (ends ok)
  | inr f ↦ elim (Bool-cases (hc == 2)) [
    | inl g ↦
        rw (f, g)
          (lives (
            settle-IsShown _ (record {
              rows_ok = ok.rows_ok;
              y_lt = ok.y_lt;
              errmsg_ok = ok.errmsg_ok;
              command_ok = ok.command_ok;
            })))
    | inr g ↦ rw (f, g) (lives (settle-IsShown e' ok))
  ]
]

turned : (e : Editor) (h : Handled) (d : Disk) → Sound h → Lives e (after_handler (turn h d))
turned e h d (sound {e = e'} {hc} ok) = after_handler-Lives e e' hc d ok

-- The insert mode, Escape with it.
inserted :
    {room : ℕ → Bool} (e : Editor) (s : List ℕ) (h : Handled) (d : Disk)
    → IsEditor e
    → e.mode ≡ em_insert
    → Edited room e s h
    → Lives e (after_handler (turn h d))
inserted e s h d ok m (makes {e'} good b a) = after_handler-Lives e e' 0 d (editor-IsSound e' good)
inserted e s h d ok m (refuses {e'} good ls y x w why) =
    after_handler-Lives e e' 0 d (editor-IsSound e' good)
inserted e s h d ok m (faults z newline) =
    dies m z (elim (line_at-IsLine e.lines e.cur_y ok.rows_ok).fits [
      | inl none_there ↦ none_there
      | inr lt ↦ omega arith
    ])

escape-Sound :
    (room : ℕ → Bool) (e : Editor) (kp : Packet)
    → IsEditor e
    → (kp.keycode == keycode_escape) ≡ true
    → Sound (handin_insert room e kp)
unfolding handin_insert
escape-Sound room e kp ok f = rw f (
    sound (record {
      rows_ok = ok.rows_ok;
      y_lt = ok.y_lt;
      errmsg_ok = ok.errmsg_ok;
      command_ok = ok.command_ok;
    }))

commanded : (e : Editor) (t : Turn) → SoundTurn t → Lives e (after_handler t)
commanded e t (sound_turn {h} {d} ok) = turned e h d ok

dispatch-Lives :
    (room : ℕ → Bool) (a : Answers) (e : Editor) (d : Disk) (kp : Packet) (m : Mode)
    → IsEditor e
    → e.mode ≡ m
    → Lives e (after_handler (dispatch room a e d kp m))
dispatch-Lives room a e d kp em_normal ok h =
    turned e (handin_normal room e kp) d (handin_normal-Sound room e kp ok)
dispatch-Lives room a e d kp em_command ok h =
    commanded e (handin_command room a e d kp)
      (handin_command-SoundTurn room a e d kp (editor-IsSound e ok))
dispatch-Lives room a e d kp em_insert ok h = elim (Bool-cases (kp.keycode == keycode_escape)) [
  | inl f ↦ turned e (handin_insert room e kp) d (escape-Sound room e kp ok f)
  | inr f ↦
      inserted e (edited kp (before_cursor e)) (handin_insert room e kp) d ok h
        (handin_insert-Edited room e kp ok f)
]

-- Whatever packet comes in whatever mode, and whatever memory and the file system answer: an editor whose cursor is in
-- its row and in the window of 24 rows and 80 columns, and whose lines fit their memory, is one again when the loop goes
-- on, and when it ends its lines still fit; it faults only in the insert mode, on an empty row without memory.
pub step-Lives :
    (room : ℕ → Bool) (a : Answers) (e : Editor) (d : Disk) (kp : Packet)
    → IsShown e
    → Lives e (step room a e d kp)
unfolding step
step-Lives room a e d kp shown = elim (Bool-cases (not kp.pressed)) [
  | inl f ↦ rw f (lives shown)
  | inr f ↦ rw f (dispatch-Lives room a e d kp e.mode shown.ok refl)
]
