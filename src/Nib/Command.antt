-- ===== src/Nib/Command.antt =====
-- The command mode of nib, and the body of its main loop.
use panuti.Base.{
  ℕ, ◌+◌, ◌-◌, Bool, true, false, not, ◌&&◌, List, [], ◌∷◌, Option, none, some, length, ltb, leb,
  ◌==◌, if◌then◌else◌,
}
use panuti.Line.Ascii.{Packet, to_ascii, keycode_enter, keycode_backspace}
use panuti.Nib.{
  Line, Editor, Mode, em_normal, em_command, em_insert, line_init, line_append, line_set,
  line_backspace, len_at, set_errmsg,
}
use panuti.Nib.Normal.{Handled, handled, crash, codes, keycode_escape, out_of_memory, handin_normal}
use panuti.Nib.Insert.{handin_insert}
use panuti.Nib.File.{Disk, Answers, Saved, save}

-- `strcmp` with 0 as its answer.
abbrev pub same_text : List ℕ → List ℕ → Bool
same_text [] [] = true
same_text [] (d ∷ ds) = false
same_text (c ∷ cs) [] = false
same_text (c ∷ cs) (d ∷ ds) = (c == d) && same_text cs ds

-- A handler's result with the disk.
pub record Turn : Type 0 where
  pub handled_as : Handled
  pub disk : Disk

abbrev pub turn : Handled → Disk → Turn
turn h d = record { handled_as = h; disk = d }

-- `hicommand_swnorm`
abbrev pub swnorm : Editor → Editor
swnorm e = record e { command = line_init; mode = em_normal }

abbrev pub swnorm_all : Turn → Turn
swnorm_all t = record t {
  handled_as = elim t.handled_as as (λ _. Handled) [
    | crash ↦ crash
    | handled e hc ↦ handled (swnorm e) hc
  ];
}

-- Bytes behind a message, as long as there is room.
unfoldable pub append_all : (room : ℕ → Bool) → Line → List ℕ → Line
append_all room l [] = l
append_all room l (c ∷ cs) = elim (line_append room l c) as (λ _. Line) [
  | none ↦ l
  | some l' ↦ append_all room l' cs
]

abbrev pub line_or : Line → Option Line → Line
line_or l none = l
line_or l (some l') = l'

abbrev pub unknown : (room : ℕ → Bool) → Editor → Editor
unknown room e =
    let start = line_or e.errormsg (line_set room e.errormsg (codes "command \"")) in
    let named = append_all room start e.command.string in
    record e { errormsg = append_all room named (codes "\" is not recognized"); show_errmsg = true }

-- `:w` and `:wq`, with what the handler answers when the file is saved.
abbrev pub save_and : (room : ℕ → Bool) → Editor → Saved → (hc : ℕ) → Turn
save_and room e s hc =
    turn
      (if s.ok
        then handled (record e { dirty = false }) hc
        else handled (set_errmsg room e (codes "could not save the file")) 2)
      s.disk

-- `hicommand_prcc`
unfoldable pub prcc : (room : ℕ → Bool) → Answers → Editor → Disk → Turn
prcc room a e d =
    let command = e.command.string in
    if length command == 0
    then turn (handled e 0) d
    else if same_text command (codes "q")
    then turn
        (if e.dirty
          then handled (set_errmsg room e (codes "unsaved changes, use \":q!\" to override")) 2
          else handled e 1)
        d
    else if same_text command (codes "w")
    then save_and room e (save a e d) 0
    else if same_text command (codes "wq")
    then save_and room e (save a e d) 1
    else if same_text command (codes "q!")
    then turn (handled e 1) d
    else turn (handled (unknown room e) 2) d

abbrev pub with_command : (room : ℕ → Bool) → Editor → Option Line → Handled
with_command room e none = out_of_memory room e 2
with_command room e (some l) = handled (record e { command = l }) 0

-- `handin_command`
unfoldable pub handin_command : (room : ℕ → Bool) → Answers → Editor → Disk → Packet → Turn
handin_command room a e d kp =
    let h = record e { show_errmsg = false } in
    let c = to_ascii kp in
    if kp.keycode == keycode_escape
    then turn (handled (swnorm h) 0) d
    else if kp.keycode == keycode_enter
    then swnorm_all (prcc room a h d)
    else if kp.keycode == keycode_backspace
    then turn
        (handled
          (if length h.command.string == 0
            then swnorm h
            else record h { command = line_backspace h.command })
          0)
        d
    else if not (c == 0)
    then turn (with_command room h (line_append room h.command c)) d
    else turn (handled h 0) d

abbrev pub rows : ℕ
rows = 24

abbrev pub cols : ℕ
cols = 80

-- The end of the main loop: the cursor is kept in its row, and the window moved to it.
abbrev pub window : (vup cur size : ℕ) → ℕ
window vup cur size =
    let up = if ltb cur vup then cur else vup in if leb (up + size) cur then cur - size + 1 else up

unfoldable pub settle : Editor → Editor
settle e =
    let x = if ltb (len_at e.lines e.cur_y) e.cur_x then len_at e.lines e.cur_y else e.cur_x in
    record e { cur_x = x; vup_y = window e.vup_y e.cur_y rows; vup_x = window e.vup_x x cols }

-- After a packet the loop goes on, or it has ended, or the editor has crashed.
pub data Step : Type 0 where
  go_on : Editor → Disk → Step
  quits : Editor → Disk → Step
  crashed : Step

abbrev pub after_handler : Turn → Step
after_handler t = elim t.handled_as as (λ _. Step) [
  | crash ↦ crashed
  | handled e hc ↦
      if hc == 1
      then quits e t.disk
      else go_on (settle (if hc == 2 then record e { show_errmsg = true } else e)) t.disk
]

abbrev pub dispatch : (room : ℕ → Bool) → Answers → Editor → Disk → Packet → Mode → Turn
dispatch room a e d kp em_normal = turn (handin_normal room e kp) d
dispatch room a e d kp em_command = handin_command room a e d kp
dispatch room a e d kp em_insert = turn (handin_insert room e kp) d

-- The body of the main loop, with a packet of the keyboard.
unfoldable pub step : (room : ℕ → Bool) → Answers → Editor → Disk → Packet → Step
step room a e d kp =
    if not kp.pressed then go_on e d else after_handler (dispatch room a e d kp e.mode)
