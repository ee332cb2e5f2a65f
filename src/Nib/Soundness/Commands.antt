-- ===== src/Nib/Soundness/Commands.antt =====
-- Editors after the keys of the command mode, handin_command of nib/src/main.c.
use panuti.Line.Ascii.{Packet, to_ascii, keycode_enter, keycode_backspace}
use panuti.Base.{
  ℕ, ◌-◌, inl, inr, Bool, true, false, not, List, [], ◌∷◌, ◌++◌, Option, none, some, length, ◌==◌,
  if◌then◌else◌, Bool-cases,
}
use panuti.Nib.{
  Line, Editor, Mode, em_normal, line_init, line_set, line_append, line_backspace, set_errmsg,
}
use panuti.Nib.Memory.{
  IsLine, Holds, held, line_init-IsLine, line_set-Holds, line_append-Holds,
  line_backspace_at-IsLine,
}
use panuti.Nib.Normal.{Handled, handled, codes, keycode_escape}
use panuti.Nib.File.{Disk, Answers, Saved, save}
use panuti.Nib.Command.{
  same_text, Turn, turn, swnorm, swnorm_all, append_all, line_or, unknown, save_and, prcc,
  with_command, handin_command,
}
use panuti.Nib.Soundness.{IsSound, Sound, sound, Sound-if, set_errmsg-IsSound}

with_errormsg :
    (e : Editor) (l : Line) (show : Bool)
    → IsSound e
    → IsLine l
    → IsSound (record e { errormsg = l; show_errmsg = show })
with_errormsg e l show ok l_ok = record {
  rows_ok = ok.rows_ok;
  y_lt = ok.y_lt;
  errmsg_ok = l_ok;
  command_ok = ok.command_ok;
}

with_line :
    (e : Editor) (l : Line) (m : Mode)
    → IsSound e
    → IsLine l
    → IsSound (record e { command = l; mode = m })
with_line e l m ok l_ok = record {
  rows_ok = ok.rows_ok;
  y_lt = ok.y_lt;
  errmsg_ok = ok.errmsg_ok;
  command_ok = l_ok;
}

append_all-IsLine :
    (room : ℕ → Bool) (l : Line) (s : List ℕ) → IsLine l → IsLine (append_all room l s)
unfolding append_all
append_all-IsLine room l [] ok = ok
append_all-IsLine room l (c ∷ cs) ok =
    go (line_append room l c) (line_append-Holds room l c ok)
      (λ l' is. append_all-IsLine room l' cs is)
  where
    go :
        (o : Option Line)
        → Holds room (l.string ++ c ∷ []) o
        → ((l' : Line) → IsLine l' → IsLine (append_all room l' cs))
        → IsLine (elim o as (λ _. Line) [ none ↦ l | some l' ↦ append_all room l' cs ])
    go none h rest = ok
    go (some l') (held same pos is) rest = rest l' is

line_or-IsLine :
    {room : ℕ → Bool} (s : List ℕ) (l : Line) (o : Option Line)
    → IsLine l
    → Holds room s o
    → IsLine (line_or l o)
line_or-IsLine s l none ok h = ok
line_or-IsLine s l (some l') ok (held same pos is) = is

unknown-IsSound : (room : ℕ → Bool) (e : Editor) → IsSound e → IsSound (unknown room e)
unknown-IsSound room e ok =
    let set_ok = line_set-Holds room e.errormsg (codes "command \"") ok.errmsg_ok.cap_le in
    let start_ok =
      line_or-IsLine _ e.errormsg (line_set room e.errormsg (codes "command \"")) ok.errmsg_ok
        set_ok in
    with_errormsg e _ true ok (
      append_all-IsLine room _ (codes "\" is not recognized")
        (append_all-IsLine room _ e.command.string start_ok))

IsSound-if : (b : Bool) (x y : Editor) → IsSound x → IsSound y → IsSound (if b then x else y)
IsSound-if true x y h k = h
IsSound-if false x y h k = k

-- A turn that leaves a sound editor.
pub data SoundTurn : Turn → Type 0 where
  sound_turn : {h : Handled} {d : Disk} → Sound h → SoundTurn (turn h d)

SoundTurn-if : (b : Bool) {x y : Turn} → SoundTurn x → SoundTurn y → SoundTurn (if b then x else y)
SoundTurn-if true x y = x
SoundTurn-if false x y = y

save_and-SoundTurn :
    (room : ℕ → Bool) (e : Editor) (s : Saved) (hc : ℕ)
    → IsSound e
    → SoundTurn (save_and room e s hc)
save_and-SoundTurn room e s hc ok = elim (Bool-cases s.ok) [
  | inl f ↦ rw f (
      sound_turn (
        sound (record {
          rows_ok = ok.rows_ok;
          y_lt = ok.y_lt;
          errmsg_ok = ok.errmsg_ok;
          command_ok = ok.command_ok;
        })))
  | inr f ↦
      rw f (sound_turn (sound (set_errmsg-IsSound room e (codes "could not save the file") ok)))
]

prcc-SoundTurn :
    (room : ℕ → Bool) (a : Answers) (e : Editor) (d : Disk)
    → IsSound e
    → SoundTurn (prcc room a e d)
unfolding prcc
prcc-SoundTurn room a e d ok =
    let refused = set_errmsg-IsSound room e (codes "unsaved changes, use \":q!\" to override") ok in
    let s = e.command.string in
    let quit : SoundTurn (
        turn
          (if e.dirty
            then handled (set_errmsg room e (codes "unsaved changes, use \":q!\" to override")) 2
            else handled e 1)
          d) =
      sound_turn (Sound-if e.dirty (sound refused) (sound ok)) in
    SoundTurn-if (length s == 0) (sound_turn (sound ok)) (
      SoundTurn-if (same_text s (codes "q")) quit (
        SoundTurn-if (same_text s (codes "w")) (save_and-SoundTurn room e (save a e d) 0 ok) (
          SoundTurn-if (same_text s (codes "wq")) (save_and-SoundTurn room e (save a e d) 1 ok) (
            SoundTurn-if (same_text s (codes "q!")) (sound_turn (sound ok))
              (sound_turn (sound (unknown-IsSound room e ok)))))))

swnorm_all-SoundTurn : (t : Turn) → SoundTurn t → SoundTurn (swnorm_all t)
swnorm_all-SoundTurn t (sound_turn (sound {e} ok)) =
    sound_turn (sound (with_line e line_init em_normal ok line_init-IsLine))

with_command-Sound :
    (room : ℕ → Bool) (e : Editor) (s : List ℕ) (o : Option Line)
    → IsSound e
    → Holds room s o
    → Sound (with_command room e o)
with_command-Sound room e s none ok h = sound (set_errmsg-IsSound room e (codes "out of memory") ok)
with_command-Sound room e s (some l) ok (held same pos is) = sound (with_line e l e.mode ok is)

line_backspace-IsLine : (l : Line) → IsLine l → IsLine (line_backspace l)
line_backspace-IsLine l ok = elim (Bool-cases (length l.string == 0)) [
  | inl f ↦ rw f ok
  | inr f ↦ rw f (line_backspace_at-IsLine l (length l.string - 1) ok)
]

pub handin_command-SoundTurn :
    (room : ℕ → Bool) (a : Answers) (e : Editor) (d : Disk) (kp : Packet)
    → IsSound e
    → SoundTurn (handin_command room a e d kp)
unfolding handin_command
handin_command-SoundTurn room a e d kp e_ok =
    let h : Editor = record e { show_errmsg = false } in
    let ok : IsSound h = with_errormsg e e.errormsg false e_ok e_ok.errmsg_ok in
    let c = to_ascii kp in
    let back : IsSound (record h { command = line_backspace h.command }) =
      with_line h (line_backspace h.command) h.mode ok
        (line_backspace-IsLine h.command ok.command_ok) in
    let leave : IsSound (swnorm h) = with_line h line_init em_normal ok line_init-IsLine in
    SoundTurn-if (kp.keycode == keycode_escape) (sound_turn (sound leave)) (
      SoundTurn-if (kp.keycode == keycode_enter)
        (swnorm_all-SoundTurn _ (prcc-SoundTurn room a h d ok))
        (SoundTurn-if (kp.keycode == keycode_backspace)
          (sound_turn (sound (IsSound-if (length h.command.string == 0) _ _ leave back)))
          (SoundTurn-if (not (c == 0))
            (sound_turn (
              with_command-Sound room h _ (line_append room h.command c) ok
                (line_append-Holds room h.command c ok.command_ok)))
            (sound_turn (sound ok)))))
