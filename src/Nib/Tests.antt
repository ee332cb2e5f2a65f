-- ===== src/Nib/Tests.antt =====
-- An editor with the rows "ab" and "c", whose cursor is at the start of the second one.
use panuti.Line.Ascii.{Packet, keycode_enter, keycode_backspace}
use panuti.Base.{ℕ, ◌≤◌, ◌≡◌, refl, ◌⊎◌, inr, Bool, true, false, List, [], ◌∷◌, none, some, arith}
use panuti.Nib.{
  Line, Editor, Mode, em_normal, em_insert, line_init, line_reserve, grow_cap, line_set,
  line_new_at,
}
use panuti.Nib.Memory.{IsLine, line_init-IsLine}
use panuti.Nib.Normal.{handled, crash}
use panuti.Nib.Insert.{handin_insert}
use panuti.Nib.Typing.{IsEditor, Edited, edited, before_cursor}
use panuti.Nib.Typing.Keys.{handin_insert-Edited}
use panuti.Nib.Command.{step}
use panuti.Nib.Soundness.Steps.{IsShown, Lives, step-Lives}
use panuti.Nib.File.{Disk, Answers, replaces, save, write_all, write_rows, load_bytes}
use panuti.Nib.File.Success.{Complies, save-Complies}
use panuti.Nib.File.Loading.{SavesBack, load_bytes-SavesBack}

abbrev line : List ℕ → Line
line s = record { string = s; cap = 16 }

abbrev editor : List Line → (y x : ℕ) → Mode → Editor
editor ls y x mode = record {
  lines = ls;
  capl = 64;
  vup_x = 0;
  vup_y = 0;
  cur_x = x;
  cur_y = y;
  insert_x = x;
  mode = mode;
  errormsg = line_init;
  show_errmsg = false;
  command = line_init;
  pending_op = 0;
  dirty = false;
  trailing_nl = true;
}

abbrev two_rows : List Line
two_rows = line (b'a' ∷ b'b' ∷ []) ∷ line (b'c' ∷ []) ∷ []

abbrev always : ℕ → Bool
always n = true

abbrev key : (keycode : ℕ) → Packet
key keycode = record {
  keycode = keycode;
  pressed = true;
  shift = false;
  ctrl = false;
  caps_lock = false;
}

abbrev answers : Answers
answers = record {
  room = true;
  mkfile = true;
  opens = true;
  resizes = true;
  writes = 1 ∷ 1 ∷ 5 ∷ 1 ∷ 1 ∷ 1 ∷ [];
  renames = replaces;
  unlinks = true;
}

abbrev old_disk : Disk
old_disk = record { file = some (b'z' ∷ []); tmp = none }

line-IsLine : (c : ℕ) → IsLine (line (c ∷ []))
line-IsLine c = record { cap_le = omega arith; len_le = omega arith; fits = inr (omega arith) }

two_rows-IsEditor : (mode : Mode) → IsEditor (editor two_rows 1 0 mode)
two_rows-IsEditor mode = record {
  rows_ok = (
    record { cap_le = omega arith; len_le = omega arith; fits = inr (omega arith) },
    (line-IsLine b'c', tt),
  );
  y_lt = omega arith;
  x_le = omega arith;
  errmsg_ok = line_init-IsLine;
  command_ok = line_init-IsLine;
}

two_rows-IsShown : IsShown (editor two_rows 1 0 em_insert)
two_rows-IsShown = record {
  ok = two_rows-IsEditor em_insert;
  top_le = omega arith;
  row_lt = omega arith;
  left_le = omega arith;
  col_lt = omega arith;
}

-- Backspace joins the rows.
joined_rows :
    handin_insert always (editor two_rows 1 0 em_insert) (key keycode_backspace)
    ≡ handled
        (record (editor (line (b'a' ∷ b'b' ∷ b'c' ∷ []) ∷ []) 0 2 em_insert) { dirty = true })
        0
unfolding handin_insert line_reserve
joined_rows = refl

-- Enter in the row that "o" opens writes through a null pointer.
opened_faults :
    handin_insert always
      (editor (line (b'a' ∷ []) ∷ line_init ∷ []) 1 0 em_insert)
      (key keycode_enter)
    ≡ crash
unfolding handin_insert line_set line_reserve line_new_at grow_cap
opened_faults = refl

saved_text :
    save answers (record (editor two_rows 1 0 em_normal) { dirty = true }) old_disk ≡ record {
      disk = record { file = some (b'a' ∷ b'b' ∷ 10 ∷ b'c' ∷ 10 ∷ []); tmp = none };
      ok = true;
    }
unfolding save write_all write_rows
saved_text = refl

handin_insert-Edited_example :
    Edited always
      (editor two_rows 1 0 em_insert)
      (edited (key keycode_backspace) (before_cursor (editor two_rows 1 0 em_insert)))
      (handin_insert always (editor two_rows 1 0 em_insert) (key keycode_backspace))
handin_insert-Edited_example =
    handin_insert-Edited always (editor two_rows 1 0 em_insert) (key keycode_backspace)
      (two_rows-IsEditor em_insert) refl

step-Lives_example :
    Lives
      (editor two_rows 1 0 em_insert)
      (step always answers (editor two_rows 1 0 em_insert) old_disk (key keycode_enter))
step-Lives_example =
    step-Lives always answers (editor two_rows 1 0 em_insert) old_disk (key keycode_enter)
      two_rows-IsShown

answers-Complies : (n : ℕ) → n ≤ 6 → Complies answers n
answers-Complies n le = record {
  room_ok = refl;
  mkfile_ok = refl;
  opens_ok = refl;
  resizes_ok = refl;
  renames_ok = refl;
  take_bytes =
      (omega arith, (omega arith, (omega arith, (omega arith, (omega arith, (omega arith, tt))))));
  enough = omega (arith, le);
}

load_bytes-SavesBack_example :
    SavesBack always
      (b'a' ∷ 10 ∷ b'b' ∷ [])
      answers
      old_disk
      (load_bytes always (editor [] 0 0 em_normal) (b'a' ∷ 10 ∷ b'b' ∷ []))
load_bytes-SavesBack_example =
    load_bytes-SavesBack always answers (editor [] 0 0 em_normal) old_disk (b'a' ∷ 10 ∷ b'b' ∷ [])
      refl (answers-Complies 3 (omega arith))

save-Complies_example :
    ((save answers (record (editor two_rows 1 0 em_normal) { dirty = true }) old_disk).ok ≡ true)
    × (((true ≡ false) × (true ≡ true))
        ⊎ ((save answers
              (record (editor two_rows 1 0 em_normal) { dirty = true })
              old_disk).disk.file
            ≡ some (b'a' ∷ b'b' ∷ 10 ∷ b'c' ∷ 10 ∷ [])))
save-Complies_example =
    save-Complies answers (record (editor two_rows 1 0 em_normal) { dirty = true }) old_disk
      (answers-Complies 5 (omega arith))
