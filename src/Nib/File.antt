-- ===== src/Nib/File.antt =====
-- Loading and saving in nib. What the file system answers is a parameter.
pub mod Saving
pub mod Success
pub mod Loading
use panuti.Base.{
  ℕ, zero, suc, ◌+◌, ◌-◌, Bool, true, false, not, ◌&&◌, ◌||◌, List, [], ◌∷◌, ◌++◌, Option, none,
  some, length, set, take, drop, min, ltb, leb, ◌==◌, if◌then◌else◌,
}
use panuti.Nib.{Line, Editor, line_init, line_set, line_new_at, line_at}

-- The file, and the file with ".ntmp" behind its name; `none` is no file.
pub record Disk : Type 0 where
  pub file : Option (List ℕ)
  pub tmp : Option (List ℕ)

-- The answer of a rename onto a file: it works, it fails and keeps the file, or it fails when the file's
-- name has been taken away already.
pub data Rename : Type 0 where
  replaces keeps loses : Rename

-- The answers of the calls of one `save`, whether each one works; a write takes so many bytes, and 0 is an error.
pub record Answers : Type 0 where
  pub room : Bool
  pub mkfile : Bool
  pub opens : Bool
  pub resizes : Bool
  pub writes : List ℕ
  pub renames : Rename
  pub unlinks : Bool

-- The writes so far: the answers that are left, what is in the file, and whether all of them worked.
pub record Written : Type 0 where
  pub writes : List ℕ
  pub bytes : List ℕ
  pub ok : Bool

-- `write_all`, behind the bytes so far; an answer that is not there is an error.
unfoldable pub write_all : (writes bytes new : List ℕ) → Written
write_all [] bytes new = record { writes = []; bytes = bytes; ok = length new == 0 }
write_all (w ∷ ws) bytes new =
    let rest = write_all ws (bytes ++ take w new) (drop w new) in
    if length new == 0
    then record { writes = w ∷ ws; bytes = bytes; ok = true }
    else if w == 0
    then record { writes = ws; bytes = bytes; ok = false }
    else rest

-- What is written behind a row.
abbrev pub newline_behind : (trailing_nl : Bool) → List Line → List ℕ
newline_behind trailing_nl [] = if trailing_nl then 10 ∷ [] else []
newline_behind trailing_nl (l ∷ ls) = 10 ∷ []

-- The loop of `save` over the rows, from what was written on.
unfoldable pub write_rows : (trailing_nl : Bool) → Written → List Line → Written
write_rows trailing_nl w [] = w
write_rows trailing_nl w (l ∷ ls) =
    let row = write_all w.writes w.bytes l.string in
    let ended = write_all row.writes row.bytes (newline_behind trailing_nl ls) in
    if w.ok then write_rows trailing_nl (if row.ok then ended else row) ls else w

-- The result of `save`.
pub record Saved : Type 0 where
  pub disk : Disk
  pub ok : Bool

abbrev pub is_there : Option (List ℕ) → Bool
is_there none = false
is_there (some bytes) = true

abbrev pub unlinked : Answers → Disk → Saved
unlinked a d = record { disk = record d { tmp = if a.unlinks then none else d.tmp }; ok = false }

-- The end of `save`, from the loop on.
abbrev pub finish_save : Answers → Disk → Written → Saved
finish_save a d w =
    let d' = record d { tmp = some w.bytes } in
    let renamed = elim a.renames as (λ _. Saved) [
      | replaces ↦ record { disk = record { file = some w.bytes; tmp = none }; ok = true }
      | keeps ↦ unlinked a d'
      | loses ↦ unlinked a (record d' { file = none })
    ] in
    if w.ok then renamed else unlinked a d'

abbrev pub saved : Disk → (ok : Bool) → Saved
saved d ok = record { disk = d; ok = ok }

-- `save`; when it answers true the editor is not dirty any more.
unfoldable pub save : Answers → Editor → Disk → Saved
save a e d =
    let made = record d { tmp = if is_there d.tmp then d.tmp else some [] } in
    let empty = record d { tmp = some [] } in
    if not e.dirty && is_there d.file
    then saved d true
    else if not a.room
    then saved d false
    else if not (is_there d.tmp) && not a.mkfile
    then saved d false
    else if not a.opens
    then saved made false
    else if not a.resizes
    then unlinked a made
    else finish_save a empty
        (write_rows e.trailing_nl (record { writes = a.writes; bytes = []; ok = true }) e.lines)

-- `add_line`; a row that finds no room ends the loading.
abbrev pub set_last : Option Editor → Option Line → Option Editor
set_last none l = none
set_last (some e) none = none
set_last (some e) (some l) = some (record e { lines = set e.lines (length e.lines - 1) l })

unfoldable pub add_line : (room : ℕ → Bool) → Editor → List ℕ → Option Editor
add_line room e s = set_last (line_new_at room e (length e.lines)) (line_set room line_init s)

-- The loop of `load` over the bytes, with those of the row so far, and the row behind the last newline.
unfoldable pub load_rows : (room : ℕ → Bool) → Editor → (row bytes : List ℕ) → Option Editor
load_rows room e row [] = if length row == 0 then some e else add_line room e row
load_rows room e row (c ∷ cs) =
    let longer = load_rows room e (row ++ c ∷ []) cs in
    let next = elim (add_line room e row) as (λ _. Option Editor) [
      | none ↦ none
      | some e' ↦ load_rows room e' [] cs
    ] in
    if c == 10 then next else longer

abbrev pub ends_in_newline : List ℕ → Bool
ends_in_newline [] = false
ends_in_newline (c ∷ []) = c == 10
ends_in_newline (c ∷ d ∷ cs) = ends_in_newline (d ∷ cs)

-- At least one row, and whether the last one ends in a newline.
abbrev pub finish_load : (room : ℕ → Bool) → (bytes : List ℕ) → Option Editor → Option Editor
finish_load room bytes none = none
finish_load room bytes (some e) =
    elim (if length e.lines == 0 then add_line room e [] else some e) as (λ _. Option Editor) [
      | none ↦ none
      | some e' ↦ some (record e' { trailing_nl = ends_in_newline bytes })
    ]

-- `load` of a file with these bytes, and of one that is not there; `none` is LOAD_EOOM.
unfoldable pub load_bytes : (room : ℕ → Bool) → Editor → (bytes : List ℕ) → Option Editor
load_bytes room e bytes = finish_load room bytes (load_rows room e [] bytes)

abbrev pub load_new : (room : ℕ → Bool) → Editor → Option Editor
load_new room e = add_line room (record e { trailing_nl = true }) []
