-- ===== src/Nib/File/Loading.antt =====
-- The rows that `load` of nib/src/main.c reads, and what `save` writes of them.
use mathlib.Core.List.{append-nil, append_assoc, map-append}
use panuti.Base.{
  ℕ, suc, ◌+◌, ◌-◌, ◌/◌, ◌≤◌, ◌<◌, ◌≡◌, refl, sym, ap, ap₂, subst, ◌∙◌, inl, inr, Bool, true, false,
  List, [], ◌∷◌, ◌++◌, map, Option, none, some, arith, length, length-append, set, ◌==◌,
  if◌then◌else◌, Bool-cases,
}
use panuti.Nib.{int_max, Line, Editor, line_init, line_set, line_new_at, insert_line}
use panuti.Nib.Memory.{Holds, held, lacks, no_memory, too_long, line_set-Holds}
use panuti.Nib.Typing.Between.{Opened, opened, not_opened, line_new_at-Opened}
use panuti.Nib.File.{
  Disk, Answers, set_last, add_line, load_rows, ends_in_newline, finish_load, load_bytes, save,
}
use panuti.Nib.Typing.{no_memory_to_grow, many_rows}
use panuti.Nib.File.Saving.{text_of}
use panuti.Nib.File.Success.{Complies, save-Complies}

-- The rows of some bytes behind those of the row so far.
abbrev pub rows_of : (row bytes : List ℕ) → List (List ℕ)
rows_of [] [] = []
rows_of (c ∷ row) [] = (c ∷ row) ∷ []
rows_of row (c ∷ cs) = if c == 10 then row ∷ rows_of [] cs else rows_of (row ++ c ∷ []) cs

abbrev string_of : Line → List ℕ
string_of l = l.string

-- The text of some strings.
abbrev text_of_strings : (trailing_nl : Bool) → List (List ℕ) → List ℕ
text_of_strings t [] = []
text_of_strings t (s ∷ []) = s ++ (if t then 10 ∷ [] else [])
text_of_strings t (s ∷ r ∷ ss) = s ++ 10 ∷ text_of_strings t (r ∷ ss)

text_of_lem : (t : Bool) (ls : List Line) → text_of t ls ≡ text_of_strings t (map string_of ls)
text_of_lem t [] = refl
text_of_lem t (l ∷ []) = ap (λ s. l.string ++ s) (append-nil (if t then 10 ∷ [] else []))
text_of_lem t (l ∷ m ∷ ls) = ap (λ s. l.string ++ 10 ∷ s) (text_of_lem t (m ∷ ls))

-- Something is read from some bytes.
data HasRow : List (List ℕ) → Type 0 where
  has_row : {s : List ℕ} {ss : List (List ℕ)} → HasRow (s ∷ ss)

rows_of_last : (row : List ℕ) (c : ℕ) → HasRow (rows_of (row ++ c ∷ []) [])
rows_of_last [] c = has_row
rows_of_last (r ∷ row) c = has_row

rows_of-HasRow : (row : List ℕ) (c : ℕ) (cs : List ℕ) → HasRow (rows_of row (c ∷ cs))
rows_of-HasRow row c [] = elim (Bool-cases (c == 10)) [
  | inl f ↦ rw f has_row
  | inr f ↦ rw f (rows_of_last row c)
]
rows_of-HasRow row c (d ∷ cs) = elim (Bool-cases (c == 10)) [
  | inl f ↦ rw f has_row
  | inr f ↦ rw f (rows_of-HasRow (row ++ c ∷ []) d cs)
]

text_of_strings-cons :
    (t : Bool) (s : List ℕ) (ss : List (List ℕ))
    → HasRow ss
    → text_of_strings t (s ∷ ss) ≡ s ++ 10 ∷ text_of_strings t ss
text_of_strings-cons t s ss has_row = refl

-- The rows with newlines between them, and one behind them if the bytes end in one, are the bytes.
rows_of_text :
    (row bytes : List ℕ)
    → text_of_strings (ends_in_newline bytes) (rows_of row bytes) ≡ row ++ bytes
rows_of_text [] [] = refl
rows_of_text (r ∷ row) [] = refl
rows_of_text row (c ∷ []) = elim (Bool-cases (c == 10)) [
  | inl f ↦ let ten : c ≡ 10 = ground arith in rw f (ap (λ d. row ++ d ∷ []) (sym ten))
  | inr f ↦ rw f (rows_of_text (row ++ c ∷ []) [] ∙ append-nil (row ++ c ∷ []))
]
rows_of_text row (c ∷ d ∷ cs) = elim (Bool-cases (c == 10)) [
  | inl f ↦
      let ten : c ≡ 10 = ground arith in
      rw f (
        text_of_strings-cons (ends_in_newline (d ∷ cs)) row (rows_of [] (d ∷ cs))
          (rows_of-HasRow [] d cs)
        ∙ ap₂ (λ e r. row ++ e ∷ r) (sym ten) (rows_of_text [] (d ∷ cs)))
  | inr f ↦ rw f (rows_of_text (row ++ c ∷ []) (d ∷ cs) ∙ append_assoc row (c ∷ []) (d ∷ cs))
]

insert_line-last : (ls : List Line) (b : Line) → insert_line (length ls) b ls ≡ ls ++ b ∷ []
insert_line-last [] b = refl
insert_line-last (l ∷ ls) b = ap (λ s. l ∷ s) (insert_line-last ls b)

set-last : (ls : List Line) (b l : Line) → set (ls ++ b ∷ []) (length ls) l ≡ ls ++ l ∷ []
set-last [] b l = refl
set-last (m ∷ ls) b l = ap (λ s. m ∷ s) (set-last ls b l)

-- Why a file of so many bytes is not loaded: realloc has no room for some size, or it has as many bytes as
-- there are rows at most.
pub data TooMuch (room : ℕ → Bool) (n : ℕ) : Type 0 where
  no_memory_to_load : (size : ℕ) → room size ≡ false → TooMuch room n
  too_large : int_max / 24 ≤ n → TooMuch room n

-- Rows are loaded, or there is no room.
data Loaded (room : ℕ → Bool) (n : ℕ) (rows : List (List ℕ)) : Option Editor → Type 0 where
  loaded : {e : Editor} → map string_of e.lines ≡ rows → Loaded room n rows (some e)
  no_room_for : TooMuch room n → Loaded room n rows none

length-rows : (ls : List Line) → length (map string_of ls) ≡ length ls
length-rows [] = refl
length-rows (l ∷ ls) = ap suc (length-rows ls)

add_line-Loaded :
    (room : ℕ → Bool) (n : ℕ) (e : Editor) (s : List ℕ)
    → length e.lines + length s ≤ n
    → Loaded room n (map string_of e.lines ++ s ∷ []) (add_line room e s)
unfolding add_line
add_line-Loaded room n e s le =
    go (line_new_at room e (length e.lines)) (line_set room line_init s)
      (line_new_at-Opened room e (length e.lines) (omega arith))
      (line_set-Holds room line_init s (omega arith))
  where
    go :
        (o : Option Editor) (l : Option Line)
        → Opened room e (length e.lines) o
        → Holds room s l
        → Loaded room n (map string_of e.lines ++ s ∷ []) (set_last o l)
    go none l (not_opened (no_memory_to_grow size denied)) k =
        no_room_for (no_memory_to_load size denied)
    go none l (not_opened (many_rows all most)) k = no_room_for (too_large (ground (arith, le)))
    go (some d) none h (lacks (no_memory size denied)) = no_room_for (no_memory_to_load size denied)
    go (some d) none h (lacks (too_long lt)) = no_room_for (too_large (omega (arith, le)))
    go (some d) (some l) (opened {c}) (held same pos is) =
        let last = insert_line-last e.lines line_init in
        let at : length (insert_line (length e.lines) line_init e.lines) - 1 ≡ length e.lines =
          ap (λ ls. length ls - 1) last ∙ omega (arith, length-append e.lines (line_init ∷ [])) in
        loaded (
          ap (map string_of) (ap₂ (λ ls i. set ls i l) last at ∙ set-last e.lines line_init l)
          ∙ map-append string_of e.lines (l ∷ [])
          ∙ ap (λ r. map string_of e.lines ++ r ∷ []) same)

-- A row, and the rows behind it.
row-Loaded :
    (room : ℕ → Bool) (n : ℕ) (before behind : List (List ℕ)) (row : List ℕ)
    (k : Editor → Option Editor) (o : Option Editor)
    → Loaded room n (before ++ row ∷ []) o
    → ((e : Editor)
        → map string_of e.lines ≡ before ++ row ∷ []
        → Loaded room n (map string_of e.lines ++ behind) (k e))
    → Loaded room n
        (before ++ row ∷ behind)
        (elim o as (λ _. Option Editor) [ none ↦ none | some e' ↦ k e' ])
row-Loaded room n before behind row k none (no_room_for why) rest = no_room_for why
row-Loaded room n before behind row k (some e') (loaded same) rest =
    subst (λ r. Loaded room n r (k e'))
      (ap (λ r. r ++ behind) same ∙ append_assoc before (row ∷ []) behind) (rest e' same)

-- From an editor that has some rows.
load_rows-Loaded :
    (room : ℕ → Bool) (n : ℕ) (e : Editor) (row bytes : List ℕ)
    → length e.lines + length row + length bytes ≤ n
    → Loaded room n (map string_of e.lines ++ rows_of row bytes) (load_rows room e row bytes)
unfolding load_rows
load_rows-Loaded room n e [] [] le = loaded (sym (append-nil (map string_of e.lines)))
load_rows-Loaded room n e (r ∷ row) [] le =
    let f : (suc (length row) == 0) ≡ false = ground arith in
    rw f (add_line-Loaded room n e (r ∷ row) (omega (arith, le)))
load_rows-Loaded room n e row (c ∷ cs) le = elim (Bool-cases (c == 10)) [
  | inl f ↦ rw f (
      row-Loaded room n (map string_of e.lines) (rows_of [] cs) row (λ e'. load_rows room e' [] cs)
        (add_line room e row) (add_line-Loaded room n e row (omega (arith, le)))
        (λ e' same.
          let rows : length e'.lines ≡ length e.lines + 1 = omega (
            arith,
            length-rows e'.lines,
            length-rows e.lines,
            ap length same,
            length-append (map string_of e.lines) (row ∷ []),
          ) in
          load_rows-Loaded room n e' [] cs (omega (arith, le))))
  | inr f ↦
      rw f (
        load_rows-Loaded room n e (row ++ c ∷ []) cs
          (omega (arith, le, length-append row (c ∷ []))))
]

-- Rows whose text is some bytes, or no room for them.
pub data Reads (room : ℕ → Bool) (bytes : List ℕ) : Option Editor → Type 0 where
  reads :
      {e : Editor}
      → 0 < length e.lines
      → text_of e.trailing_nl e.lines ≡ bytes
      → Reads room bytes (some e)
  reads_nothing : TooMuch room (length bytes) → Reads room bytes none

some_lines : (ls : List Line) → HasRow (map string_of ls) → 0 < length ls
some_lines [] h = elim h [ ]
some_lines (l ∷ ls) h = omega arith

no_lines : (ls : List Line) → map string_of ls ≡ [] → length ls ≡ 0
no_lines [] same = refl
no_lines (l ∷ ls) same =
    elim (subst HasRow same (has_row {s = l.string} {ss = map string_of ls})) [ ]

-- The rows, with what is behind the last one.
ends-Reads :
    (room : ℕ → Bool) (bytes : List ℕ) (rows : List (List ℕ)) (o : Option Editor)
    → Loaded room (length bytes) rows o
    → HasRow rows
    → text_of_strings (ends_in_newline bytes) rows ≡ bytes
    → Reads room bytes (elim o as (λ _. Option Editor) [
      | none ↦ none
      | some e' ↦ some (record e' { trailing_nl = ends_in_newline bytes })
    ])
ends-Reads room bytes rows none (no_room_for why) has same = reads_nothing why
ends-Reads room bytes rows (some e) (loaded lines_e) has same =
    reads (some_lines e.lines (subst HasRow (sym lines_e) has)) (
      text_of_lem (ends_in_newline bytes) e.lines
      ∙ ap (text_of_strings (ends_in_newline bytes)) lines_e
      ∙ same)

finish_load-Reads :
    (room : ℕ → Bool) (bytes : List ℕ) (o : Option Editor)
    → Loaded room (length bytes) (rows_of [] bytes) o
    → Reads room bytes (finish_load room bytes o)
finish_load-Reads room bytes none (no_room_for why) = reads_nothing why
finish_load-Reads room [] (some e) (loaded same) =
    let z = no_lines e.lines same in
    let f : (length e.lines == 0) ≡ true = ground (arith, z) in
    rw (finish_load, f)
      (ends-Reads room [] ([] ∷ []) (add_line room e [])
        (subst (λ r. Loaded room 0 (r ++ [] ∷ []) (add_line room e [])) same
          (add_line-Loaded room 0 e [] (omega (arith, z))))
        has_row refl)
finish_load-Reads room (c ∷ cs) (some e) (loaded same) =
    let has = rows_of-HasRow [] c cs in
    let pos = some_lines e.lines (subst HasRow (sym same) has) in
    let f : (length e.lines == 0) ≡ false = ground (arith, pos) in
    rw (finish_load, f)
      (ends-Reads room (c ∷ cs) (rows_of [] (c ∷ cs)) (some e) (loaded same) has
        (rows_of_text [] (c ∷ cs)))

pub load_bytes-Reads :
    (room : ℕ → Bool) (e : Editor) (bytes : List ℕ)
    → e.lines ≡ []
    → Reads room bytes (load_bytes room e bytes)
unfolding load_bytes
load_bytes-Reads room e bytes empty = finish_load-Reads room bytes (load_rows room e [] bytes) (
    subst
      (λ ls.
        Loaded room (length bytes) (map string_of ls ++ rows_of [] bytes)
          (load_rows room e [] bytes))
      empty (load_rows-Loaded room (length bytes) e [] bytes (omega (arith, ap length empty))))

-- The rows were loaded, and a save of them gives the file these bytes; or they were too much.
abbrev pub SavesBack :
    (room : ℕ → Bool) → (bytes : List ℕ) → Answers → Disk → Option Editor → Type 0
SavesBack room bytes a d none = TooMuch room (length bytes)
SavesBack room bytes a d (some e) =
    let s = save a (record e { dirty = true }) d in
    (0 < length e.lines) × (s.ok ≡ true) × (s.disk.file ≡ some bytes)

read_back :
    {o : Option Editor} (room : ℕ → Bool) (bytes : List ℕ) (a : Answers) (d : Disk)
    → Complies a (length bytes)
    → Reads room bytes o
    → SavesBack room bytes a d o
read_back room bytes a d c (reads_nothing why) = why
read_back room bytes a d c (reads {e} some_rows same) =
    let e' : Editor = record e { dirty = true } in
    let (ok, left) = save-Complies a e' d (subst (λ b. Complies a (length b)) (sym same) c) in
    (
      some_rows,
      ok,
      elim left [
        | inl (is_clean, there) ↦ absurd (ground (arith, is_clean))
        | inr text ↦ text ∙ ap some same
      ],
    )

-- When the bytes of a file are loaded into an editor without rows, they are loaded into one row at least, unless realloc
-- has no room for some size or the file has 89478485 bytes or more. A save of the rows that were loaded, over a file
-- system that does what it is asked to, answers true and gives the file the same bytes, the newline at its end or not
-- included.
pub load_bytes-SavesBack :
    (room : ℕ → Bool) (a : Answers) (e : Editor) (d : Disk) (bytes : List ℕ)
    → e.lines ≡ []
    → Complies a (length bytes)
    → SavesBack room bytes a d (load_bytes room e bytes)
load_bytes-SavesBack room a e d bytes empty c =
    read_back room bytes a d c (load_bytes-Reads room e bytes empty)
