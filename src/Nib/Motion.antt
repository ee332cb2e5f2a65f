-- ===== src/Nib/Motion.antt =====
-- Motions of the normal mode of nib, nib/src/main.c. A row and a column are the answer, or nothing when the motion fails.
use panuti.Base.{
  ℕ, zero, suc, ◌+◌, ◌-◌, Bool, true, false, not, ◌&&◌, ◌||◌, List, [], ◌∷◌, Option, none, some,
  length, get_or, drop, ltb, leb, ◌==◌, if◌then◌else◌,
}
use panuti.Nib.{Line, Editor, line_at, len_at}

-- A row and a column.
pub record Place : Type 0 where
  pub y : ℕ
  pub x : ℕ

abbrev pub place : ℕ → ℕ → Place
place y x = record { y = y; x = x }

abbrev pub is_blank : ℕ → Bool
is_blank c = (c == b' ') || (c == 9)

-- `hinormal_wordch`
abbrev pub wordch : ℕ → Bool
wordch c = not (is_blank c)

-- The loops over the bytes of a word and over the blanks before one: how many there are.
unfoldable pub word_len : List ℕ → ℕ
word_len [] = 0
word_len (c ∷ cs) = let rest = word_len cs in if wordch c then suc rest else 0

unfoldable pub blank_len : List ℕ → ℕ
blank_len [] = 0
blank_len (c ∷ cs) = let rest = blank_len cs in if wordch c then 0 else suc rest

abbrev pub skip_word : List ℕ → (x : ℕ) → ℕ
skip_word s x = x + word_len (drop x s)

abbrev pub skip_blanks : List ℕ → (x : ℕ) → ℕ
skip_blanks s x = x + blank_len (drop x s)

-- The first byte of a word from column `x` of row `y` on; the rows from `y` on are the list.
unfoldable pub find_word : (y x : ℕ) → List Line → Option Place
find_word y x [] = none
find_word y x (l ∷ ls) =
    let later = find_word (y + 1) 0 ls in
    if ltb (skip_blanks l.string x) (length l.string)
    then some (place y (skip_blanks l.string x))
    else later

-- `hinormal_next_word`
unfoldable pub next_word : List Line → Place → Option Place
next_word ls p = find_word p.y (skip_word (line_at ls p.y).string p.x) (drop p.y ls)

-- The first column of the word that has column `x`.
unfoldable pub word_start : List ℕ → (x : ℕ) → ℕ
word_start s zero = zero
word_start s (suc x) =
    let before = word_start s x in if wordch (get_or s x 0) then before else suc x

-- The start of the last word before column `x` of a row.
unfoldable pub prev_in_line : List ℕ → (x : ℕ) → Option ℕ
prev_in_line s zero = none
prev_in_line s (suc x) =
    let before = prev_in_line s x in
    if ltb x (length s) && wordch (get_or s x 0) then some (word_start s x) else before

-- `hinormal_prev_word`
unfoldable pub prev_word : List Line → (y x : ℕ) → Option Place
prev_word ls zero x = elim (prev_in_line (line_at ls 0).string x) as (λ _. Option Place) [
  | none ↦ none
  | some x' ↦ some (place 0 x')
]
prev_word ls (suc y) x = elim (prev_in_line (line_at ls (suc y)).string x) as (λ _. Option Place) [
  | none ↦ prev_word ls y (len_at ls y)
  | some x' ↦ some (place (suc y) x')
]

-- Column `x`, or the last one of the word that goes on behind it.
abbrev pub last_of_word : List ℕ → (x : ℕ) → ℕ
last_of_word s x = x + word_len (drop (x + 1) s)

-- The end of the first word from column `x` of row `y` on.
unfoldable pub find_end : (y x : ℕ) → List Line → Option Place
find_end y x [] = none
find_end y x (l ∷ ls) =
    let later = find_end (y + 1) 0 ls in
    if ltb (skip_blanks l.string x) (length l.string)
    then some (place y (last_of_word l.string (skip_blanks l.string x)))
    else later

-- `hinormal_word_end`
unfoldable pub word_end : List Line → Place → Option Place
word_end ls p =
    let s = (line_at ls p.y).string in
    let on_word = ltb p.y (length ls) && ltb p.x (length s) && wordch (get_or s p.x 0) in
    if on_word && ltb (p.x + 1) (length s) && wordch (get_or s (p.x + 1) 0)
    then some (place p.y (last_of_word s p.x))
    else find_end p.y (if on_word then p.x + 1 else p.x) (drop p.y ls)

-- `motion_t`
pub record Motion : Type 0 where
  pub to : Place
  pub linewise : Bool
  pub inclusive : Bool

abbrev pub moved : (linewise inclusive : Bool) → Option Place → Option Motion
moved linewise inclusive none = none
moved linewise inclusive (some p) =
    some (record { to = p; linewise = linewise; inclusive = inclusive })

-- `hinormal_resolve_motion`
unfoldable pub resolve_motion : Editor → (c : ℕ) → Option Motion
resolve_motion e c =
    let y = e.cur_y in
    let x = e.cur_x in
    let s = (line_at e.lines y).string in
    if c == b'h'
    then moved false false (if x == 0 then none else some (place y (x - 1)))
    else if c == b'l'
    then moved false false (if leb (length s) x then none else some (place y (x + 1)))
    else if c == b'j'
    then moved true false (if leb (length e.lines) (y + 1) then none else some (place (y + 1) x))
    else if c == b'k'
    then moved true false (if y == 0 then none else some (place (y - 1) x))
    else if c == b'0'
    then moved false false (some (place y 0))
    else if c == b'^'
    then moved false false (some (place y (blank_len s)))
    else if c == b'$'
    then moved false false (some (place y (length s)))
    else if c == b'w'
    then moved false false (next_word e.lines (place y x))
    else if c == b'b'
    then moved false false (prev_word e.lines y x)
    else if c == b'e'
    then moved false true (word_end e.lines (place y x))
    else none

-- `range_t`
pub record Range : Type 0 where
  pub from : Place
  pub to : Place
  pub linewise : Bool

abbrev pub before : Place → Place → Bool
before p q = ltb p.y q.y || ((p.y == q.y) && ltb p.x q.x)

abbrev pub range_to : Editor → Motion → Range
range_to e m =
    let here = place e.cur_y e.cur_x in
    let end_x = if m.inclusive then m.to.x + 1 else m.to.x in
    let len = len_at e.lines m.to.y in
    if m.linewise
    then record {
      from = place (if ltb e.cur_y m.to.y then e.cur_y else m.to.y) 0;
      to = place (if ltb e.cur_y m.to.y then m.to.y else e.cur_y) 0;
      linewise = true;
    }
    else if before m.to here
    then record { from = m.to; to = here; linewise = false }
    else record {
      from = here;
      to = place m.to.y (if ltb len end_x then len else end_x);
      linewise = false;
    }

-- `hinormal_motion_range`
abbrev pub motion_range : Editor → Option Motion → Option Range
motion_range e none = none
motion_range e (some m) = some (range_to e m)
