-- ===== src/Nib.antt =====
-- The editor nib, nib/src/main.c: its lines and its state. A line is its bytes, with the capacity of its memory, which
-- is 0 as long as its pointer is null. Which sizes realloc has room for is a parameter.
pub mod Motion
pub mod Normal
pub mod Insert
pub mod Command
pub mod File
pub mod Rows
pub mod Text
pub mod Memory
pub mod Bytes
pub mod Typing
pub mod Ranges
pub mod Deletion
pub mod Soundness
pub mod Operator
mod Tests
use panuti.Base.{
  ℕ, zero, suc, ◌+◌, ◌-◌, ◌*◌, ◌/◌, ◌^◌, Bool, true, false, not, ◌&&◌, ◌||◌, List, [], ◌∷◌, ◌++◌,
  Option, none, some, length, get_or, set, take, drop, ltb, leb, ◌==◌, if◌then◌else◌,
}

abbrev pub int_max : ℕ
int_max = 2 ^ 31 - 1

-- `LINE_LEN_MAX`
abbrev pub line_len_max : ℕ
line_len_max = int_max - 8

-- `line_t`
pub record Line : Type 0 where
  pub string : List ℕ
  pub cap : ℕ

-- `line_init`
abbrev pub line_init : Line
line_init = record { string = []; cap = 0 }

-- The loop of `line_reserve`, which doubles; a round adds at least one.
unfoldable pub grow_cap : ℕ → (ncap cap : ℕ) → ℕ
grow_cap zero ncap cap = ncap
grow_cap (suc fuel) ncap cap =
    let doubled = grow_cap fuel (ncap * 2) cap in
    if leb cap ncap then ncap else if ltb (int_max / 2) ncap then cap else doubled

abbrev pub new_cap : (old cap : ℕ) → ℕ
new_cap old cap = grow_cap cap (if old == 0 then 16 else old) cap

-- `line_reserve`; `none` is false.
unfoldable pub line_reserve : (room : ℕ → Bool) → Line → (cap : ℕ) → Option Line
line_reserve room l cap =
    if leb cap l.cap
    then some l
    else if room (new_cap l.cap cap)
    then some (record l { cap = new_cap l.cap cap })
    else none

-- What a function does with the line that was reserved.
abbrev pub with_string : Option Line → List ℕ → Option Line
with_string none s = none
with_string (some l) s = some (record l { string = s })

-- `line_set`
unfoldable pub line_set : (room : ℕ → Bool) → Line → List ℕ → Option Line
line_set room l s =
    if ltb line_len_max (length s) then none else with_string (line_reserve room l (length s + 1)) s

-- `line_append`
unfoldable pub line_append : (room : ℕ → Bool) → Line → (c : ℕ) → Option Line
line_append room l c =
    if leb line_len_max (length l.string)
    then none
    else with_string (line_reserve room l (length l.string + 2)) (l.string ++ c ∷ [])

abbrev pub put_at : (pos c : ℕ) → List ℕ → List ℕ
put_at pos c s = take pos s ++ c ∷ drop pos s

-- `line_insert`
unfoldable pub line_insert : (room : ℕ → Bool) → Line → (pos c : ℕ) → Option Line
line_insert room l pos c =
    let at = if ltb (length l.string) pos then length l.string else pos in
    if leb line_len_max (length l.string)
    then none
    else with_string (line_reserve room l (length l.string + 2)) (put_at at c l.string)

abbrev pub cut_at : (pos : ℕ) → List ℕ → List ℕ
cut_at pos s = take pos s ++ drop (pos + 1) s

-- `line_backspace_at`, which changes nothing when it answers false.
unfoldable pub line_backspace_at : Line → (pos : ℕ) → Line
line_backspace_at l pos =
    if leb (length l.string) pos then l else record l { string = cut_at pos l.string }

-- `line_backspace`
abbrev pub line_backspace : Line → Line
line_backspace l = if length l.string == 0 then l else line_backspace_at l (length l.string - 1)

pub data Mode : Type 0 where
  em_normal em_command em_insert : Mode

-- `editor_global_t` without the path; `capl` is the capacity of `lines`.
pub record Editor : Type 0 where
  pub lines : List Line
  pub capl : ℕ
  pub vup_x : ℕ
  pub vup_y : ℕ
  pub cur_x : ℕ
  pub cur_y : ℕ
  pub insert_x : ℕ
  pub mode : Mode
  pub errormsg : Line
  pub show_errmsg : Bool
  pub command : Line
  pub pending_op : ℕ
  pub dirty : Bool
  pub trailing_nl : Bool

-- The line of a row; the code reads none past the last.
abbrev pub line_at : List Line → (y : ℕ) → Line
line_at ls y = get_or ls y line_init

abbrev pub len_at : List Line → (y : ℕ) → ℕ
len_at ls y = length (line_at ls y).string

-- The new capacity of `line_new_at`; an element takes 12 bytes.
abbrev pub new_capl : (capl : ℕ) → ℕ
new_capl capl = if capl == 0 then 64 else if ltb (int_max / 2) capl then int_max else capl * 2

abbrev pub reserve_lines : (room : ℕ → Bool) → Editor → Option Editor
reserve_lines room e =
    if not (length e.lines == e.capl)
    then some e
    else if e.capl == int_max
    then none
    else if ltb (int_max / 12) (new_capl e.capl)
    then none
    else if room (new_capl e.capl * 12)
    then some (record e { capl = new_capl e.capl })
    else none

abbrev pub insert_line : (at : ℕ) → Line → List Line → List Line
insert_line at l ls = take at ls ++ l ∷ drop at ls

abbrev pub with_line_at : (at : ℕ) → Option Editor → Option Editor
with_line_at at none = none
with_line_at at (some e) = some (record e {
  lines = insert_line (if ltb (length e.lines) at then length e.lines else at) line_init e.lines;
})

-- `line_new_at`
unfoldable pub line_new_at : (room : ℕ → Bool) → Editor → (at : ℕ) → Option Editor
line_new_at room e at = with_line_at at (reserve_lines room e)

-- `line_delete_at`
abbrev pub line_delete_at : (at : ℕ) → List Line → List Line
line_delete_at at ls = if leb (length ls) at then ls else take at ls ++ drop (at + 1) ls

-- The loop that deletes the rows from `y + n - 1` down to `y`.
unfoldable pub delete_lines : (n y : ℕ) → List Line → List Line
delete_lines zero y ls = ls
delete_lines (suc n) y ls = delete_lines n y (line_delete_at (y + n) ls)

abbrev pub set_line : Editor → (y : ℕ) → Line → Editor
set_line e y l = record e { lines = set e.lines y l }

-- `set_errmsg`; without room the old message is shown.
abbrev pub with_message : Editor → Option Line → Editor
with_message e none = record e { show_errmsg = true }
with_message e (some l) = record e { errormsg = l; show_errmsg = true }

unfoldable pub set_errmsg : (room : ℕ → Bool) → Editor → List ℕ → Editor
set_errmsg room e msg = with_message e (line_set room e.errormsg msg)
