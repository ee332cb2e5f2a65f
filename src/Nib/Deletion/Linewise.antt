-- ===== src/Nib/Deletion/Linewise.antt =====
-- The deletion of a range of rows, hinormal_range_delete of nib/src/main.c.
use panuti.Base.{
  ℕ, zero, suc, ◌+◌, ◌-◌, ◌≤◌, ◌<◌, ◌≡◌, refl, sym, ap, subst, ◌∙◌, inl, inr, Bool, false, ◌&&◌,
  List, [], ◌∷◌, ◌++◌, Option, none, some, arith, length, take, drop, set, ltb, leb, ◌==◌,
  if◌then◌else◌, Bool-cases,
}
use panuti.Nib.{Line, Editor, line_at, line_set, delete_lines}
use panuti.Nib.Motion.{Range}
use panuti.Nib.Rows.{replace_rows, length-replace_rows, delete_lines_lem, delete_lines-set}
use panuti.Nib.Text.{full, full-replace_rows}
use panuti.Nib.Memory.{
  Holds, held, lacks, no_memory, too_long, line_at-IsLine, line_set-Holds, replace_rows-AreLines,
}
use panuti.Nib.Normal.{delete_all, delete_rows, delete_linewise}
use panuti.Nib.Typing.{IsEditor, rows-IsEditor}
use panuti.Nib.Ranges.{IsRange}

-- The rows before and behind the range, or one empty row when all of them go.
pub data LeavesRows (room : ℕ → Bool) (ls : List Line) (y1 y2 : ℕ) : Option Editor → Type 0 where
  leaves_rows :
      {e' : Editor}
      → IsEditor e'
      → e'.cur_x ≡ 0
      → full e'.lines ≡ full (take y1 ls) ++ full (drop (suc y2) ls)
      → LeavesRows room ls y1 y2 (some e')
  leaves_none :
      {e' : Editor}
      → IsEditor e'
      → e'.cur_x ≡ 0
      → y1 ≡ 0
      → suc y2 ≡ length ls
      → full e'.lines ≡ 10 ∷ []
      → LeavesRows room ls y1 y2 (some e')
  keeps_rows : (size : ℕ) → room size ≡ false → LeavesRows room ls y1 y2 none

drop_past : (ls : List Line) (n : ℕ) → length ls ≤ n → drop n ls ≡ []
drop_past [] zero le = refl
drop_past [] (suc n) le = refl
drop_past (l ∷ ls) zero le = absurd (omega arith)
drop_past (l ∷ ls) (suc n) le = drop_past ls n (omega arith)

delete_all-LeavesRows :
    (room : ℕ → Bool) (e : Editor) (r : Range) (o : Option Line)
    → IsEditor e
    → r.from.y ≡ 0
    → suc r.to.y ≡ length e.lines
    → Holds room [] o
    → LeavesRows room e.lines r.from.y r.to.y (delete_all e r o)
delete_all-LeavesRows room e r none ok z all (lacks (no_memory size denied)) =
    keeps_rows size denied
delete_all-LeavesRows room e r none ok z all (lacks (too_long lt)) = absurd (omega arith)
delete_all-LeavesRows room e r (some l) ok z all (held same pos is) =
    let n = length e.lines - 1 in
    let some_rows : 0 < length e.lines = omega (arith, ok.y_lt) in
    let nothing : drop (suc n) e.lines ≡ [] = drop_past e.lines (suc n) (omega arith) in
    let rows_e : delete_lines n 1 (set e.lines 0 l) ≡ l ∷ [] =
      delete_lines-set e.lines 0 n l (omega arith) ∙ ap (λ t. l ∷ t) nothing in
    leaves_none
      (rows-IsEditor _ (l ∷ []) rows_e (is, tt) (omega arith) (omega arith) ok.errmsg_ok
        ok.command_ok)
      refl z all (ap full rows_e ∙ ap (λ s. s ++ 10 ∷ []) same)

delete_rows-LeavesRows :
    (room : ℕ → Bool) (e : Editor) (r : Range)
    → IsEditor e
    → IsRange (length e.lines) r
    → suc (r.to.y - r.from.y) < length e.lines
    → LeavesRows room e.lines r.from.y r.to.y (some (delete_rows e r))
delete_rows-LeavesRows room e r ok is few =
    let y = r.from.y in
    let n = r.to.y + 1 - y in
    let ls = replace_rows e.lines y n [] in
    let le = is.y_le in
    let lt = is.y_lt in
    let end : y + n ≡ suc r.to.y = omega arith in
    let rows_e : delete_lines n y e.lines ≡ ls = delete_lines_lem n y e.lines (omega arith) in
    let len = length-replace_rows e.lines y n [] (omega arith) in
    let row_lt : (if ltb y (length ls) then y else length ls - 1) < length ls =
      ground (arith, len) in
    leaves_rows
      (rows-IsEditor _ ls rows_e (replace_rows-AreLines e.lines y n [] ok.rows_ok tt)
        (subst (λ t. (if ltb y (length t) then y else length t - 1) < length ls) (sym rows_e)
          row_lt)
        (omega arith) ok.errmsg_ok ok.command_ok)
      refl
      (ap full rows_e
        ∙ full-replace_rows e.lines y n
        ∙ ap (λ k. full (take y e.lines) ++ full (drop k e.lines)) end)

pub delete_linewise-LeavesRows :
    (room : ℕ → Bool) (e : Editor) (r : Range)
    → IsEditor e
    → IsRange (length e.lines) r
    → LeavesRows room e.lines r.from.y r.to.y (delete_linewise room e r)
delete_linewise-LeavesRows room e r ok is =
    elim (Bool-cases ((r.from.y == 0) && leb (length e.lines) (r.to.y + 1))) [
      | inl f ↦
          let z : r.from.y ≡ 0 = ground arith in
          let all : suc r.to.y ≡ length e.lines = ground (arith, is.y_lt) in
          rw f (
            delete_all-LeavesRows room e r (line_set room (line_at e.lines 0) []) ok z all (
              line_set-Holds room (line_at e.lines 0) []
                (line_at-IsLine e.lines 0 ok.rows_ok).cap_le))
      | inr f ↦
          let few : suc (r.to.y - r.from.y) < length e.lines = ground (arith, is.y_le, is.y_lt) in
          rw f (delete_rows-LeavesRows room e r ok is few)
    ]
