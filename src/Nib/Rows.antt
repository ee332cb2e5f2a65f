-- ===== src/Nib/Rows.antt =====
-- Rows of a text replaced by others, and what the loops and moves of nib over its rows are in these terms.
use panuti.Base.{
  ℕ, zero, suc, ◌+◌, ◌≤◌, ◌<◌, ◌≡◌, refl, sym, ap, ◌∙◌, inl, inr, true, false, List, [], ◌∷◌, ◌++◌,
  arith, length, length-append, length-set, set, take, drop, leb, Bool-cases,
}
use panuti.Nib.{Line, line_at, insert_line, line_delete_at, delete_lines}

-- `n` rows from `y` on become the rows `new`.
abbrev pub replace_rows : List Line → (y n : ℕ) → List Line → List Line
replace_rows ls zero n new = new ++ drop n ls
replace_rows [] (suc y) n new = []
replace_rows (l ∷ ls) (suc y) n new = l ∷ replace_rows ls y n new

pub take-replace_rows :
    (ls : List Line) (y n : ℕ) (new : List Line) → take y (replace_rows ls y n new) ≡ take y ls
take-replace_rows ls zero n new = refl
take-replace_rows [] (suc y) n new = refl
take-replace_rows (l ∷ ls) (suc y) n new = ap (λ r. l ∷ r) (take-replace_rows ls y n new)

pub line_at-replace_rows :
    (ls : List Line) (y n : ℕ) (l : Line) (new : List Line)
    → y ≤ length ls
    → line_at (replace_rows ls y n (l ∷ new)) y ≡ l
line_at-replace_rows ls zero n l new le = refl
line_at-replace_rows [] (suc y) n l new le = absurd (omega arith)
line_at-replace_rows (r ∷ ls) (suc y) n l new le = line_at-replace_rows ls y n l new (omega arith)

pub drop-replace_rows :
    (ls : List Line) (y n : ℕ) (l : Line) (new : List Line)
    → y ≤ length ls
    → drop (suc y) (replace_rows ls y n (l ∷ new)) ≡ new ++ drop (y + n) ls
drop-replace_rows ls zero n l new le = let e : 0 + n ≡ n = omega arith in rw e refl
drop-replace_rows [] (suc y) n l new le = absurd (omega arith)
drop-replace_rows (r ∷ ls) (suc y) n l new le =
    let e : suc y + n ≡ suc (y + n) = omega arith in
    rw e (drop-replace_rows ls y n l new (omega arith))

length-drop_le : (ls : List Line) (n : ℕ) → n ≤ length ls → length (drop n ls) + n ≡ length ls
length-drop_le ls zero le = omega arith
length-drop_le [] (suc n) le = absurd (omega arith)
length-drop_le (l ∷ ls) (suc n) le = omega (arith, length-drop_le ls n (omega arith))

pub length-replace_rows :
    (ls : List Line) (y n : ℕ) (new : List Line)
    → y + n ≤ length ls
    → length (replace_rows ls y n new) + n ≡ length ls + length new
length-replace_rows ls zero n new le =
    omega (arith, length-append new (drop n ls), length-drop_le ls n (omega arith))
length-replace_rows [] (suc y) n new le = absurd (omega arith)
length-replace_rows (l ∷ ls) (suc y) n new le =
    omega (arith, length-replace_rows ls y n new (omega arith))

-- The rows before the new ones stay.
pub line_at-before :
    (ls : List Line) (y n i : ℕ) (new : List Line)
    → i < y
    → y ≤ length ls
    → line_at (replace_rows ls y n new) i ≡ line_at ls i
line_at-before ls zero n i new lt le = absurd (omega arith)
line_at-before [] (suc y) n i new lt le = refl
line_at-before (l ∷ ls) (suc y) n zero new lt le = refl
line_at-before (l ∷ ls) (suc y) n (suc i) new lt le =
    line_at-before ls y n i new (omega arith) (omega arith)

pub set_lem :
    (ls : List Line) (y : ℕ) (l : Line) → y < length ls → set ls y l ≡ replace_rows ls y 1 (l ∷ [])
set_lem [] y l lt = absurd (omega arith)
set_lem (r ∷ ls) zero l lt = refl
set_lem (r ∷ ls) (suc y) l lt = ap (λ s. r ∷ s) (set_lem ls y l (omega arith))

pub insert_line_lem :
    (ls : List Line) (y : ℕ) (l : Line)
    → y ≤ length ls
    → insert_line y l ls ≡ replace_rows ls y 0 (l ∷ [])
insert_line_lem ls zero l le = refl
insert_line_lem [] (suc y) l le = absurd (omega arith)
insert_line_lem (r ∷ ls) (suc y) l le = ap (λ s. r ∷ s) (insert_line_lem ls y l (omega arith))

line_delete_at-suc :
    (r : Line) (ls : List Line) (y : ℕ) → line_delete_at (suc y) (r ∷ ls) ≡ r ∷ line_delete_at y ls
line_delete_at-suc r ls y =
    let behind : suc y + 1 ≡ suc (y + 1) = omega arith in
    elim (Bool-cases (leb (length ls) y)) [
      | inl e ↦ let e' : leb (suc (length ls)) (suc y) ≡ true = ground arith in rw (e, e') refl
      | inr e ↦
          let e' : leb (suc (length ls)) (suc y) ≡ false = ground arith in rw (e, e', behind) refl
    ]

pub line_delete_at_lem :
    (ls : List Line) (y : ℕ) → y < length ls → line_delete_at y ls ≡ replace_rows ls y 1 []
line_delete_at_lem [] y lt = absurd (omega arith)
line_delete_at_lem (r ∷ ls) zero lt =
    let e : leb (suc (length ls)) 0 ≡ false = ground arith in rw e refl
line_delete_at_lem (r ∷ ls) (suc y) lt =
    line_delete_at-suc r ls y ∙ ap (λ s. r ∷ s) (line_delete_at_lem ls y (omega arith))

drop-replace_one : (ls : List Line) (n : ℕ) → drop n (replace_rows ls n 1 []) ≡ drop (suc n) ls
drop-replace_one ls zero = refl
drop-replace_one [] (suc n) = refl
drop-replace_one (r ∷ ls) (suc n) = drop-replace_one ls n

-- The last of several rows may go first.
replace_rows-last :
    (ls : List Line) (y n : ℕ) (new : List Line)
    → replace_rows (replace_rows ls (y + n) 1 []) y n new ≡ replace_rows ls y (suc n) new
replace_rows-last ls zero n new =
    let e : 0 + n ≡ n = omega arith in rw e (ap (λ s. new ++ s) (drop-replace_one ls n))
replace_rows-last [] (suc y) n new = let e : suc y + n ≡ suc (y + n) = omega arith in rw e refl
replace_rows-last (r ∷ ls) (suc y) n new =
    let e : suc y + n ≡ suc (y + n) = omega arith in
    rw e (ap (λ s. r ∷ s) (replace_rows-last ls y n new))

replace_rows-nothing : (ls : List Line) (y : ℕ) → replace_rows ls y 0 [] ≡ ls
replace_rows-nothing ls zero = refl
replace_rows-nothing [] (suc y) = refl
replace_rows-nothing (r ∷ ls) (suc y) = ap (λ s. r ∷ s) (replace_rows-nothing ls y)

-- The loop over rows that are there removes them.
pub delete_lines_lem :
    (n y : ℕ) (ls : List Line) → y + n ≤ length ls → delete_lines n y ls ≡ replace_rows ls y n []
unfolding delete_lines
delete_lines_lem zero y ls le = sym (replace_rows-nothing ls y)
delete_lines_lem (suc n) y ls le =
    let one = line_delete_at_lem ls (y + n) (omega arith) in
    ap (delete_lines n y) one
    ∙ delete_lines_lem n y (replace_rows ls (y + n) 1 [])
        (omega (arith, length-replace_rows ls (y + n) 1 [] (omega arith)))
    ∙ replace_rows-last ls y n []

-- Rows behind a row that is set.
replace_rows-set :
    (ls : List Line) (y n : ℕ) (l : Line)
    → y < length ls
    → replace_rows (set ls y l) (suc y) n [] ≡ replace_rows ls y (suc n) (l ∷ [])
replace_rows-set [] y n l lt = absurd (omega arith)
replace_rows-set (r ∷ ls) zero n l lt = refl
replace_rows-set (r ∷ ls) (suc y) n l lt = ap (λ s. r ∷ s) (replace_rows-set ls y n l (omega arith))

-- A row is set, and the rows behind it are deleted.
pub delete_lines-set :
    (ls : List Line) (y n : ℕ) (l : Line)
    → y + suc n ≤ length ls
    → delete_lines n (y + 1) (set ls y l) ≡ replace_rows ls y (suc n) (l ∷ [])
delete_lines-set ls y n l le =
    let e : y + 1 ≡ suc y = omega arith in
    delete_lines_lem n (y + 1) (set ls y l) (omega (arith, length-set ls y l))
    ∙ rw e (replace_rows-set ls y n l (omega arith))

-- The rows that a split leaves.
pub insert_line-split :
    (ls : List Line) (y : ℕ) (b l m : Line)
    → y < length ls
    → set (set (insert_line (y + 1) b ls) (y + 1) m) y l ≡ replace_rows ls y 1 (l ∷ m ∷ [])
insert_line-split [] y b l m lt = absurd (omega arith)
insert_line-split (r ∷ ls) zero b l m lt = refl
insert_line-split (r ∷ ls) (suc y) b l m lt =
    let e : suc y + 1 ≡ suc (y + 1) = omega arith in
    rw e (ap (λ s. r ∷ s) (insert_line-split ls y b l m (omega arith)))

-- The rows that a join leaves.
pub line_delete_at-set :
    (ls : List Line) (y : ℕ) (l : Line)
    → suc y < length ls
    → line_delete_at (suc y) (set ls y l) ≡ replace_rows ls y 2 (l ∷ [])
line_delete_at-set ls y l lt =
    line_delete_at_lem (set ls y l) (suc y) (omega (arith, length-set ls y l))
    ∙ replace_rows-set ls y 1 l (omega arith)

-- A new row that is deleted again leaves the rows.
pub line_delete_at-insert_line :
    (ls : List Line) (y : ℕ) (b : Line) → y ≤ length ls → line_delete_at y (insert_line y b ls) ≡ ls
line_delete_at-insert_line ls zero b le = line_delete_at_lem (b ∷ ls) zero (omega arith)
line_delete_at-insert_line [] (suc y) b le = absurd (omega arith)
line_delete_at-insert_line (r ∷ ls) (suc y) b le =
    line_delete_at-suc r (insert_line y b ls) y
    ∙ ap (λ s. r ∷ s) (line_delete_at-insert_line ls y b (omega arith))
