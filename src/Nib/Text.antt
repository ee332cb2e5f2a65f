-- ===== src/Nib/Text.antt =====
-- The text of an editor's rows on both sides of a place: every row ends in a newline.
use panuti.Base.{
  ℕ, zero, suc, ◌+◌, ◌≤◌, ◌<◌, ◌≡◌, refl, sym, ap, ◌∙◌, List, [], ◌∷◌, ◌++◌, arith, length, take,
  drop, take-append-drop,
}
use mathlib.Core.List.{append-nil, append_assoc}
use panuti.Nib.{Line, line_at, len_at}
use panuti.Nib.Rows.{
  replace_rows, take-replace_rows, line_at-replace_rows, drop-replace_rows, length-replace_rows,
}

-- The rows as they are written to a file.
abbrev pub full : List Line → List ℕ
full [] = []
full (l ∷ ls) = l.string ++ 10 ∷ full ls

abbrev pub before_at : List Line → (y x : ℕ) → List ℕ
before_at ls y x = full (take y ls) ++ take x (line_at ls y).string

abbrev pub behind_at : List Line → (y x : ℕ) → List ℕ
behind_at ls y x = drop x (line_at ls y).string ++ 10 ∷ full (drop (suc y) ls)

-- A row and a column that are there.
abbrev pub IsPlace : List Line → (y x : ℕ) → Type 0
IsPlace ls y x = y < length ls × (x ≤ len_at ls y)

pub full-append : (ls ms : List Line) → full (ls ++ ms) ≡ full ls ++ full ms
full-append [] ms = refl
full-append (l ∷ ls) ms =
    ap (λ s. l.string ++ 10 ∷ s) (full-append ls ms)
    ∙ sym (append_assoc l.string (10 ∷ full ls) (full ms))

pub before_at-replace_rows :
    (ls : List Line) (y n x : ℕ) (l : Line) (new : List Line)
    → y ≤ length ls
    → before_at (replace_rows ls y n (l ∷ new)) y x ≡ full (take y ls) ++ take x l.string
before_at-replace_rows ls y n x l new le =
    ap (λ s. full s ++ take x (line_at (replace_rows ls y n (l ∷ new)) y).string)
      (take-replace_rows ls y n (l ∷ new))
    ∙ ap (λ r. full (take y ls) ++ take x r.string) (line_at-replace_rows ls y n l new le)

pub behind_at-replace_rows :
    (ls : List Line) (y n x : ℕ) (l : Line) (new : List Line)
    → y ≤ length ls
    → behind_at (replace_rows ls y n (l ∷ new)) y x
      ≡ drop x l.string ++ 10 ∷ full (new ++ drop (y + n) ls)
behind_at-replace_rows ls y n x l new le =
    ap (λ s. drop x (line_at (replace_rows ls y n (l ∷ new)) y).string ++ 10 ∷ full s)
      (drop-replace_rows ls y n l new le)
    ∙ ap (λ r. drop x r.string ++ 10 ∷ full (new ++ drop (y + n) ls))
        (line_at-replace_rows ls y n l new le)

-- The rows up to one are its text with a newline.
pub full-take :
    (ls : List Line) (y : ℕ)
    → y < length ls
    → full (take (suc y) ls) ≡ full (take y ls) ++ ((line_at ls y).string ++ 10 ∷ [])
full-take [] y lt = absurd (omega arith)
full-take (l ∷ ls) zero lt = refl
full-take (l ∷ ls) (suc y) lt =
    ap (λ s. l.string ++ 10 ∷ s) (full-take ls y (omega arith))
    ∙ sym (append_assoc l.string (10 ∷ full (take y ls)) ((line_at ls y).string ++ 10 ∷ []))

-- Both sides of a place are the text.
pub before_at-behind_at :
    (ls : List Line) (y x : ℕ) → y < length ls → before_at ls y x ++ behind_at ls y x ≡ full ls
before_at-behind_at [] y x lt = absurd (omega arith)
before_at-behind_at (l ∷ ls) zero x lt =
    sym (append_assoc (take x l.string) (drop x l.string) (10 ∷ full ls))
    ∙ ap (λ s. s ++ 10 ∷ full ls) (take-append-drop x l.string)
before_at-behind_at (l ∷ ls) (suc y) x lt =
    ap (λ s. s ++ behind_at ls y x)
      (append_assoc l.string (10 ∷ full (take y ls)) (take x (line_at ls y).string))
    ∙ append_assoc l.string (10 ∷ before_at ls y x) (behind_at ls y x)
    ∙ ap (λ s. l.string ++ 10 ∷ s) (before_at-behind_at ls y x (omega arith))

-- At the start of the second of two new rows.
pub before_at-second :
    (ls : List Line) (y n : ℕ) (l m : Line) (new : List Line)
    → y + n ≤ length ls
    → before_at (replace_rows ls y n (l ∷ m ∷ new)) (suc y) 0
      ≡ full (take y ls) ++ (l.string ++ 10 ∷ [])
before_at-second ls y n l m new le =
    append-nil (full (take (suc y) (replace_rows ls y n (l ∷ m ∷ new))))
    ∙ full-take (replace_rows ls y n (l ∷ m ∷ new)) y
        (omega (arith, length-replace_rows ls y n (l ∷ m ∷ new) le))
    ∙ ap (λ s. full s ++ ((line_at (replace_rows ls y n (l ∷ m ∷ new)) y).string ++ 10 ∷ []))
        (take-replace_rows ls y n (l ∷ m ∷ new))
    ∙ ap (λ r. full (take y ls) ++ (r.string ++ 10 ∷ []))
        (line_at-replace_rows ls y n l (m ∷ new) (omega arith))

-- Rows from one that is there.
full-drop : (ls : List Line) (y : ℕ) → y < length ls → full (drop y ls) ≡ behind_at ls y 0
full-drop [] y lt = absurd (omega arith)
full-drop (l ∷ ls) zero lt = refl
full-drop (l ∷ ls) (suc y) lt = full-drop ls y (omega arith)

pub behind_at-second :
    (ls : List Line) (y n : ℕ) (l m : Line) (new : List Line)
    → y + n ≤ length ls
    → behind_at (replace_rows ls y n (l ∷ m ∷ new)) (suc y) 0
      ≡ m.string ++ 10 ∷ full (new ++ drop (y + n) ls)
behind_at-second ls y n l m new le =
    sym (
      full-drop (replace_rows ls y n (l ∷ m ∷ new)) (suc y)
        (omega (arith, length-replace_rows ls y n (l ∷ m ∷ new) le)))
    ∙ ap full (drop-replace_rows ls y n l (m ∷ new) (omega arith))

pub full-replace_rows :
    (ls : List Line) (y n : ℕ)
    → full (replace_rows ls y n []) ≡ full (take y ls) ++ full (drop (y + n) ls)
full-replace_rows ls zero n = let e : 0 + n ≡ n = omega arith in rw e refl
full-replace_rows [] (suc y) n = let e : suc y + n ≡ suc (y + n) = omega arith in rw e refl
full-replace_rows (l ∷ ls) (suc y) n =
    let e : suc y + n ≡ suc (y + n) = omega arith in
    rw e (
      ap (λ s. l.string ++ 10 ∷ s) (full-replace_rows ls y n)
      ∙ sym (append_assoc l.string (10 ∷ full (take y ls)) (full (drop (y + n) ls))))
