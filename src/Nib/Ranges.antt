-- ===== src/Nib/Ranges.antt =====
-- The ranges of motions, hinormal_motion_range of nib/src/main.c.
use panuti.Base.{
  ℕ, zero, suc, ◌+◌, ◌-◌, ◌≤◌, ◌<◌, ◌≡◌, ap, inl, inr, Bool, true, false, List, [], ◌∷◌, Option,
  none, some, arith, length, length-drop, drop, ltb, leb, ◌==◌, if◌then◌else◌, Bool-cases,
}
use panuti.Nib.{Line, Editor, line_at, len_at}
use panuti.Nib.Motion.{
  Place, place, Motion, Range, moved, resolve_motion, find_word, find_end, next_word, prev_word,
  prev_in_line, word_end, range_to, before,
}
use panuti.Nib.Typing.{IsEditor}

-- A motion that fails, or leads to one of so many rows.
pub data Within (n : ℕ) : Option Place → Type 0 where
  within : {p : Place} → p.y < n → Within n (some p)
  nowhere : Within n none

Within-if :
    {n : ℕ} (b : Bool) {x y : Option Place}
    → Within n x
    → Within n y
    → Within n (if b then x else y)
Within-if true x y = x
Within-if false x y = y

find_word-Within : (y x n : ℕ) (ls : List Line) → y + length ls ≤ n → Within n (find_word y x ls)
unfolding find_word
find_word-Within y x n [] le = nowhere
find_word-Within y x n (l ∷ ls) le =
    Within-if _ (within (omega arith)) (find_word-Within (y + 1) 0 n ls (omega arith))

find_end-Within : (y x n : ℕ) (ls : List Line) → y + length ls ≤ n → Within n (find_end y x ls)
unfolding find_end
find_end-Within y x n [] le = nowhere
find_end-Within y x n (l ∷ ls) le =
    Within-if _ (within (omega arith)) (find_end-Within (y + 1) 0 n ls (omega arith))

some_place :
    {n : ℕ} (o : Option ℕ) (y : ℕ) (other : Option Place)
    → y < n
    → Within n other
    → Within n (elim o as (λ _. Option Place) [ none ↦ other | some x' ↦ some (place y x') ])
some_place none y other lt w = w
some_place (some x') y other lt w = within lt

prev_word-Within : (ls : List Line) (y x n : ℕ) → y < n → Within n (prev_word ls y x)
unfolding prev_word
prev_word-Within ls zero x n lt =
    some_place (prev_in_line (line_at ls 0).string x) 0 none lt nowhere
prev_word-Within ls (suc y) x n lt =
    some_place (prev_in_line (line_at ls (suc y)).string x) (suc y) (prev_word ls y (len_at ls y))
      lt (prev_word-Within ls y (len_at ls y) n (omega arith))

next_word-Within :
    (ls : List Line) (p : Place) → p.y < length ls → Within (length ls) (next_word ls p)
unfolding next_word
next_word-Within ls p lt =
    find_word-Within p.y _ (length ls) (drop p.y ls) (omega (arith, length-drop p.y ls))

word_end-Within :
    (ls : List Line) (p : Place) → p.y < length ls → Within (length ls) (word_end ls p)
unfolding word_end
word_end-Within ls p lt =
    Within-if _ (within lt)
      (find_end-Within p.y _ (length ls) (drop p.y ls) (omega (arith, length-drop p.y ls)))

-- Where a motion leads.
pub data Leads (n : ℕ) : Option Motion → Type 0 where
  leads : {m : Motion} → m.to.y < n → Leads n (some m)
  fails : Leads n none

Leads-if :
    {n : ℕ} (b : Bool) {x y : Option Motion} → Leads n x → Leads n y → Leads n (if b then x else y)
Leads-if true x y = x
Leads-if false x y = y

moved-Leads :
    {n : ℕ} (linewise inclusive : Bool) (o : Option Place)
    → Within n o
    → Leads n (moved linewise inclusive o)
moved-Leads linewise inclusive none w = fails
moved-Leads linewise inclusive (some p) (within lt) = leads lt

-- A motion leads to a row that is there.
pub resolve_motion-Leads :
    (e : Editor) (c : ℕ) → e.cur_y < length e.lines → Leads (length e.lines) (resolve_motion e c)
unfolding resolve_motion
resolve_motion-Leads e c lt =
    let y = e.cur_y in
    let x = e.cur_x in
    let here = place y x in
    let up : y - 1 < length e.lines = omega arith in
    let down : Within (length e.lines)
        (if leb (length e.lines) (y + 1) then none else some (place (y + 1) x)) =
      elim (Bool-cases (leb (length e.lines) (y + 1))) [
        | inl f ↦ rw f nowhere
        | inr f ↦ let next : y + 1 < length e.lines = ground arith in rw f (within next)
      ] in
    Leads-if (c == b'h') (moved-Leads false false _ (Within-if (x == 0) nowhere (within lt))) (
      Leads-if (c == b'l')
        (moved-Leads false false _ (Within-if (leb (len_at e.lines y) x) nowhere (within lt)))
        (Leads-if (c == b'j') (moved-Leads true false _ down) (
          Leads-if (c == b'k') (moved-Leads true false _ (Within-if (y == 0) nowhere (within up))) (
            Leads-if (c == b'0') (leads lt) (
              Leads-if (c == b'^') (leads lt) (
                Leads-if (c == b'$') (leads lt) (
                  Leads-if (c == b'w')
                    (moved-Leads false false _ (next_word-Within e.lines here lt))
                    (Leads-if (c == b'b')
                      (moved-Leads false false _ (prev_word-Within e.lines y x (length e.lines) lt))
                      (Leads-if (c == b'e')
                        (moved-Leads false true _ (word_end-Within e.lines here lt)) fails)))))))))

-- A range whose start is not behind its end, which is in a row that is there.
pub record IsRange (n : ℕ) (r : Range) : Type 0 where
  pub y_le : r.from.y ≤ r.to.y
  pub y_lt : r.to.y < n
  pub x_le : r.from.y ≡ r.to.y → r.from.x ≤ r.to.x

pub range_to-IsRange :
    (e : Editor) (m : Motion)
    → IsEditor e
    → m.to.y < length e.lines
    → IsRange (length e.lines) (range_to e m)
range_to-IsRange e m ok lt = elim (Bool-cases m.linewise) [
  | inl f ↦
      rw f (record { y_le = ground arith; y_lt = ground (arith, ok.y_lt); x_le = λ h. omega arith })
  | inr f ↦ elim (Bool-cases (before m.to (place e.cur_y e.cur_x))) [
    | inl g ↦ rw (f, g) (record { y_le = ground arith; y_lt = ok.y_lt; x_le = λ h. ground arith })
    | inr g ↦
        let end_le : len_at e.lines e.cur_y ≡ len_at e.lines m.to.y
            → e.cur_x ≤ m.to.x
            → e.cur_x ≤ (
                if ltb (len_at e.lines m.to.y) (if m.inclusive then m.to.x + 1 else m.to.x)
                then len_at e.lines m.to.y
                else if m.inclusive
                then m.to.x + 1
                else m.to.x) =
          λ same le. ground (arith, ok.x_le) in
        rw (f, g)
          (record {
            y_le = ground arith;
            y_lt = lt;
            x_le = λ h. end_le (ap (len_at e.lines) h) (ground arith);
          })
  ]
]
