-- ===== src/Nib/Deletion.antt =====
-- The deletion of a range of bytes, hinormal_range_delete of nib/src/main.c.
pub mod Linewise
use panuti.Base.{
  ℕ, zero, suc, ◌+◌, ◌-◌, ◌≤◌, ◌<◌, ◌≡◌, refl, sym, ap, subst, ◌∙◌, inl, inr, Bool, true, false,
  List, [], ◌∷◌, ◌++◌, Option, none, some, arith, length, length-append, length-take, length-drop,
  take, drop, set, ltb, leb, ◌==◌, if◌then◌else◌, Bool-cases,
}
use panuti.Nib.{
  Line, Editor, line_init, line_at, len_at, line_set, line_reserve, line_len_max, delete_lines,
  set_line,
}
use panuti.Nib.Motion.{Place, place, Range}
use panuti.Nib.Rows.{replace_rows, set_lem, delete_lines-set}
use panuti.Nib.Text.{full, before_at, behind_at}
use panuti.Nib.Bytes.{take-take_append, drop-take_append}
use panuti.Nib.Memory.{
  IsLine, AreLines, no_memory, too_long, Short, Reserved, room_for, no_room, line_at-IsLine,
  line_reserve-Reserved, shorter-IsLine,
}
use panuti.Nib.Normal.{clamp, at_place, delete_in_line, join_rows, delete_charwise}
use panuti.Nib.Typing.{IsEditor, Shows, rows-Shows, before_cursor, behind_cursor, one_row}
use panuti.Nib.Ranges.{IsRange}

-- What comes out of a deletion: the bytes before one place and behind another, or no room for the row that
-- would be left between them.
pub data Leaves (room : ℕ → Bool) (row before behind : List ℕ) : Option Editor → Type 0 where
  leaves : {e' : Editor} → Shows e' before behind → Leaves room row before behind (some e')
  keeps : Short room (length row) → Leaves room row before behind none

-- The row that the bytes before one place and behind another make.
abbrev pub row_left : List Line → (y1 x1 y2 x2 : ℕ) → List ℕ
row_left ls y1 x1 y2 x2 = take x1 (line_at ls y1).string ++ drop x2 (line_at ls y2).string

length-row_left :
    (ls : List Line) (y1 x1 y2 x2 : ℕ)
    → x1 ≤ len_at ls y1
    → length (row_left ls y1 x1 y2 x2) ≡ x1 + (len_at ls y2 - x2)
length-row_left ls y1 x1 y2 x2 le = omega (
  arith,
  length-append (take x1 (line_at ls y1).string) (drop x2 (line_at ls y2).string),
  length-take x1 (line_at ls y1).string,
  length-drop x2 (line_at ls y2).string,
)

clamp_le : (v hi : ℕ) → clamp v hi ≤ hi
clamp_le v hi = ground arith

-- Within a row.
delete_in_line-Leaves :
    (room : ℕ → Bool) (e : Editor) (y x1 x2 : ℕ)
    → IsEditor e
    → y < length e.lines
    → x1 ≤ x2
    → x2 ≤ len_at e.lines y
    → Leaves room
        (row_left e.lines y x1 y x2)
        (before_at e.lines y x1)
        (behind_at e.lines y x2)
        (some (delete_in_line e y x1 x2))
delete_in_line-Leaves room e y x1 x2 ok lt le le' =
    let l = line_at e.lines y in
    let start = full (take y e.lines) in
    let s : List ℕ = take x1 l.string ++ drop x2 l.string in
    let len : length s ≡ x1 + (length l.string - x2) = omega (
      arith,
      length-append (take x1 l.string) (drop x2 l.string),
      length-take x1 l.string,
      length-drop x2 l.string,
    ) in
    let cut : Line = record l { string = s } in
    elim (Bool-cases (ltb x1 x2)) [
      | inl f ↦ rw f (
          leaves (
            rows-Shows e _ _ _ cut [] 1 ok (set_lem e.lines y cut lt) ok.errmsg_ok ok.command_ok
              (shorter-IsLine l s (line_at-IsLine e.lines y ok.rows_ok) (omega (arith, len)), tt)
              (omega arith) (omega (arith, len))
              (ap (λ r. start ++ r) (take-take_append x1 l.string (drop x2 l.string) (omega arith)))
              (ap (λ r. r ++ 10 ∷ full (drop (y + 1) e.lines))
                  (drop-take_append x1 l.string (drop x2 l.string) (omega arith))
                ∙ one_row e.lines y (drop x2 l.string))))
      | inr f ↦
          let same : x1 ≡ x2 = ground arith in
          rw f (
            leaves (record {
              ok = record {
                rows_ok = ok.rows_ok;
                y_lt = lt;
                x_le = omega arith;
                errmsg_ok = ok.errmsg_ok;
                command_ok = ok.command_ok;
              };
              before_e = refl;
              behind_e = ap (behind_at e.lines y) same;
            }))
    ]

-- Across rows.
join_rows-Leaves :
    (room : ℕ → Bool) (e : Editor) (y1 x1 y2 x2 : ℕ) (o : Option Line)
    → IsEditor e
    → y1 < y2
    → y2 < length e.lines
    → x1 ≤ len_at e.lines y1
    → x2 ≤ len_at e.lines y2
    → x1 + (len_at e.lines y2 - x2) ≤ line_len_max
    → Reserved room (line_at e.lines y1) (x1 + (len_at e.lines y2 - x2) + 1) o
    → Leaves room
        (row_left e.lines y1 x1 y2 x2)
        (before_at e.lines y1 x1)
        (behind_at e.lines y2 x2)
        (join_rows e y1 x1 y2 x2 o)
join_rows-Leaves room e y1 x1 y2 x2 none ok lt lt' le le' max (no_room size denied) =
    keeps (no_memory size denied)
join_rows-Leaves room e y1 x1 y2 x2 (some l) ok lt lt' le le' max (room_for same has most) =
    let s1 = (line_at e.lines y1).string in
    let rest : List ℕ = drop x2 (line_at e.lines y2).string in
    let start = full (take y1 e.lines) in
    let joined : Line = record l { string = take x1 l.string ++ rest } in
    let same_len : length l.string ≡ length s1 = ap length same in
    let len : length joined.string ≡ x1 + (len_at e.lines y2 - x2) = omega (
      arith,
      length-append (take x1 l.string) rest,
      length-take x1 l.string,
      length-drop x2 (line_at e.lines y2).string,
    ) in
    let is : IsLine joined = record {
      cap_le = most;
      len_le = omega (arith, len);
      fits = inr (omega (arith, len));
    } in
    let last : y1 + suc (y2 - y1) ≡ suc y2 = omega arith in
    leaves (
      rows-Shows e _ _ _ joined [] (suc (y2 - y1)) ok
        (delete_lines-set e.lines y1 (y2 - y1) joined (omega arith)) ok.errmsg_ok ok.command_ok
        (is, tt) (omega arith) (omega (arith, len))
        (ap (λ r. start ++ r) (take-take_append x1 l.string rest (omega arith))
          ∙ ap (λ r. start ++ take x1 r) same)
        (ap (λ r. r ++ 10 ∷ full (drop (y1 + suc (y2 - y1)) e.lines))
            (drop-take_append x1 l.string rest (omega arith))
          ∙ ap (λ k. rest ++ 10 ∷ full (drop k e.lines)) last))

-- A column past the end of a row is its end.
take_all : (x : ℕ) (s : List ℕ) → length s ≤ x → take x s ≡ s
take_all zero [] le = refl
take_all zero (c ∷ s) le = absurd (omega arith)
take_all (suc x) [] le = refl
take_all (suc x) (c ∷ s) le = ap (λ r. c ∷ r) (take_all x s (omega arith))

drop_all : (x : ℕ) (s : List ℕ) → length s ≤ x → drop x s ≡ []
drop_all zero [] le = refl
drop_all zero (c ∷ s) le = absurd (omega arith)
drop_all (suc x) [] le = refl
drop_all (suc x) (c ∷ s) le = drop_all x s (omega arith)

take-clamp : (x : ℕ) (s : List ℕ) → take (clamp x (length s)) s ≡ take x s
take-clamp x s = elim (Bool-cases (ltb (length s) x)) [
  | inl e ↦ rw e (take_all (length s) s (omega arith) ∙ sym (take_all x s (ground arith)))
  | inr e ↦ rw e refl
]

drop-clamp : (x : ℕ) (s : List ℕ) → drop (clamp x (length s)) s ≡ drop x s
drop-clamp x s = elim (Bool-cases (ltb (length s) x)) [
  | inl e ↦ rw e (drop_all (length s) s (omega arith) ∙ sym (drop_all x s (ground arith)))
  | inr e ↦ rw e refl
]

clamp_mono : (a b h k : ℕ) → a ≤ b → h ≡ k → clamp a h ≤ clamp b k
clamp_mono a b h k le same = ground arith

delete_charwise-clamped :
    (room : ℕ → Bool) (e : Editor) (r : Range)
    → IsEditor e
    → IsRange (length e.lines) r
    → Leaves room
        (row_left e.lines r.from.y
          (clamp r.from.x (len_at e.lines r.from.y))
          r.to.y
          (clamp r.to.x (len_at e.lines r.to.y)))
        (before_at e.lines r.from.y (clamp r.from.x (len_at e.lines r.from.y)))
        (behind_at e.lines r.to.y (clamp r.to.x (len_at e.lines r.to.y)))
        (delete_charwise room e r)
delete_charwise-clamped room e r ok is =
    let y1 = r.from.y in
    let y2 = r.to.y in
    let x1 = clamp r.from.x (len_at e.lines y1) in
    let x2 = clamp r.to.x (len_at e.lines y2) in
    let le1 = clamp_le r.from.x (len_at e.lines y1) in
    let le2 = clamp_le r.to.x (len_at e.lines y2) in
    let rem = len_at e.lines y2 - x2 in
    elim (Bool-cases (y1 == y2)) [
      | inl f ↦
          let row : y1 ≡ y2 = ground arith in
          let same : len_at e.lines y1 ≡ len_at e.lines y2 = ap (len_at e.lines) row in
          let le =
            clamp_mono r.from.x r.to.x (len_at e.lines y1) (len_at e.lines y2) (is.x_le row) same in
          rw f (
            subst
              (λ y.
                Leaves room (row_left e.lines y1 x1 y x2) (before_at e.lines y1 x1)
                  (behind_at e.lines y x2) (some (delete_in_line e y1 x1 x2)))
              row
              (delete_in_line-Leaves room e y1 x1 x2 ok (omega (arith, is.y_lt)) le
                (omega (arith, same, le2))))
      | inr f ↦
          let lt : y1 < y2 = ground (arith, is.y_le) in
          elim (Bool-cases (ltb (line_len_max - x1) rem)) [
            | inl g ↦
                rw (f, g)
                  (keeps (too_long (ground (arith, length-row_left e.lines y1 x1 y2 x2 le1))))
            | inr g ↦
                let l_ok = line_at-IsLine e.lines y1 ok.rows_ok in
                let fits : x1 + rem ≤ line_len_max = ground (arith, l_ok.len_le) in
                rw (f, g)
                  (join_rows-Leaves room e y1 x1 y2 x2
                    (line_reserve room (line_at e.lines y1) (x1 + rem + 1)) ok lt is.y_lt le1 le2
                    fits
                    (line_reserve-Reserved room (line_at e.lines y1) (x1 + rem + 1) l_ok.cap_le
                      (omega arith)))
          ]
    ]

-- What is left is before the start of the range and behind its end.
pub delete_charwise-Leaves :
    (room : ℕ → Bool) (e : Editor) (r : Range)
    → IsEditor e
    → IsRange (length e.lines) r
    → Leaves room
        (row_left e.lines r.from.y r.from.x r.to.y r.to.x)
        (before_at e.lines r.from.y r.from.x)
        (behind_at e.lines r.to.y r.to.x)
        (delete_charwise room e r)
delete_charwise-Leaves room e r ok is =
    let s1 = (line_at e.lines r.from.y).string in
    let s2 = (line_at e.lines r.to.y).string in
    subst
      (λ t.
        Leaves room (t ++ drop r.to.x s2) (full (take r.from.y e.lines) ++ t)
          (behind_at e.lines r.to.y r.to.x) (delete_charwise room e r))
      (take-clamp r.from.x s1)
      (subst
        (λ t.
          Leaves room (take (clamp r.from.x (length s1)) s1 ++ t)
            (full (take r.from.y e.lines) ++ take (clamp r.from.x (length s1)) s1)
            (t ++ 10 ∷ full (drop (suc r.to.y) e.lines)) (delete_charwise room e r))
        (drop-clamp r.to.x s2) (delete_charwise-clamped room e r ok is))
