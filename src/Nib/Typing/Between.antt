-- ===== src/Nib/Typing/Between.antt =====
-- The rows that the insert mode of nib/src/main.c joins and splits.
use mathlib.Core.List.{append-nil, append_assoc}
use panuti.Base.{
  ℕ, suc, ◌+◌, ◌-◌, ◌*◌, ◌/◌, ◌≤◌, ◌<◌, ◌≡◌, refl, sym, ap, subst, ◌∙◌, inl, inr, Bool, false, not,
  List, [], ◌∷◌, ◌++◌, Option, none, some, arith, length, length-append, length-take, length-drop,
  set, take, drop, ltb, ◌==◌, Bool-cases,
}
use panuti.Nib.{
  int_max, new_capl, reserve_lines, with_line_at, Line, Editor, line_init, line_at, len_at,
  line_new_at, line_delete_at, line_set, line_reserve, insert_line, line_len_max,
}
use panuti.Nib.Rows.{
  replace_rows, length-replace_rows, insert_line-split, line_delete_at-set,
  line_delete_at-insert_line,
}
use panuti.Nib.Text.{before_at-second, behind_at-second, full, full-take, before_at, behind_at}
use panuti.Nib.Bytes.{but_last, but_last-append, take-length, drop-length}
use panuti.Nib.Memory.{
  IsLine, AreLines, Holds, held, lacks, no_memory, too_long, Reserved, room_for, no_room,
  line_at-IsLine, replace_rows-AreLines, line_set-Holds, line_reserve-Reserved, shorter-IsLine,
}
use panuti.Nib.Normal.{handled}
use panuti.Nib.Insert.{cut_row, split_row, joined, join_row}
use panuti.Nib.Typing.{
  IsEditor, before_cursor, behind_cursor, Full, no_memory_for, long_rows, NoRows, no_memory_to_grow,
  many_rows, no_rows, Edited, makes, faults, set_errmsg-refuses, rows-IsEditor, rows-Shows,
  Shows-Edited, one_row,
}

-- The byte before the start of a row is the newline of the one before.
but_last-row :
    (ls : List Line) (k : ℕ)
    → suc k < length ls
    → but_last (before_at ls (suc k) 0) ≡ full (take k ls) ++ (line_at ls k).string
but_last-row ls k lt =
    let s = (line_at ls k).string in
    ap but_last (
      append-nil (full (take (suc k) ls))
      ∙ full-take ls k (omega arith)
      ∙ sym (append_assoc (full (take k ls)) s (10 ∷ [])))
    ∙ but_last-append (full (take k ls) ++ s) 10

-- The rows of the cursor and before it become one.
joined-Edited :
    (room : ℕ → Bool) (e : Editor) (o : Option Line)
    → IsEditor e
    → 0 < e.cur_y
    → e.cur_x ≡ 0
    → len_at e.lines (e.cur_y - 1) + len_at e.lines e.cur_y ≤ line_len_max
    → Reserved room
        (line_at e.lines (e.cur_y - 1))
        (len_at e.lines (e.cur_y - 1) + len_at e.lines e.cur_y + 1)
        o
    → Edited room e (but_last (before_cursor e)) (joined room e o)
joined-Edited room e none ok pos col le (no_room size denied) =
    set_errmsg-refuses room e e _ _ ok refl refl refl (no_memory_for size denied)
joined-Edited room e (some l) ok pos col le (room_for same has most) =
    let k = e.cur_y - 1 in
    let p = (line_at e.lines k).string in
    let s = (line_at e.lines e.cur_y).string in
    let j : Line = record l { string = l.string ++ s } in
    let row : e.cur_y ≡ suc k = omega arith in
    let behind : k + 2 ≡ suc e.cur_y = omega arith in
    let lt : suc k < length e.lines = omega (arith, ok.y_lt) in
    let same_len : length l.string ≡ length p = ap length same in
    let len : length j.string ≡ length p + length s =
      omega (arith, length-append l.string s, same_len) in
    let is : IsLine j = record {
      cap_le = most;
      len_le = omega (arith, len);
      fits = inr (omega (arith, len));
    } in
    Shows-Edited (
      rows-Shows e _ _ _ j [] 2 ok
        (ap (λ y. line_delete_at y (set e.lines k j)) row ∙ line_delete_at-set e.lines k j lt)
        ok.errmsg_ok ok.command_ok (is, tt) (omega arith) (omega (arith, len))
        (ap (λ r. full (take k e.lines) ++ take (length p) (r ++ s)) same
          ∙ ap (λ r. full (take k e.lines) ++ r) (take-length p s)
          ∙ sym (but_last-row e.lines k lt)
          ∙ ap (λ y. but_last (before_at e.lines y 0)) (sym row)
          ∙ ap (λ x. but_last (before_at e.lines e.cur_y x)) (sym col))
        (ap (λ r. drop (length p) (r ++ s) ++ 10 ∷ full (drop (k + 2) e.lines)) same
          ∙ ap (λ r. r ++ 10 ∷ full (drop (k + 2) e.lines)) (drop-length p s)
          ∙ ap (λ y. s ++ 10 ∷ full (drop y e.lines)) behind
          ∙ ap (λ x. behind_at e.lines e.cur_y x) (sym col)))

pub join_row-Edited :
    (room : ℕ → Bool) (e : Editor)
    → IsEditor e
    → 0 < e.cur_y
    → e.cur_x ≡ 0
    → Edited room e (but_last (before_cursor e)) (join_row room e)
join_row-Edited room e ok pos col =
    let at = len_at e.lines (e.cur_y - 1) in
    let len = len_at e.lines e.cur_y in
    let is = line_at-IsLine e.lines (e.cur_y - 1) ok.rows_ok in
    elim (Bool-cases (ltb (line_len_max - at) len)) [
      | inl f ↦
          rw f
            (set_errmsg-refuses room e e _ _ ok refl refl refl (long_rows pos col (ground arith)))
      | inr f ↦
          let le : at + len ≤ line_len_max = ground (arith, is.len_le) in
          rw f (
            joined-Edited room e (line_reserve room (line_at e.lines (e.cur_y - 1)) (at + len + 1))
              ok pos col le
              (line_reserve-Reserved room (line_at e.lines (e.cur_y - 1)) (at + len + 1) is.cap_le
                (omega arith)))
    ]

-- The answers of `reserve_lines` and of `line_new_at`.
data Grown (room : ℕ → Bool) (e : Editor) : Option Editor → Type 0 where
  grown : {c : ℕ} → Grown room e (some (record e { capl = c }))
  not_grown : NoRows room e → Grown room e none

reserve_lines-Grown : (room : ℕ → Bool) (e : Editor) → Grown room e (reserve_lines room e)
reserve_lines-Grown room e = elim (Bool-cases (not (length e.lines == e.capl))) [
  | inl f ↦ rw f grown
  | inr f ↦
      let all : length e.lines ≡ e.capl = ground arith in
      elim (Bool-cases (e.capl == int_max)) [
        | inl g ↦ rw (f, g) (not_grown (many_rows all (ground arith)))
        | inr g ↦ elim (Bool-cases (ltb (int_max / 12) (new_capl e.capl))) [
          | inl h ↦ rw (f, g, h) (not_grown (many_rows all (ground arith)))
          | inr h ↦ elim (Bool-cases (room (new_capl e.capl * 12))) [
            | inl k ↦ rw (f, g, h, k) grown
            | inr k ↦ rw (f, g, h, k) (not_grown (no_memory_to_grow _ k))
          ]
        ]
      ]
]

pub data Opened (room : ℕ → Bool) (e : Editor) (at : ℕ) : Option Editor → Type 0 where
  opened :
      {c : ℕ}
      → Opened room e at (some (record e { lines = insert_line at line_init e.lines; capl = c }))
  not_opened : NoRows room e → Opened room e at none

pub line_new_at-Opened :
    (room : ℕ → Bool) (e : Editor) (at : ℕ)
    → at ≤ length e.lines
    → Opened room e at (line_new_at room e at)
unfolding line_new_at
line_new_at-Opened room e at le = go (reserve_lines room e) (reserve_lines-Grown room e)
  where
    inside : ltb (length e.lines) at ≡ false
    inside = ground arith

    go : (o : Option Editor) → Grown room e o → Opened room e at (with_line_at at o)
    go none (not_grown why) = not_opened why
    go (some d) grown = rw inside opened

-- The row of the cursor becomes two.
split_makes :
    (room : ℕ → Bool) (e e' : Editor) (cut nl : Line)
    → IsEditor e
    → e'.lines ≡ replace_rows e.lines e.cur_y 1 (cut ∷ nl ∷ [])
    → e'.cur_y ≡ suc e.cur_y
    → e'.cur_x ≡ 0
    → e'.errormsg ≡ e.errormsg
    → e'.command ≡ e.command
    → IsLine cut
    → IsLine nl
    → cut.string ≡ take e.cur_x (line_at e.lines e.cur_y).string
    → nl.string ≡ drop e.cur_x (line_at e.lines e.cur_y).string
    → Edited room e (before_cursor e ++ 10 ∷ []) (handled e' 0)
split_makes room e e' cut nl ok rows_e y_e x_e msg_e com_e cut_ok nl_ok cut_e nl_e =
    let s = (line_at e.lines e.cur_y).string in
    let start = full (take e.cur_y e.lines) in
    let ls = replace_rows e.lines e.cur_y 1 (cut ∷ nl ∷ []) in
    let le : e.cur_y + 1 ≤ length e.lines = omega (arith, ok.y_lt) in
    let len = length-replace_rows e.lines e.cur_y 1 (cut ∷ nl ∷ []) le in
    let at : (P : List Line → ℕ → ℕ → Type 0)
        → P ls (suc e.cur_y) 0
        → P e'.lines e'.cur_y e'.cur_x =
      λ P p.
        subst (λ x. P e'.lines e'.cur_y x) (sym x_e)
          (subst (λ y. P e'.lines y 0) (sym y_e)
            (subst (λ r. P r (suc e.cur_y) 0) (sym rows_e) p)) in
    makes
      (record {
        rows_ok = subst AreLines (sym rows_e) (
            replace_rows-AreLines e.lines e.cur_y 1 (cut ∷ nl ∷ []) ok.rows_ok
              (cut_ok, (nl_ok, tt)));
        y_lt = at (λ r y x. y < length r) (omega (arith, len));
        x_le = at (λ r y x. x ≤ len_at r y) (omega arith);
        errmsg_ok = subst IsLine (sym msg_e) ok.errmsg_ok;
        command_ok = subst IsLine (sym com_e) ok.command_ok;
      })
      (at (λ r y x. before_at r y x ≡ before_cursor e ++ 10 ∷ [])
        (before_at-second e.lines e.cur_y 1 cut nl [] le
          ∙ ap (λ r. start ++ (r ++ 10 ∷ [])) cut_e
          ∙ sym (append_assoc start (take e.cur_x s) (10 ∷ []))))
      (at (λ r y x. behind_at r y x ≡ behind_cursor e)
        (behind_at-second e.lines e.cur_y 1 cut nl [] le
          ∙ ap (λ r. r ++ 10 ∷ full (drop (e.cur_y + 1) e.lines)) nl_e
          ∙ one_row e.lines e.cur_y (drop e.cur_x s)))

cut_row-Edited :
    (room : ℕ → Bool) (e : Editor) (c : ℕ) (o : Option Line)
    → IsEditor e
    → Holds room (drop e.cur_x (line_at e.lines e.cur_y).string) o
    → Edited room e (before_cursor e ++ 10 ∷ []) (
        cut_row room e
          (record e { lines = insert_line (e.cur_y + 1) line_init e.lines; capl = c })
          o)
cut_row-Edited room e c none ok h =
    let row_ok = line_at-IsLine e.lines e.cur_y ok.rows_ok in
    let same =
      line_delete_at-insert_line e.lines (e.cur_y + 1) line_init (omega (arith, ok.y_lt)) in
    set_errmsg-refuses room e _ _ _
      (rows-IsEditor _ e.lines same ok.rows_ok ok.y_lt ok.x_le ok.errmsg_ok ok.command_ok) same refl
      refl (why h row_ok.len_le)
  where
    why :
        Holds room (drop e.cur_x (line_at e.lines e.cur_y).string) none
        → len_at e.lines e.cur_y ≤ line_len_max
        → Full room e
    why (lacks (no_memory size denied)) le = no_memory_for size denied
    why (lacks (too_long lt)) le =
        absurd (omega (arith, length-drop e.cur_x (line_at e.lines e.cur_y).string))
cut_row-Edited room e c (some nl) ok (held same pos is) =
    let l = line_at e.lines e.cur_y in
    let l_ok = line_at-IsLine e.lines e.cur_y ok.rows_ok in
    let cut : Line = record l { string = take e.cur_x l.string } in
    elim (Bool-cases (l.cap == 0)) [
      | inl f ↦ rw f (faults (ground arith) refl)
      | inr f ↦ rw f (
          split_makes room e _ cut nl ok
            (insert_line-split e.lines e.cur_y line_init cut nl ok.y_lt) (omega arith) refl refl
            refl
            (shorter-IsLine l (take e.cur_x l.string) l_ok
              (omega (arith, length-take e.cur_x l.string)))
            is refl same)
    ]

pub split_row-Edited :
    (room : ℕ → Bool) (e : Editor)
    → IsEditor e
    → Edited room e
        (before_cursor e ++ 10 ∷ [])
        (split_row room e (line_new_at room e (e.cur_y + 1)))
split_row-Edited room e ok =
    go (line_new_at room e (e.cur_y + 1))
      (line_new_at-Opened room e (e.cur_y + 1) (omega (arith, ok.y_lt)))
  where
    rest : List ℕ
    rest = drop e.cur_x (line_at e.lines e.cur_y).string

    go :
        (o : Option Editor)
        → Opened room e (e.cur_y + 1) o
        → Edited room e (before_cursor e ++ 10 ∷ []) (split_row room e o)
    go none (not_opened why) = set_errmsg-refuses room e e _ _ ok refl refl refl (no_rows why)
    go (some d) (opened {c}) =
        cut_row-Edited room e c (line_set room line_init rest) ok
          (line_set-Holds room line_init rest (omega arith))
