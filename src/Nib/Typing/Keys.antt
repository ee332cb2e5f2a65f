-- ===== src/Nib/Typing/Keys.antt =====
-- All keys of the insert mode, handin_insert of nib/src/main.c.
use panuti.Line.Ascii.{Packet, to_ascii, keycode_enter, keycode_backspace, keycode_tab}
use panuti.Base.{
  ℕ, ◌-◌, ◌≡◌, refl, sym, ap, ◌∙◌, inl, inr, Bool, false, not, [], arith, ltb, ◌==◌, Bool-cases,
}
use panuti.Nib.{Editor}
use panuti.Nib.Text.{before_at}
use panuti.Nib.Bytes.{but_last}
use panuti.Nib.Normal.{keycode_escape}
use panuti.Nib.Insert.{backspace, handin_insert}
use panuti.Nib.Typing.{IsEditor, before_cursor, edited, Edited, makes}
use panuti.Nib.Typing.Within.{type_byte-Edited, backspace_in-Edited}
use panuti.Nib.Typing.Between.{join_row-Edited, split_row-Edited}

backspace-Edited :
    (room : ℕ → Bool) (e : Editor)
    → IsEditor e
    → Edited room e (but_last (before_cursor e)) (backspace room e)
backspace-Edited room e ok = elim (Bool-cases (ltb 0 e.cur_x)) [
  | inl f ↦ rw f (backspace_in-Edited room e (e.cur_x - 1) ok (ground arith))
  | inr f ↦
      let col : e.cur_x ≡ 0 = ground arith in
      elim (Bool-cases (ltb 0 e.cur_y)) [
        | inl g ↦ rw (f, g) (join_row-Edited room e ok (ground arith) col)
        | inr g ↦
            let row : e.cur_y ≡ 0 = ground arith in
            let start : before_cursor e ≡ [] =
              ap (λ y. before_at e.lines y e.cur_x) row ∙ ap (λ x. before_at e.lines 0 x) col in
            rw (f, g) (makes ok (start ∙ sym (ap but_last start)) refl)
      ]
]

-- With the cursor in the text and lines that fit their memory, every key but Escape is an edit of the text before the
-- cursor, and leaves the text behind it: a byte, a tab or a newline goes in, Backspace takes the last byte out. Only
-- when realloc has no room for some size, when the row or the two rows to join are too long, or when there can be no
-- more rows, it leaves the rows and the cursor, and shows a message; and it faults only when a newline is to cut a
-- row without memory.
pub handin_insert-Edited :
    (room : ℕ → Bool) (e : Editor) (kp : Packet)
    → IsEditor e
    → (kp.keycode == keycode_escape) ≡ false
    → Edited room e (edited kp (before_cursor e)) (handin_insert room e kp)
unfolding handin_insert
handin_insert-Edited room e kp ok no_escape = elim (Bool-cases (kp.keycode == keycode_enter)) [
  | inl f ↦ rw (no_escape, f) (split_row-Edited room e ok)
  | inr f ↦ elim (Bool-cases (kp.keycode == keycode_backspace)) [
    | inl g ↦ rw (no_escape, f, g) (backspace-Edited room e ok)
    | inr g ↦ elim (Bool-cases (kp.keycode == keycode_tab)) [
      | inl h ↦ rw (no_escape, f, g, h) (type_byte-Edited room e 9 ok)
      | inr h ↦ elim (Bool-cases (not (to_ascii kp == 0))) [
        | inl i ↦ rw (no_escape, f, g, h, i) (type_byte-Edited room e (to_ascii kp) ok)
        | inr i ↦ rw (no_escape, f, g, h, i) (makes ok refl refl)
      ]
    ]
  ]
]
