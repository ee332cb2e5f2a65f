-- ===== src/Nib/Soundness/Keys.antt =====
-- Editors after the keys of the normal mode, handin_normal of nib/src/main.c.
use panuti.Line.Ascii.{Packet, to_ascii, keycode_enter}
use panuti.Base.{
  ℕ, ◌+◌, ◌≤◌, ◌<◌, ◌≡◌, refl, sym, subst, ◌∙◌, Bool, true, false, not, [], ◌∷◌, Option, none, some,
  arith, length, ltb, ◌==◌, if◌then◌else◌,
}
use panuti.Nib.{Editor, em_command, line_init, len_at, line_new_at, insert_line}
use panuti.Nib.Motion.{Motion, resolve_motion, motion_range, range_to}
use panuti.Nib.Rows.{length-replace_rows, insert_line_lem}
use panuti.Nib.Memory.{IsLine, AreLines, line_init-IsLine, replace_rows-AreLines}
use panuti.Nib.Normal.{
  handled, keycode_escape, isoperator, ismotion, apply_operator, this_row, handin_normal_operator,
  open_row, into_insert, move_cursor, handin_normal,
}
use panuti.Nib.Typing.{IsEditor}
use panuti.Nib.Typing.Between.{Opened, opened, line_new_at-Opened}
use panuti.Nib.Ranges.{IsRange, range_to-IsRange, Leads, leads, resolve_motion-Leads}
use panuti.Nib.Soundness.{
  IsSound, editor-IsSound, Sound, sound, Sound-if, set_errmsg-IsSound, operator_exec-Sound,
}

apply_operator-Sound :
    (room : ℕ → Bool) (e : Editor) (op : ℕ) (o : Option Motion)
    → IsEditor e
    → Leads (length e.lines) o
    → Sound (apply_operator room e op (motion_range e o))
apply_operator-Sound room e op none ok f = sound (editor-IsSound e ok)
apply_operator-Sound room e op (some m) ok (leads lt) =
    operator_exec-Sound room e op (range_to e m) ok (range_to-IsRange e m ok lt)

with_pending : (e : Editor) (op : ℕ) → IsEditor e → IsEditor (record e { pending_op = op })
with_pending e op ok = record {
  rows_ok = ok.rows_ok;
  y_lt = ok.y_lt;
  x_le = ok.x_le;
  errmsg_ok = ok.errmsg_ok;
  command_ok = ok.command_ok;
}

handin_normal_operator-Sound :
    (room : ℕ → Bool) (e : Editor) (kp : Packet)
    → IsEditor e
    → Sound (handin_normal_operator room e kp)
unfolding handin_normal_operator
handin_normal_operator-Sound room e kp ok =
    let waiting : Editor = record e { pending_op = 0 } in
    let waits : IsEditor waiting = with_pending e 0 ok in
    let idle : Sound (handled waiting 0) = sound (editor-IsSound waiting waits) in
    let row : IsRange (length e.lines) (this_row e) = record {
      y_le = omega arith;
      y_lt = ok.y_lt;
      x_le = λ h. omega arith;
    } in
    Sound-if (kp.keycode == keycode_escape) idle (
      Sound-if (to_ascii kp == e.pending_op)
        (operator_exec-Sound room waiting e.pending_op (this_row e) waits row)
        (Sound-if (ismotion (to_ascii kp))
          (apply_operator-Sound room waiting e.pending_op (resolve_motion e (to_ascii kp)) waits
            (resolve_motion-Leads e (to_ascii kp) ok.y_lt))
          idle))

-- A new row.
opened-IsSound :
    (e d : Editor) (at : ℕ)
    → IsEditor e
    → at ≤ length e.lines
    → d.lines ≡ insert_line at line_init e.lines
    → d.cur_y ≤ length e.lines
    → IsLine d.errormsg
    → IsLine d.command
    → IsSound d
opened-IsSound e d at ok le rows_e y_le msg_ok com_ok =
    let same = rows_e ∙ insert_line_lem e.lines at line_init le in
    record {
      rows_ok =
          subst AreLines (sym same)
            (replace_rows-AreLines e.lines at 0 (line_init ∷ []) ok.rows_ok (line_init-IsLine, tt));
      y_lt =
          subst (λ r. d.cur_y < length r) (sym same)
            (omega (arith, length-replace_rows e.lines at 0 (line_init ∷ []) (omega arith)));
      errmsg_ok = msg_ok;
      command_ok = com_ok;
    }

-- What is done to the cursor and the mode of an editor with a new row.
open_row-Sound :
    (room : ℕ → Bool) (e : Editor) (k : Editor → Editor) (at : ℕ)
    → IsEditor e
    → at ≤ length e.lines
    → ((d : Editor) → (k d).lines ≡ d.lines)
    → ((d : Editor) → d.cur_y ≡ e.cur_y → (k d).cur_y ≤ length e.lines)
    → ((d : Editor) → (k d).errormsg ≡ d.errormsg)
    → ((d : Editor) → (k d).command ≡ d.command)
    → Sound (open_row room e k (line_new_at room e at))
open_row-Sound room e k at ok le rows_e y_le msg_e com_e =
    go (line_new_at room e at) (line_new_at-Opened room e at le)
  where
    go : (o : Option Editor) → Opened room e at o → Sound (open_row room e k o)
    go none h = sound (set_errmsg-IsSound room e _ (editor-IsSound e ok))
    go (some d) (opened {c}) =
        let d' : Editor = record e {
          lines = insert_line at line_init e.lines;
          capl = c;
          dirty = true;
        } in
        sound (
          opened-IsSound e (k d') at ok le (rows_e d') (y_le d' refl)
            (subst IsLine (sym (msg_e d')) ok.errmsg_ok)
            (subst IsLine (sym (com_e d')) ok.command_ok))

-- A handler that leaves the text, the row and the messages.
stays :
    (e d : Editor)
    → IsEditor e
    → d.lines ≡ e.lines
    → d.cur_y ≡ e.cur_y
    → d.errormsg ≡ e.errormsg
    → d.command ≡ e.command
    → Sound (handled d 0)
stays e d ok rows_e y_e msg_e com_e = sound (record {
  rows_ok = subst AreLines (sym rows_e) ok.rows_ok;
  y_lt =
      subst (λ r. d.cur_y < length r) (sym rows_e)
        (subst (λ y. y < length e.lines) (sym y_e) ok.y_lt);
  errmsg_ok = subst IsLine (sym msg_e) ok.errmsg_ok;
  command_ok = subst IsLine (sym com_e) ok.command_ok;
})

move_cursor-IsSound :
    (e : Editor) (o : Option Motion)
    → IsEditor e
    → Leads (length e.lines) o
    → IsSound (move_cursor e o)
move_cursor-IsSound e none ok f = editor-IsSound e ok
move_cursor-IsSound e (some m) ok (leads lt) = record {
  rows_ok = ok.rows_ok;
  y_lt = lt;
  errmsg_ok = ok.errmsg_ok;
  command_ok = ok.command_ok;
}

pub handin_normal-Sound :
    (room : ℕ → Bool) (e : Editor) (kp : Packet) → IsEditor e → Sound (handin_normal room e kp)
unfolding handin_normal
handin_normal-Sound room e kp ok =
    let c = to_ascii kp in
    let y = e.cur_y in
    let len = len_at e.lines y in
    let lt = ok.y_lt in
    let le : y ≤ length e.lines = omega (arith, lt) in
    let le' : y + 1 ≤ length e.lines = omega (arith, lt) in
    let x' = if ltb e.cur_x len then e.cur_x + 1 else e.cur_x in
    Sound-if (not (e.pending_op == 0)) (handin_normal_operator-Sound room e kp ok) (
      Sound-if (c == b':') (stays e (record e { mode = em_command }) ok refl refl refl refl) (
        Sound-if (kp.keycode == keycode_escape)
          (stays e (record e { show_errmsg = false }) ok refl refl refl refl)
          (Sound-if (kp.keycode == keycode_enter)
            (open_row-Sound room e (λ d. record d { cur_y = y + 1; cur_x = 0 }) (y + 1) ok le'
              (λ d. refl) (λ d h. le') (λ d. refl) (λ d. refl))
            (Sound-if (c == b'o')
              (open_row-Sound room e (λ d. into_insert (record d { cur_y = y + 1 }) 0) (y + 1) ok
                le' (λ d. refl) (λ d h. le') (λ d. refl) (λ d. refl))
              (Sound-if (c == b'O')
                (open_row-Sound room e (λ d. into_insert d 0) y ok le (λ d. refl)
                  (λ d h. omega (arith, le)) (λ d. refl) (λ d. refl))
                (Sound-if (isoperator c)
                  (stays e (record e { pending_op = c }) ok refl refl refl refl)
                  (Sound-if (ismotion c)
                    (sound
                      (move_cursor-IsSound e (resolve_motion e c) ok (resolve_motion-Leads e c lt)))
                    (Sound-if (c == b'i') (stays e (into_insert e e.cur_x) ok refl refl refl refl) (
                      Sound-if (c == b'a') (stays e (into_insert e x') ok refl refl refl refl) (
                        Sound-if (c == b'A') (stays e (into_insert e len) ok refl refl refl refl)
                          (stays e e ok refl refl refl refl)))))))))))
