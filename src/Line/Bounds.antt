-- ===== src/Line/Bounds.antt =====
-- The bounds of the line buffer and of the caller's buffer.
use panuti.Base.{
  ℕ, ◌+◌, ◌-◌, ◌≤◌, ◌<◌, ◌≡◌, Bool, true, false, not, List, [], ◌∷◌, Option, none, some, arith,
  length, length-set, length-take, take, drop, replicate, ltb, ◌==◌, if◌then◌else◌, Bool-cases, inl,
  inr,
}
use panuti.Line.{
  Line, Session, Outcome, delivered, failed, busy, waiting, claimed_read, Turn, go_on, finish,
  line_cap, line_max, clear_line, backspace, claim, claim_as, release, deliver, append, control,
  on_packet, read_loop, read, shorten, Packet,
}
use panuti.Line.Ascii.{
  to_ascii, keycode_c, keycode_d, keycode_h, keycode_u, keycode_tab, keycode_backspace,
  keycode_enter,
}

pub record IsValid (l : Line) : Type 0 where
  pub buffer_length : length l.line_buffer ≡ line_max
  pub len_in : l.line_len ≤ line_cap
  pub pos_in : l.line_pos ≤ l.line_len

-- What a call may copy into a buffer of `len` bytes, the 0 behind the bytes included.
abbrev pub Fits : ℕ → Outcome → Type 0
Fits len (delivered out) = length out < len
Fits len failed = Unit {0}
Fits len busy = Unit {0}
Fits len waiting = Unit {0}

abbrev Turned : ℕ → Turn → Type 0
Turned len (go_on s) = IsValid s.line
Turned len (finish s out) = IsValid s.line × Fits len out

release-IsValid : (l : Line) → IsValid l → IsValid (release l)
release-IsValid l v = record {
  buffer_length = v.buffer_length;
  len_in = omega arith;
  pos_in = omega arith;
}

clear_line-IsValid : (s : Session) → IsValid s.line → IsValid (clear_line s).line
clear_line-IsValid s v = record {
  buffer_length = v.buffer_length;
  len_in = omega arith;
  pos_in = omega arith;
}

shorten-IsValid : (l : Line) → IsValid l → IsValid (shorten l)
shorten-IsValid l v = record {
  buffer_length = v.buffer_length;
  len_in = omega (arith, v.len_in);
  pos_in = ground arith;
}

backspace-IsValid : (s : Session) → IsValid s.line → IsValid (backspace s).line
unfolding backspace
backspace-IsValid s v = elim (Bool-cases (s.line.line_len == 0)) [
  | inl e ↦ rw e v
  | inr e ↦ rw e (shorten-IsValid s.line v)
]

append-IsValid :
    (s : Session) (c : ℕ) (shown : List ℕ) → IsValid s.line → IsValid (append s c shown).line
unfolding append
append-IsValid s c shown v = elim (Bool-cases (ltb s.line.line_len line_cap)) [
  | inl e ↦ rw e (record {
    buffer_length = omega (arith, length-set s.line.line_buffer s.line.line_len c, v.buffer_length);
    len_in = ground arith;
    pos_in = omega (arith, v.pos_in);
  })
  | inr e ↦ rw e v
]

deliver-IsValid :
    (l : Line) (len : ℕ)
    → 0 < len
    → IsValid l
    → IsValid (deliver l len).0 × (length (deliver l len).1 < len)
unfolding deliver
deliver-IsValid l len pos v =
    copied (if ltb (l.line_len - l.line_pos) (len - 1) then l.line_len - l.line_pos else len - 1)
      (ground arith) (ground arith)
  where
    copied :
        (n : ℕ)
        → n ≤ l.line_len - l.line_pos
        → n < len
        → let moved = record l { line_pos = l.line_pos + n } in
          IsValid (if moved.line_pos == moved.line_len then release moved else moved)
          × (length (take n (drop l.line_pos l.line_buffer)) < len)
    copied n le lt =
        let moved : IsValid (record l { line_pos = l.line_pos + n }) = record {
          buffer_length = v.buffer_length;
          len_in = v.len_in;
          pos_in = omega (arith, v.pos_in);
        } in
        let short : length (take n (drop l.line_pos l.line_buffer)) < len =
          omega (arith, length-take n (drop l.line_pos l.line_buffer)) in
        elim (Bool-cases (l.line_pos + n == l.line_len)) [
          | inl e ↦ rw e ((release-IsValid _ moved, short))
          | inr e ↦ rw e ((moved, short))
        ]

Turned-if :
    (len : ℕ) (b : Bool) (x y : Turn)
    → Turned len x
    → Turned len y
    → Turned len (if b then x else y)
Turned-if len true x y p q = p
Turned-if len false x y p q = q

control-Turned :
    (s : Session) (len keycode : ℕ) → 0 < len → IsValid s.line → Turned len (control s keycode)
unfolding control
control-Turned s len keycode pos v =
    let cleared : Turned len (go_on (clear_line s)) = clear_line-IsValid s v in
    let ended : Turned len (finish (record s { line = release s.line }) (delivered [])) =
      (release-IsValid s.line v, pos) in
    let shorter : Turned len (go_on (backspace s)) = backspace-IsValid s v in
    Turned-if len (keycode == keycode_c) _ _ cleared (
      Turned-if len (keycode == keycode_u) _ _ cleared (
        Turned-if len (keycode == keycode_d) _ _
          (Turned-if len (s.line.line_len == 0) _ _ ended cleared)
          (Turned-if len (keycode == keycode_h) _ _ shorter v)))

on_packet-Turned :
    (s : Session) (len : ℕ) (k : Packet) → 0 < len → IsValid s.line → Turned len (on_packet s len k)
unfolding on_packet
on_packet-Turned s len k pos v = Turned-if len (not k.pressed) _ _ v (
    Turned-if len k.ctrl _ _ (control-Turned s len k.keycode pos v) (
      Turned-if len (k.keycode == keycode_backspace) _ _ (backspace-IsValid s v) (
        Turned-if len (k.keycode == keycode_enter) _ _ (deliver-IsValid s.line len pos v) (
          Turned-if len (k.keycode == keycode_tab) _ _ (append-IsValid s 9 (replicate 4 32) v) (
            Turned-if len (to_ascii k == 0) _ _ v
              (append-IsValid s (to_ascii k) (to_ascii k ∷ []) v))))))

read_loop-IsValid :
    (ks : List (Option Packet)) (s : Session) (len : ℕ)
    → 0 < len
    → IsValid s.line
    → IsValid (read_loop ks s len).0.line × Fits len (read_loop ks s len).1
unfolding read_loop
read_loop-IsValid [] s len pos v = (v, tt)
read_loop-IsValid (none ∷ ks) s len pos v = (release-IsValid s.line v, tt)
read_loop-IsValid (some k ∷ ks) s len pos v =
    after (λ u w. read_loop-IsValid ks u len pos w) (on_packet s len k)
      (on_packet-Turned s len k pos v)
  where
    after :
        ((u : Session)
          → IsValid u.line
          → IsValid (read_loop ks u len).0.line × Fits len (read_loop ks u len).1)
        → (t : Turn) → Turned len t
        → let r = elim t as (λ _. Session × Outcome) [
          | go_on u ↦ read_loop ks u len
          | finish u out ↦ (u, out)
        ] in
          IsValid r.0.line × Fits len r.1
    after rest (go_on u) w = rest u w
    after rest (finish u out) w = w

abbrev Claimed : Option Line → Type 0
Claimed none = Unit {0}
Claimed (some l) = IsValid l

claim_as-Claimed : (self : ℕ) (l : Line) (o : Option ℕ) → IsValid l → Claimed (claim_as self l o)
claim_as-Claimed self l none v = record {
  buffer_length = v.buffer_length;
  len_in = omega arith;
  pos_in = omega arith;
}
claim_as-Claimed self l (some other) v = elim (Bool-cases (other == self)) [
  | inl same ↦ rw same v
  | inr other_task ↦ rw other_task tt
]

claimed_read-IsValid :
    (o : Option Line) (s : Session) (len : ℕ) (ks : List (Option Packet))
    → 0 < len
    → IsValid s.line
    → Claimed o
    → IsValid (claimed_read o s len ks).0.line × Fits len (claimed_read o s len ks).1
claimed_read-IsValid none s len ks pos v c = (v, tt)
claimed_read-IsValid (some l) s len ks pos v c =
    read_loop-IsValid ks (record s { line = l }) len pos c

-- Whatever the packets, a read keeps the line within its buffer of 256 bytes, and copies no more into
-- a buffer of `len` bytes than fits, the 0 at the end included.
pub read-IsValid :
    (self : ℕ) (s : Session) (len : ℕ) (ks : List (Option Packet))
    → 0 < len
    → IsValid s.line
    → IsValid (read self s len ks).0.line × Fits len (read self s len ks).1
unfolding read claim
read-IsValid self s len ks pos v =
    let nonempty : (len == 0) ≡ false = ground arith in
    rw nonempty (
      claimed_read-IsValid (claim self s.line) s len ks pos v
        (claim_as-Claimed self s.line s.line.owner v))
