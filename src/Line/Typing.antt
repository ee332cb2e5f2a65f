-- ===== src/Line/Typing.antt =====
-- What a task reads of what is typed.
use panuti.Base.{
  ℕ, zero, suc, ◌+◌, ◌-◌, ◌≤◌, ◌<◌, ◌≡◌, refl, sym, ap, ◌∙◌, true, false, List, [], ◌∷◌, ◌++◌,
  Option, none, some, arith, length, length-set, length-take, take, set, ltb, ◌==◌, Bool-cases, inl,
  inr,
}
use mathlib.Core.List.{append-nil, append_assoc}
use panuti.Line.{
  Line, Session, delivered, go_on, line_cap, line_max, claim, deliver, append, on_packet, read_loop,
  read,
}
use panuti.Line.Ascii.{Packet, to_ascii, keycode_tab, keycode_backspace, keycode_enter}
use panuti.Line.Bounds.{IsValid}

-- The press of a key that types a character.
pub record IsCharacter (k : Packet) : Type 0 where
  pub is_pressed : k.pressed ≡ true
  pub no_ctrl : k.ctrl ≡ false
  pub no_backspace : (k.keycode == keycode_backspace) ≡ false
  pub no_enter : (k.keycode == keycode_enter) ≡ false
  pub no_tab : (k.keycode == keycode_tab) ≡ false
  pub is_ascii : (to_ascii k == 0) ≡ false

abbrev pub AllCharacters : List Packet → Type 0
AllCharacters [] = Unit {0}
AllCharacters (k ∷ ks) = IsCharacter k × AllCharacters ks

abbrev pub enter_key : Packet
enter_key = record {
  keycode = keycode_enter;
  pressed = true;
  shift = false;
  ctrl = false;
  caps_lock = false;
}

abbrev pub typed : List Packet → List (Option Packet)
typed [] = some enter_key ∷ []
typed (k ∷ ks) = some k ∷ typed ks

abbrev pub text : List Packet → List ℕ
text [] = []
text (k ∷ ks) = to_ascii k ∷ text ks

-- What the line holds.
abbrev pub content : Line → List ℕ
content l = take l.line_len l.line_buffer

module _ {ℓ} {A : Type ℓ} where
  take-set_end :
      (xs : List A) (n : ℕ) (c : A)
      → n < length xs
      → take (n + 1) (set xs n c) ≡ take n xs ++ c ∷ []
  take-set_end [] n c h = absurd (omega arith)
  take-set_end (x ∷ xs) zero c h = refl
  take-set_end (x ∷ xs) (suc n) c h =
      ap (λ m. take m (x ∷ set xs n c)) {y = suc (n + 1)} (omega arith)
      ∙ ap (λ r. x ∷ r) (take-set_end xs n c (omega arith))

  take-take : (n m : ℕ) (xs : List A) → n ≤ m → take n (take m xs) ≡ take n xs
  take-take zero m xs h = refl
  take-take (suc n) zero xs h = absurd (omega arith)
  take-take (suc n) (suc m) [] h = refl
  take-take (suc n) (suc m) (x ∷ xs) h = ap (λ r. x ∷ r) (take-take n m xs (omega arith))

  take_of_ge : (n : ℕ) (xs : List A) → length xs ≤ n → take n xs ≡ xs
  take_of_ge zero [] h = refl
  take_of_ge zero (x ∷ xs) h = absurd (omega arith)
  take_of_ge (suc n) [] h = refl
  take_of_ge (suc n) (x ∷ xs) h = ap (λ r. x ∷ r) (take_of_ge n xs (omega arith))

loop_enter :
    (s : Session) (len : ℕ) → (read_loop (typed []) s len).1 ≡ delivered (deliver s.line len).1
unfolding read_loop on_packet
loop_enter s len = refl

character-append :
    (s : Session) (len : ℕ) (k : Packet)
    → IsCharacter k
    → on_packet s len k ≡ go_on (append s (to_ascii k) (to_ascii k ∷ []))
unfolding on_packet
character-append s len k c =
    rw (c.is_ascii, c.no_tab, c.no_enter, c.no_backspace, c.no_ctrl, c.is_pressed) refl

append-content :
    (s : Session) (c : ℕ) (shown : List ℕ)
    → s.line.line_len < line_cap
    → length s.line.line_buffer ≡ line_max
    → let l = (append s c shown).line in
      (content l ≡ content s.line ++ c ∷ [])
      × (length l.line_buffer ≡ line_max)
      × (l.line_len ≡ s.line.line_len + 1)
      × (l.line_pos ≡ s.line.line_pos)
unfolding append
append-content s c shown lt size =
    let room : ltb s.line.line_len line_cap ≡ true = ground arith in
    rw room (
      take-set_end s.line.line_buffer s.line.line_len c (omega arith),
      length-set s.line.line_buffer s.line.line_len c ∙ size,
      refl,
      refl,
    )

deliver-whole :
    (l : Line) (len : ℕ) → 0 < len → l.line_pos ≡ 0 → (deliver l len).1 ≡ take (len - 1) (content l)
unfolding deliver
deliver-whole l len pos start = rw start (elim (Bool-cases (ltb (l.line_len - 0) (len - 1))) [
  | inl all ↦ rw all (
      ap (λ m. take m l.line_buffer) (omega arith)
      ∙ sym
          (take_of_ge (len - 1) (content l) (ground (arith, length-take l.line_len l.line_buffer))))
  | inr part ↦ rw part (sym (take-take (len - 1) l.line_len l.line_buffer (ground arith)))
])

typed-loop :
    (ks : List Packet) (s : Session) (len : ℕ)
    → 0 < len
    → AllCharacters ks
    → s.line.line_pos ≡ 0
    → length s.line.line_buffer ≡ line_max
    → s.line.line_len + length ks ≤ line_cap
    → (read_loop (typed ks) s len).1 ≡ delivered (take (len - 1) (content s.line ++ text ks))
unfolding read_loop
typed-loop [] s len pos c start size fits =
    loop_enter s len
    ∙ (ap delivered (deliver-whole s.line len pos start ∙ ap (take (len - 1)) (sym (append-nil _))))
typed-loop (k ∷ ks) s len pos c start size fits =
    let (held, kept, longer, at) =
      append-content s (to_ascii k) (to_ascii k ∷ []) (omega arith) size in
    rw (character-append s len k c.0, read_loop)
      (typed-loop ks (append s (to_ascii k) (to_ascii k ∷ [])) len pos c.1 (at ∙ start) kept
          (omega arith)
        ∙ ap (λ xs. delivered (take (len - 1) xs))
            (ap (λ xs. xs ++ text ks) held
              ∙ append_assoc (content s.line) (to_ascii k ∷ []) (text ks)))

-- Take a line that no task uses, and at most 255 characters that are typed with Enter at the end. A
-- read returns these characters, in order, or as many of them as its buffer has room for.
pub read-typed :
    (self : ℕ) (s : Session) (len : ℕ) (ks : List Packet)
    → 0 < len
    → IsValid s.line
    → s.line.owner ≡ none
    → AllCharacters ks
    → length ks ≤ line_cap
    → (read self s len (typed ks)).1 ≡ delivered (take (len - 1) (text ks))
unfolding read claim
read-typed self s len ks pos v unowned c fits =
    let nonempty : (len == 0) ≡ false = ground arith in
    rw (nonempty, unowned)
      (typed-loop ks
        (record s { line = record s.line { line_len = 0; line_pos = 0; owner = some self } }) len
        pos c refl v.buffer_length (omega arith))
