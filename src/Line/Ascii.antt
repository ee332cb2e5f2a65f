-- ===== src/Line/Ascii.antt =====
-- Key packets and `keypacket_to_ascii`, libc/include/panuti/kbd.h and libc/panuti/kbd/kpktasc.c. A
-- key code is its number in the enumeration.
use panuti.Base.{ℕ, ◌+◌, ◌-◌, Bool, not, ◌&&◌, List, [], ◌∷◌, get_or, ◌==◌, leb, if◌then◌else◌}

pub record Packet : Type 0 where
  pub keycode : ℕ
  pub pressed : Bool
  pub shift : Bool
  pub ctrl : Bool
  pub caps_lock : Bool

abbrev pub keycode_a : ℕ
keycode_a = 1

abbrev pub keycode_c : ℕ
keycode_c = 3

abbrev pub keycode_d : ℕ
keycode_d = 4

abbrev pub keycode_h : ℕ
keycode_h = 8

abbrev pub keycode_u : ℕ
keycode_u = 21

abbrev pub keycode_z : ℕ
keycode_z = 26

abbrev pub keycode_0 : ℕ
keycode_0 = 27

abbrev pub keycode_9 : ℕ
keycode_9 = 36

abbrev pub keycode_period : ℕ
keycode_period = 37

abbrev pub keycode_rbracket : ℕ
keycode_rbracket = 46

abbrev pub keycode_space : ℕ
keycode_space = 56

abbrev pub keycode_tab : ℕ
keycode_tab = 57

abbrev pub keycode_backspace : ℕ
keycode_backspace = 58

abbrev pub keycode_enter : ℕ
keycode_enter = 59

abbrev pub keycode_backtick : ℕ
keycode_backtick = 60

-- ")!@#$%^&*("
abbrev digit_shifted : List ℕ
digit_shifted = 41 ∷ 33 ∷ 64 ∷ 35 ∷ 36 ∷ 37 ∷ 94 ∷ 38 ∷ 42 ∷ 40 ∷ []

-- The keys from the period to the right bracket, in the order of the enumeration: ".,;'-=/\[]".
abbrev marks : List ℕ
marks = 46 ∷ 44 ∷ 59 ∷ 39 ∷ 45 ∷ 61 ∷ 47 ∷ 92 ∷ 91 ∷ 93 ∷ []

-- "><:\"_+?|{}"
abbrev marks_shifted : List ℕ
marks_shifted = 62 ∷ 60 ∷ 58 ∷ 34 ∷ 95 ∷ 43 ∷ 63 ∷ 124 ∷ 123 ∷ 125 ∷ []

abbrev letter : Packet → ℕ
letter k =
    let upper = if k.caps_lock then not k.shift else k.shift in
    (if upper then 65 else 97) + (k.keycode - keycode_a)

-- `keypacket_to_ascii`
unfoldable pub to_ascii : Packet → ℕ
to_ascii k =
    if leb keycode_a k.keycode && leb k.keycode keycode_z
    then letter k
    else if leb keycode_0 k.keycode && leb k.keycode keycode_9
    then (if k.shift
        then get_or digit_shifted (k.keycode - keycode_0) 0
        else 48 + (k.keycode - keycode_0))
    else if k.keycode == keycode_space
    then 32
    else if leb keycode_period k.keycode && leb k.keycode keycode_rbracket
    then get_or (if k.shift then marks_shifted else marks) (k.keycode - keycode_period) 0
    else if k.keycode == keycode_backtick
    then (if k.shift then 126 else 96)
    else 0
