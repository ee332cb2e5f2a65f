-- ===== src/Line/Tests.antt =====
-- A line that no task uses, and the keys b and 7.
use panuti.Base.{◌≡◌, refl, ◌-◌, ℕ, true, false, List, [], ◌∷◌, some, none, arith, take, replicate}
use panuti.Line.{Session, delivered, waiting, on_packet, read_loop, read, deliver, claim, append}
use panuti.Line.Ascii.{Packet, to_ascii}
use panuti.Line.Bounds.{IsValid, Fits, read-IsValid}
use panuti.Line.Typing.{AllCharacters, typed, text, read-typed}

abbrev idle : Session
idle = record {
  line = record { line_buffer = replicate 256 0; line_len = 0; line_pos = 0; owner = none };
  echoed = [];
}

abbrev press : ℕ → Packet
press keycode = record {
  keycode = keycode;
  pressed = true;
  shift = false;
  ctrl = false;
  caps_lock = false;
}

abbrev keys : List Packet
keys = press 2 ∷ press 34 ∷ []

idle-IsValid : IsValid idle.line
idle-IsValid = record { buffer_length = refl; len_in = omega arith; pos_in = omega arith }

keys-AllCharacters : AllCharacters keys
unfolding to_ascii
keys-AllCharacters = (
  record {
    is_pressed = refl;
    no_ctrl = refl;
    no_backspace = refl;
    no_enter = refl;
    no_tab = refl;
    is_ascii = refl;
  },
  (
    record {
      is_pressed = refl;
      no_ctrl = refl;
      no_backspace = refl;
      no_enter = refl;
      no_tab = refl;
      is_ascii = refl;
    },
    tt,
  ),
)

reads_b7 : (read 5 idle 10 (typed keys)).1 ≡ delivered (98 ∷ 55 ∷ [])
unfolding read claim read_loop on_packet deliver append to_ascii
reads_b7 = refl

-- What a short buffer leaves is given out only at the next Enter.
leftover_waits : (read 5 (read 5 idle 2 (typed keys)).0 10 []).1 ≡ waiting
unfolding read claim read_loop on_packet deliver append to_ascii
leftover_waits = refl

read-IsValid_example :
    IsValid (read 5 idle 2 (some (press 57) ∷ none ∷ [])).0.line
    × Fits 2 (read 5 idle 2 (some (press 57) ∷ none ∷ [])).1
read-IsValid_example =
    read-IsValid 5 idle 2 (some (press 57) ∷ none ∷ []) (omega arith) idle-IsValid

read-typed_example : (read 5 idle 2 (typed keys)).1 ≡ delivered (take (2 - 1) (text keys))
read-typed_example =
    read-typed 5 idle 2 keys (omega arith) idle-IsValid refl keys-AllCharacters (omega arith)
