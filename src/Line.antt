-- ===== src/Line.antt =====
-- The line discipline of the keyboard, kernel/kernel/drivers/kbd/line.c. The bytes that it writes to
-- the console are the list `echoed`, the oldest first; the queue of key packets is a list of what
-- `kbd_core_read_line_queue` answers, and a call that finds it empty waits. A task is a number.
pub mod Ascii
pub mod Bounds
pub mod Typing
mod Tests
use panuti.Base.{
  ℕ, zero, suc, ◌+◌, ◌-◌, Bool, true, false, not, ◌&&◌, List, [], ◌∷◌, ◌++◌, Option, none, some,
  set, take, drop, replicate, get_or, ◌==◌, ltb, if◌then◌else◌,
}
use panuti.Line.Ascii.{
  Packet, to_ascii, keycode_c, keycode_d, keycode_h, keycode_u, keycode_tab, keycode_backspace,
  keycode_enter,
}

abbrev pub line_max : ℕ
line_max = 256

abbrev pub line_cap : ℕ
line_cap = line_max - 1

pub record Line : Type 0 where
  pub line_buffer : List ℕ
  pub line_len : ℕ
  pub line_pos : ℕ
  -- `in_use` with `owner`: `none` when it is not in use.
  pub owner : Option ℕ

-- The line and the console.
pub record Session : Type 0 where
  pub line : Line
  pub echoed : List ℕ

abbrev pub echo : Session → List ℕ → Session
echo s out = record s { echoed = s.echoed ++ out }

-- `console_erase_last`
abbrev pub erase_last : List ℕ
erase_last = 8 ∷ 32 ∷ 8 ∷ []

abbrev pub bell : List ℕ
bell = 7 ∷ []

unfoldable pub erases : ℕ → List ℕ
erases zero = []
erases (suc n) = erase_last ++ erases n

abbrev pub clear_line : Session → Session
clear_line s = record (echo s (erases s.line.line_len)) {
  line = record s.line { line_len = 0; line_pos = 0 };
}

abbrev pub shorten : Line → Line
shorten l =
    let n = l.line_len - 1 in
    record l { line_len = n; line_pos = if ltb n l.line_pos then n else l.line_pos }

unfoldable pub backspace : Session → Session
backspace s =
    let l = s.line in
    if l.line_len == 0
    then s
    else record (echo s
        (if get_or l.line_buffer (l.line_len - 1) 0 == 9 then erases 4 else erases 1)) {
          line = shorten l;
        }

-- `line_claim` by the current task; `none` is `PANUTIERRNO_BUSY`.
abbrev pub claim_as : ℕ → Line → Option ℕ → Option Line
claim_as self l none = some (record l { line_len = 0; line_pos = 0; owner = some self })
claim_as self l (some other) = if other == self then some l else none

unfoldable pub claim : ℕ → Line → Option Line
claim self l = claim_as self l l.owner

abbrev pub release : Line → Line
release l = record l { line_len = 0; line_pos = 0; owner = none }

-- What a read gives its caller.
pub data Outcome : Type 0 where
  -- The bytes copied; their number is returned. The 0 that the call puts behind them is left out.
  delivered : List ℕ → Outcome
  -- The call returns -1.
  failed : Outcome
  -- The call returns `PANUTIERRNO_BUSY`.
  busy : Outcome
  -- The call waits for a packet.
  waiting : Outcome

-- `deliver_line` into a buffer of `len` bytes.
unfoldable pub deliver : Line → ℕ → Line × List ℕ
deliver l len =
    let avail = l.line_len - l.line_pos in
    let n = if ltb avail (len - 1) then avail else len - 1 in
    let moved : Line = record l { line_pos = l.line_pos + n } in
    (
      if moved.line_pos == moved.line_len then release moved else moved,
      take n (drop l.line_pos l.line_buffer),
    )

-- A byte is appended with its echo, or the bell rings.
unfoldable pub append : Session → ℕ → List ℕ → Session
append s c shown =
    let l = s.line in
    if ltb l.line_len line_cap
    then record (echo s shown) {
      line = record l { line_buffer = set l.line_buffer l.line_len c; line_len = l.line_len + 1 };
    }
    else echo s bell

-- What the body of the loop of `kbd_line_read` does with a packet: it goes on, or it ends the call.
pub data Turn : Type 0 where
  go_on : Session → Turn
  finish : Session → Outcome → Turn

unfoldable pub control : Session → ℕ → Turn
control s keycode =
    if keycode == keycode_c
    then go_on (clear_line s)
    else if keycode == keycode_u
    then go_on (clear_line s)
    else if keycode == keycode_d
    then (if s.line.line_len == 0
        then finish (record s { line = release s.line }) (delivered [])
        else go_on (clear_line s))
    else if keycode == keycode_h
    then go_on (backspace s)
    else go_on s

abbrev pub enter : Session → ℕ → Turn
enter s len =
    let (l, out) = deliver s.line len in
    finish (record (echo s (10 ∷ [])) { line = l }) (delivered out)

abbrev pub printable : Session → ℕ → Turn
printable s c = if c == 0 then go_on s else go_on (append s c (c ∷ []))

unfoldable pub on_packet : Session → ℕ → Packet → Turn
on_packet s len k =
    if not k.pressed
    then go_on s
    else if k.ctrl
    then control s k.keycode
    else if k.keycode == keycode_backspace
    then go_on (backspace s)
    else if k.keycode == keycode_enter
    then enter s len
    else if k.keycode == keycode_tab
    then go_on (append s 9 (replicate 4 32))
    else printable s (to_ascii k)

-- The loop of `kbd_line_read`; `none` is a queue that fails.
unfoldable pub read_loop : List (Option Packet) → Session → ℕ → Session × Outcome
read_loop [] s len = (s, waiting)
read_loop (none ∷ ks) s len = (record s { line = release s.line }, failed)
read_loop (some k ∷ ks) s len = elim (on_packet s len k) as (λ _. Session × Outcome) [
  | go_on t ↦ read_loop ks t len
  | finish t out ↦ (t, out)
]

-- `kbd_line_read`
abbrev pub claimed_read : Option Line → Session → ℕ → List (Option Packet) → Session × Outcome
claimed_read none s len ks = (s, busy)
claimed_read (some l) s len ks = read_loop ks (record s { line = l }) len

unfoldable pub read : ℕ → Session → ℕ → List (Option Packet) → Session × Outcome
read self s len ks =
    if len == 0 then (s, delivered []) else claimed_read (claim self s.line) s len ks

-- `kbd_line_close`
abbrev close_as : ℕ → Line → Option ℕ → Line
close_as self l none = l
close_as self l (some other) = if other == self then release l else l

unfoldable pub close : ℕ → Line → Line
close self l = close_as self l l.owner

-- `kbd_line_init`
abbrev pub initial : Line
initial = record { line_buffer = replicate line_max 0; line_len = 0; line_pos = 0; owner = none }
