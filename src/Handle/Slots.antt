-- ===== src/Handle/Slots.antt =====
-- The invariant of a handle table, and the search for a free slot.
use panuti.Base.{
  ℕ, zero, suc, ◌+◌, ◌-◌, ◌*◌, ◌/◌, ◌%◌, ◌≤◌, ◌<◌, ◌≡◌, inl, inr, Bool, true, false, List, Option,
  none, some, arith, length, get_or, ◌==◌, ltb, leb, if◌then◌else◌, test_bit, test_bit_full,
  Bool-cases, Option-cases,
}
use panuti.Bitmap.{is_set, IsBytes}
use panuti.Handle.{FdTable, max_handles, bytes_for, scan_bits, scan_bytes}

pub record IsValid (t : FdTable) : Type 0 where
  pub bytes : IsBytes t.openb
  pub openb_length : length t.openb ≡ bytes_for t.cap
  pub table_length : length t.table ≡ t.cap
  pub bounded : t.cap ≤ max_handles
  pub whole_bytes : t.cap % 8 ≡ 0

-- A slot in use.
abbrev pub is_open : FdTable → ℕ → Bool
is_open t slot = if ltb slot t.cap then is_set t.openb slot else false

-- What the search found: the lowest slot that is not in use.
abbrev pub Lowest : FdTable → ℕ → Type 0
Lowest t slot =
    (slot < t.cap) × (is_open t slot ≡ false) × ((j : ℕ) → j < slot → is_open t j ≡ true)

bit_of :
    (map : List ℕ) (byte bit : ℕ)
    → bit < 8
    → is_set map (byte * 8 + bit) ≡ test_bit (get_or map byte 0) bit
unfolding is_set
bit_of map byte bit h =
    let e : (byte * 8 + bit) / 8 ≡ byte = omega arith in
    let e' : (byte * 8 + bit) % 8 ≡ bit = omega arith in rw (e, e')

-- One more slot in use extends the slots in use.
extend :
    (t : FdTable) (n : ℕ)
    → ((j : ℕ) → j < n → is_open t j ≡ true)
    → is_open t n ≡ true
    → (j : ℕ) → j < n + 1
    → is_open t j ≡ true
extend t n below h j lt = elim (Bool-cases (j == n)) [
  | inl e ↦ let e' : j ≡ n = ground arith in rw e' h
  | inr e ↦ below j (ground arith)
]

-- The outcome of a search whose next slot is `slot`, up to `end`.
abbrev pub Searched : FdTable → ℕ → Option ℕ → Type 0
Searched t end none = (j : ℕ) → j < end → j < t.cap → is_open t j ≡ true
Searched t end (some slot) = Lowest t slot

Searched-past :
    (t : FdTable) (slot end : ℕ)
    → ((j : ℕ) → j < slot → is_open t j ≡ true)
    → t.cap ≤ slot
    → Searched t end none
Searched-past t slot end below h j lt inside = below j (omega arith)

scan_bits-Searched :
    (t : FdTable) (byte n bit : ℕ)
    → bit + n ≡ 8
    → ((j : ℕ) → j < byte * 8 + bit → is_open t j ≡ true)
    → Searched t (byte * 8 + 8) (scan_bits t byte n bit)
unfolding scan_bits
scan_bits-Searched t byte zero bit e below = λ j lt inside. below j (omega arith)
scan_bits-Searched t byte (suc n) bit e below = elim (Bool-cases (leb t.cap (byte * 8 + bit))) [
  | inl past ↦ rw past (Searched-past t (byte * 8 + bit) (byte * 8 + 8) below (ground arith))
  | inr inside ↦ elim (Bool-cases (test_bit (get_or t.openb byte 0) bit)) [
    | inl used ↦
        rw (inside, used)
          (scan_bits-Searched t byte n (bit + 1) (omega arith) (λ j lt.
            extend t (byte * 8 + bit) below (ground (arith, bit_of t.openb byte bit)) j
              (omega arith)))
    | inr clear ↦
        rw (inside, clear) ((ground arith, ground (arith, bit_of t.openb byte bit), below))
  ]
]

-- Every slot of a full byte is in use.
full_byte :
    (t : FdTable) (byte : ℕ)
    → get_or t.openb byte 0 ≡ 0xFF
    → ((j : ℕ) → j < byte * 8 → j < t.cap → is_open t j ≡ true)
    → (j : ℕ) → j < byte * 8 + 8
    → j < t.cap
    → is_open t j ≡ true
full_byte t byte full below j lt inside = elim (Bool-cases (ltb j (byte * 8))) [
  | inl old ↦ below j (ground arith) inside
  | inr new ↦ at_bit (j - byte * 8) (ground arith) (ground arith)
]
  where
    at_bit : (bit : ℕ) → bit < 8 → byte * 8 + bit ≡ j → is_open t j ≡ true
    at_bit bit small e =
        rw (← e) (ground (arith, bit_of t.openb byte bit small, test_bit_full bit small))

scan_bytes-Searched :
    (t : FdTable) (n byte : ℕ)
    → byte + n ≡ bytes_for t.cap
    → ((j : ℕ) → j < byte * 8 → j < t.cap → is_open t j ≡ true)
    → Searched t t.cap (scan_bytes t n byte)
unfolding scan_bytes
scan_bytes-Searched t zero byte e below = λ j lt inside. below j (omega arith) inside
scan_bytes-Searched t (suc n) byte e below = elim (Bool-cases (get_or t.openb byte 0 == 0xFF)) [
  | inl full ↦ rw full (
      scan_bytes-Searched t n (byte + 1) (omega arith)
        (λ j lt inside. full_byte t byte (ground arith) below j (omega arith) inside))
  | inr partial ↦ elim (Option-cases (scan_bits t byte 8 0)) [
    | inl nothing ↦
        rw (partial, nothing)
          (scan_bytes-Searched t n (byte + 1) (omega arith)
            (λ j lt inside. (rw nothing at bits) j (omega arith) inside))
    | inr (slot, found) ↦ rw (partial, found) (rw found at bits)
  ]
]
  where
    bits : Searched t (byte * 8 + 8) (scan_bits t byte 8 0)
    bits = scan_bits-Searched t byte 8 0 (omega arith) (λ j lt. below j (omega arith) (omega arith))

-- The search of `handle_alloc` finds the lowest slot that is not in use, or all are in use.
pub search_lem : (t : FdTable) → Searched t t.cap (scan_bytes t (bytes_for t.cap) 0)
search_lem t = scan_bytes-Searched t (bytes_for t.cap) 0 (omega arith) (λ j lt. elim lt [ ])
