-- ===== src/Handle/Free.antt =====
-- `handle_free`, and the lookup of a slot.
use panuti.Base.{
  ℕ, zero, suc, ◌/◌, ◌%◌, ◌≤◌, ◌<◌, ◌≡◌, refl, sym, inl, inr, Bool, true, false, ◌||◌, List, [],
  ◌∷◌, none, some, arith, length, get_or, take, ◌==◌, leb, if◌then◌else◌, Bool-cases, length-set,
  get_or-set, ◌∙◌, ◌+◌, ◌*◌, ltb, test_bit, test_bit-zero, bit_of_ne_zero,
}
use panuti.Base.Int.{pos}
use mathlib.Core.Bool.{false≢true}
use panuti.Bitmap.{IsBytes, is_set, unmark, is_set-unmark, unmark-IsBytes, length-unmark}
use panuti.Handle.{FdTable, zeroed, empty, bytes_for, all_zero, is_null, vacate, free, return_hslot}
use panuti.Handle.Slots.{IsValid, is_open}

empty-IsValid : IsValid empty
empty-IsValid = record {
  bytes = tt;
  openb_length = refl;
  table_length = refl;
  bounded = omega arith;
  whole_bytes = refl;
}

take_whole : (n : ℕ) (bs : List ℕ) → length bs ≤ n → take n bs ≡ bs
take_whole zero [] h = refl
take_whole zero (b ∷ bs) h = elim h [ ]
take_whole (suc n) [] h = refl
take_whole (suc n) (b ∷ bs) h = λ i. b ∷ take_whole n bs (omega arith) i

all_zero_reads : (bs : List ℕ) (i : ℕ) → all_zero bs ≡ true → get_or bs i 0 ≡ 0
all_zero_reads [] i h = refl
all_zero_reads (b ∷ bs) zero h = ground arith
all_zero_reads (b ∷ bs) (suc i) h = ground (arith, all_zero_reads bs i)

all_zero_clear : (bs : List ℕ) (i : ℕ) → all_zero bs ≡ true → is_set bs i ≡ false
unfolding is_set
all_zero_clear bs i h = rw (all_zero_reads bs (i / 8) h) (test_bit-zero (i % 8) (omega arith))

-- A byte that is not zero has a bit set.
some_set :
    (bs : List ℕ)
    → IsBytes bs
    → all_zero bs ≡ false
    → (i k : ℕ) × (i < length bs) × (k < 8) × (test_bit (get_or bs i 0) k ≡ true)
some_set [] h e = absurd (false≢true (sym e))
some_set (b ∷ bs) h e = elim (Bool-cases (b == 0)) [
  | inl zeros ↦
      let (i, k, inside, small, set) = some_set bs h.1 (ground arith) in
      (suc i, k, omega arith, small, set)
  | inr more ↦
      let (k, small, set) = bit_of_ne_zero b h.0 (λ z. ground arith) in
      (0, k, omega arith, small, set)
]

-- When no slot below the capacity is marked, every byte of the bitmap is zero.
all_clear :
    (bs : List ℕ) (cap : ℕ)
    → IsBytes bs
    → length bs ≡ bytes_for cap
    → cap % 8 ≡ 0
    → ((j : ℕ) → (if ltb j cap then is_set bs j else false) ≡ false)
    → all_zero bs ≡ true
unfolding is_set
all_clear bs cap h size whole clear = elim (Bool-cases (all_zero bs)) [
  | inl zeros ↦ zeros
  | inr more ↦
      let (i, k, inside, small, set) = some_set bs h more in
      let byte : (i * 8 + k) / 8 ≡ i = omega arith in
      let bit : (i * 8 + k) % 8 ≡ k = omega arith in
      let lt : i * 8 + k < cap = omega arith in
      let here : test_bit (get_or bs ((i * 8 + k) / 8) 0) ((i * 8 + k) % 8) ≡ true =
        rw (byte, bit) set in
      absurd (ground (arith, clear (i * 8 + k)))
]

-- A slot was closed, and nothing else changed.
pub record Closed (t u : FdTable) (slot : ℕ) : Type 0 where
  pub valid : IsValid u
  pub open_slots : (j : ℕ) → is_open u j ≡ (if slot == j then false else is_open t j)
  pub kept : (j : ℕ) → is_open u j ≡ true → get_or u.table j zeroed ≡ get_or t.table j zeroed
  pub given_back : slot < t.cap → ((j : ℕ) → is_open u j ≡ false) → u ≡ empty
  pub as_large : (j : ℕ) → is_open u j ≡ true → u.cap ≡ t.cap

vacate-Closed : (t : FdTable) (slot : ℕ) → IsValid t → slot < t.cap → Closed t (vacate t slot) slot
unfolding vacate
vacate-Closed t slot v inside = elim (Bool-cases (all_zero (unmark t.openb slot))) [
  | inl zeros ↦
      rw (whole, zeros)
        (record {
          valid = empty-IsValid;
          open_slots = λ j. ground (arith, bits j, all_zero_clear (unmark t.openb slot) j zeros);
          kept = λ j h. ground arith;
          given_back = λ lt none_open. refl;
          as_large = λ j h. ground arith;
        })
  | inr some_open ↦
      rw (whole, some_open)
        (record {
          valid = record {
            bytes = unmark-IsBytes t.openb slot v.bytes;
            openb_length = length-unmark t.openb slot ∙ v.openb_length;
            table_length = length-set t.table slot zeroed ∙ v.table_length;
            bounded = v.bounded;
            whole_bytes = v.whole_bytes;
          };
          open_slots = λ j. ground (arith, bits j);
          kept = λ j h. ground (
            arith,
            bits j,
            get_or-set t.table slot j zeroed zeroed (omega (arith, v.table_length)),
          );
          given_back = λ lt none_open. absurd (
              false≢true (
                sym some_open
                ∙ all_clear (unmark t.openb slot) t.cap (unmark-IsBytes t.openb slot v.bytes)
                    (length-unmark t.openb slot ∙ v.openb_length) v.whole_bytes none_open));
          as_large = λ j h. refl;
        })
]
  where
    bits :
        (j : ℕ) → is_set (unmark t.openb slot) j ≡ (if slot == j then false else is_set t.openb j)
    bits j = is_set-unmark t.openb slot j v.bytes (omega (arith, v.openb_length))

    whole : take (bytes_for t.cap) (unmark t.openb slot) ≡ unmark t.openb slot
    whole = take_whole _ _ (omega (arith, length-unmark t.openb slot, v.openb_length))

not_null {ℓ} : {A : Type ℓ} (xs : List A) → 0 < length xs → is_null xs ≡ false
not_null [] h = elim h [ ]
not_null (x ∷ xs) h = refl

-- Out of range, or of a table that is null, the code returns at once.
guarded :
    (t : FdTable) (slot : ℕ)
    → IsValid t
    → (is_null t.table || is_null t.openb || leb t.cap slot) ≡ leb t.cap slot
guarded t slot v = elim (Bool-cases (leb t.cap slot)) [
  | inl past ↦ rw past (or_true (is_null t.table || is_null t.openb))
  | inr inside ↦ rw (
    inside,
    not_null t.table (ground (arith, v.table_length)),
    not_null t.openb (ground (arith, v.openb_length)),
  )
]
  where
    or_true : (b : Bool) → (b || true) ≡ true
    or_true b = ground arith

-- `handle_free` closes the slot of a descriptor that is not negative, in use or not, and no other;
-- every slot still in use keeps its handle. When no slot stays in use after the call at a slot in
-- range, the table is given back; else the capacity stays.
pub free-Closed : (t : FdTable) (slot : ℕ) → IsValid t → Closed t (free t (pos slot)) slot
unfolding free
free-Closed t slot v = elim (Bool-cases (leb t.cap slot)) [
  | inl past ↦
      rw (guarded t slot v, past)
        (record {
          valid = v;
          open_slots = λ j. ground arith;
          kept = λ j h. refl;
          given_back = λ lt none_open. absurd (ground arith);
          as_large = λ j h. refl;
        })
  | inr inside ↦ rw (guarded t slot v, inside) (vacate-Closed t slot v (ground arith))
]

return_hslot_lem :
    (t : FdTable) (slot : ℕ)
    → IsValid t
    → return_hslot t slot ≡ (if is_open t slot then some (get_or t.table slot zeroed) else none)
unfolding return_hslot
return_hslot_lem t slot v = rw (guarded t slot v) (ground arith)

-- A descriptor that is freed is not found any more, and every other one is found as before, the handle
-- and all, also when the table was given back.
pub return_hslot-free :
    (t : FdTable) (slot j : ℕ)
    → IsValid t
    → return_hslot (free t (pos slot)) j ≡ (if slot == j then none else return_hslot t j)
return_hslot-free t slot j v =
    let c = free-Closed t slot v in
    rw (return_hslot_lem (free t (pos slot)) j c.valid, return_hslot_lem t j v)
      (ground (arith, c.open_slots j, c.kept j))
