-- ===== src/Kmsg/Ring.antt =====
-- The ring as a sequence of bytes, the newest first.
use panuti.Base.{
  ℕ, ◌+◌, ◌-◌, ◌%◌, ◌<◌, ◌≡◌, refl, ap, ◌∙◌, min, false, List, [], ◌∷◌, arith, length, length-set,
  get_or, get_or-set, set, ◌==◌, Bool-cases, inl, inr,
}
use panuti.Kmsg.{Kmsg, buffer_size, push_byte, push_bytes, distance}

pub record IsValid (k : Kmsg) : Type 0 where
  pub buffer_length : length k.buffer ≡ buffer_size
  pub head_in : k.head < buffer_size
  pub tail_in : k.tail < buffer_size

-- How many bytes the ring holds.
abbrev pub count : Kmsg → ℕ
count k = distance k.head k.tail

-- The byte before the last `j` ones.
abbrev pub newest : Kmsg → ℕ → ℕ
newest k j = get_or k.buffer ((k.head + buffer_size - 1 - j) % buffer_size) 0

push_byte-IsValid : (k : Kmsg) (c : ℕ) → IsValid k → IsValid (push_byte k c)
unfolding push_byte
push_byte-IsValid k c v = record {
  buffer_length = length-set k.buffer k.head c ∙ v.buffer_length;
  head_in = omega arith;
  tail_in = ground (arith, v.tail_in);
}

push_bytes-IsValid : (cs : List ℕ) (k : Kmsg) → IsValid k → IsValid (push_bytes cs k)
unfolding push_bytes
push_bytes-IsValid [] k v = v
push_bytes-IsValid (c ∷ cs) k v = push_bytes-IsValid cs (push_byte k c) (push_byte-IsValid k c v)

push_byte-count :
    (k : Kmsg) (c : ℕ) → IsValid k → count (push_byte k c) ≡ min (buffer_size - 1) (count k + 1)
unfolding push_byte
push_byte-count k c v = elim (Bool-cases ((k.head + 1) % buffer_size == k.tail)) [
  | inl full ↦ rw full (ground (arith, v.head_in, v.tail_in))
  | inr room ↦ rw room (ground (arith, v.head_in, v.tail_in))
]

-- A byte that is pushed is the newest one, and the others move back by one place. The ring holds one byte more,
-- or the oldest one is gone once it holds 8191. Head and tail stay in the buffer.
pub push_byte_lem :
    (k : Kmsg) (c : ℕ)
    → IsValid k
    → IsValid (push_byte k c)
      × (count (push_byte k c) ≡ min (buffer_size - 1) (count k + 1))
      × (newest (push_byte k c) 0 ≡ c)
      × ((j : ℕ) → j + 1 < count (push_byte k c) → newest (push_byte k c) (j + 1) ≡ newest k j)
unfolding push_byte
push_byte_lem k c v = (
  push_byte-IsValid k c v,
  push_byte-count k c v,
  let place : ((k.head + 1) % buffer_size + buffer_size - 1 - 0) % buffer_size ≡ k.head =
        omega (arith, v.head_in) in
      ap (λ i. get_or (set k.buffer k.head c) i 0) place
      ∙ get_or-set k.buffer k.head k.head c 0 (omega (arith, v.head_in, v.buffer_length))
      ∙ ground arith,
  λ j h.
      let early : j + 1 < buffer_size = omega (arith, push_byte-count k c v) in
      let place : ((k.head + 1) % buffer_size + buffer_size - 1 - (j + 1)) % buffer_size
          ≡ (k.head + buffer_size - 1 - j) % buffer_size =
        omega (arith, v.head_in) in
      let away : (k.head == (k.head + buffer_size - 1 - j) % buffer_size) ≡ false =
        ground (arith, v.head_in) in
      ap (λ i. get_or (set k.buffer k.head c) i 0) place
      ∙ get_or-set k.buffer k.head ((k.head + buffer_size - 1 - j) % buffer_size) c 0
          (omega (arith, v.head_in, v.buffer_length))
      ∙ rw away refl,
)
