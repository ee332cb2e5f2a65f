-- ===== src/Kmsg/Oldest.antt =====
-- Where a read of the ring starts when its handle stands on bytes that have been overwritten.
use panuti.Base.{
  ℕ, zero, suc, ◌≤◌, ◌<◌, ◌≡◌, ◌≢◌, refl, inl, inr, Bool, true, false, ◌&&◌, ◌||◌, Option, some,
  arith, get_or, ltb, leb, ◌==◌, Bool-cases,
}
use panuti.Kmsg.{
  Kmsg, Stream, buffer_size, header_len, tag, ahead, distance, resync_loop, read_from, read,
}
use panuti.Kmsg.Reading.{distance-jump}

-- A place before the head at which a record may start: a tag with a level behind it, or one whose level
-- is not written yet.
abbrev pub starts : Kmsg → ℕ → Bool
starts k c =
    (get_or k.buffer c 0 == tag)
    && (ltb (distance k.head c) header_len || leb (get_or k.buffer (ahead c) 0) 1)

-- `c` is the first place from `start` on at which a record may start, or the head.
pub data FirstFrom (k : Kmsg) : (start c : ℕ) → Type 0 where
  at_head : {start : ℕ} → start ≡ k.head → FirstFrom k start start
  at_start : {start : ℕ} → starts k start ≡ true → FirstFrom k start start
  further :
      {start c : ℕ}
      → start ≢ k.head
      → starts k start ≡ false
      → FirstFrom k (ahead start) c
      → FirstFrom k start c

abbrev First : Kmsg → (start : ℕ) → Option ℕ → Type 0
First k start o = (c : ℕ) × (o ≡ some c) × FirstFrom k start c

resync_loop-First :
    (fuel : ℕ) (k : Kmsg) (start : ℕ)
    → k.head < buffer_size
    → start < buffer_size
    → distance k.head start < fuel
    → First k start (resync_loop fuel k start)
unfolding resync_loop
resync_loop-First zero k start hh hc enough = absurd (omega arith)
resync_loop-First (suc fuel) k start hh hc enough = elim (Bool-cases (start == k.head)) [
  | inl same ↦ rw same (start, refl, at_head (ground arith))
  | inr more ↦
      let away : 0 < distance k.head start = ground (arith, hh, hc) in
      let apart : start ≢ k.head = λ e. ground arith in
      let (c, found, first) =
        resync_loop-First fuel k (ahead start) hh (omega arith)
          (omega (arith, distance-jump k.head start 1 hh hc)) in
      elim (Bool-cases (starts k start)) [
        | inl yes_here ↦ (start, ground arith, at_start yes_here)
        | inr none_here ↦ (c, ground (arith, found), further apart none_here first)
      ]
]

-- Once the ring has wrapped, so that its head is before its tail, every read starts at the oldest record,
-- the first place from the tail on at which a record may start, or the head if there is none: wherever its
-- handle stands and whatever it had pending, it returns what a read from that place returns.
pub wrapped_rereads :
    (fuel : ℕ) (k : Kmsg) (s : Stream) (len : ℕ)
    → k.head < k.tail
    → k.tail < buffer_size
    → buffer_size ≤ fuel
    → (oldest : ℕ) × FirstFrom k k.tail oldest
      × ((cursor pending : ℕ) → read fuel k s cursor pending len ≡ read_from fuel k s 0 len oldest)
unfolding read
wrapped_rereads fuel k s len h ht enough =
    let (oldest, found, first) = resync_loop-First fuel k k.tail (omega arith) ht (omega arith) in
    (
      oldest,
      first,
      λ cursor pending.
          let out : (ltb cursor k.tail || ltb k.head cursor) ≡ true = ground arith in
          rw (out, found) refl,
    )
