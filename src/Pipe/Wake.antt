-- ===== src/Pipe/Wake.antt =====
-- Who is woken, and what a call returns when others ran between its steps.
use panuti.Base.{
  ℕ, ◌-◌, ◌≤◌, ◌<◌, ◌≡◌, refl, Bool, true, false, ◌||◌, List, [], ◌∷◌, ◌++◌, arith, length, ◌==◌,
  if◌then◌else◌, ltb,
}
use panuti.Pipe.{
  Pipe, ready, blocked, WriteResult, eof, broken, wrote, max_waiters, register, read_raw, write_raw,
  read_poll, read_finish, write_finish,
}
use panuti.Pipe.Raw.{IsValid}

abbrev pub listed : List ℕ → ℕ → Bool
listed [] a = false
listed (x ∷ xs) a = if x == a then true else listed xs a

listed-snoc :
    (xs : List ℕ) (a b : ℕ) → listed (xs ++ a ∷ []) b ≡ (if listed xs b then true else a == b)
listed-snoc [] a b = ground arith
listed-snoc (x ∷ xs) a b = ground (arith, listed-snoc xs a b)

-- The tasks that a write wakes.
abbrev pub woken_by_write : WriteResult → List ℕ
woken_by_write broken = []
woken_by_write (wrote n woken) = woken

-- A write into a pipe with room wakes every reader on the list, and clears it.
write_wakes :
    (p : Pipe) (src : List ℕ)
    → (p.count == p.capacity) ≡ false
    → (woken_by_write (write_finish p src).1 ≡ p.readers_waiting)
      × ((write_finish p src).0.readers_waiting ≡ [])
unfolding write_finish write_raw
write_wakes p src h = rw h ((refl, refl))

-- A reader that blocks on an empty pipe of positive capacity is woken by the next write, if fewer
-- than eight readers wait already or it is one of them; if eight others wait, it blocks all the
-- same and the next write does not wake it.
pub blocked_reader_woken :
    (p : Pipe) (self : ℕ) (src : List ℕ)
    → 0 < p.capacity
    → (read_poll p self).1 ≡ blocked
    → listed (woken_by_write (write_finish (read_poll p self).0 src).1) self
      ≡ (if ltb (length p.readers_waiting) max_waiters then true else listed p.readers_waiting self)
unfolding read_poll
blocked_reader_woken p self src pos h =
    let waits : (ltb 0 p.count || p.write_end_closed) ≡ false = ground arith in
    let room : (p.count == p.capacity) ≡ false = ground arith in
    rw
      (
        waits,
        (write_wakes (record p { readers_waiting = register p.readers_waiting self }) src room).0,
      )
      (ground (arith, listed-snoc p.readers_waiting self self))

-- One reader finds bytes and goes on; before it takes them another one takes all. The first then
-- reports the end of the stream, although the write end is still open.
pub drained_reader_sees_eof :
    (p : Pipe) (self len m : ℕ)
    → IsValid p
    → 0 < p.count
    → p.count ≤ len
    → p.write_end_closed ≡ false
    → let q = (read_finish p len).0 in
      ((read_poll p self).1 ≡ ready) × ((read_finish q m).1 ≡ eof) × (q.write_end_closed ≡ false)
unfolding read_poll read_finish read_raw
drained_reader_sees_eof p self len m v pos le is_open =
    let goes : (ltb 0 p.count || p.write_end_closed) ≡ true = ground arith in
    let held : (p.count == 0) ≡ false = ground arith in
    let all : (if ltb p.count len then p.count else len) ≡ p.count = ground arith in
    let emptied : (p.count - p.count == 0) ≡ true = ground arith in
    rw (goes, held, all) (rw emptied ((refl, refl, is_open)))
