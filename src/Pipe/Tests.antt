-- ===== src/Pipe/Tests.antt =====
-- A pipe of capacity 3 that holds two bytes, the second of them behind the end of the buffer.
use panuti.Base.{
  ◌≡◌, refl, ◌+◌, ◌-◌, ◌<◌, ℕ, true, false, List, [], ◌∷◌, ◌++◌, some, none, arith, length, ltb,
  if◌then◌else◌,
}
use panuti.Pipe.{
  Pipe, ready, blocked, eof, max_waiters, read_raw, write_raw, write_copy, read_poll, read_finish,
  write_finish, read_loop, write_loop,
}
use panuti.Pipe.Raw.{IsValid, contents}
use panuti.Pipe.History.{
  History, idle, writing, write_byte, read_byte, read_end, finished, coming, Steps, start, next,
  begins_read, reads_byte, ends_read, polls_read, begins_write, writes_byte, pipe_conserves,
}
use panuti.Pipe.Race.{overlapping_writes}
use panuti.Pipe.Wake.{listed, woken_by_write, blocked_reader_woken, drained_reader_sees_eof}
use panuti.Pipe.Ends.{Ends, count_of, end_unref, end_unref-IsValid}
use panuti.Pipe.Ends

abbrev small : Pipe
small = record {
  buffer = 8 ∷ 0 ∷ 7 ∷ [];
  capacity = 3;
  head = 2;
  tail = 1;
  count = 2;
  refcount = 2;
  readers_waiting = [];
  writers_waiting = [];
  write_end_closed = false;
  read_end_closed = false;
}

abbrev two : List ℕ
two = 4 ∷ 5 ∷ []

abbrev drained : Pipe
drained = record small {
  head = 1;
  count = 0;
  readers_waiting = 3 ∷ 4 ∷ 5 ∷ 6 ∷ 7 ∷ 8 ∷ 9 ∷ 10 ∷ [];
}

small-IsValid : IsValid small
small-IsValid = record {
  storage = omega arith;
  head_in = omega arith;
  count_in = omega arith;
  tail_at = refl;
}

reads_across : (read_raw small 5).1 ≡ 7 ∷ 8 ∷ []
unfolding read_raw read_loop
reads_across = refl

writes_what_fits : (write_raw small two).1 ≡ 1
unfolding write_raw write_loop
writes_what_fits = refl

-- A ninth reader.
ninth_not_woken :
    listed (woken_by_write (write_finish (read_poll drained 11).0 (4 ∷ [])).1) 11 ≡ false
unfolding write_finish read_poll write_raw write_loop
ninth_not_woken = refl

abbrev initial : History
initial = record { pipe = small; section = idle; written = contents small; received = [] }

-- One byte is read, a task polls, and a writer has put in the first of two bytes.
abbrev later : History
later = record {
  pipe = write_byte (read_poll (read_end (read_byte small) 1) 1).0 4;
  section = writing (5 ∷ []) 2;
  written = contents small ++ 4 ∷ 5 ∷ [];
  received = [] ++ 7 ∷ [];
}

reads_and_writes : Steps initial later
unfolding read_poll
reads_and_writes =
    next
      (next
        (next
          (next (next (next start (begins_read 1 refl)) (reads_byte 0 1 refl)) (ends_read 1 refl))
          (polls_read 1))
        (begins_write two refl))
      (writes_byte 4 (5 ∷ []) 2 refl)

pipe_conserves_example :
    IsValid (finished later.section later.pipe)
    × (later.received
          ++ (coming later.section later.pipe ++ contents (finished later.section later.pipe))
        ≡ later.written)
pipe_conserves_example = pipe_conserves small small-IsValid reads_and_writes

overlapping_writes_example :
    let q = write_copy (write_copy small 1 two) 1 two in
    (q.count ≡ 2 + 1 + 1) × (3 < q.count) × (¬ IsValid q)
overlapping_writes_example =
    overlapping_writes small two two small-IsValid (omega arith) (omega arith) (omega arith)
      (omega arith)

ninth_blocks : (read_poll drained 11).1 ≡ blocked
unfolding read_poll
ninth_blocks = refl

blocked_reader_woken_example :
    listed (woken_by_write (write_finish (read_poll drained 11).0 (4 ∷ [])).1) 11 ≡ (
      if ltb (length drained.readers_waiting) max_waiters
      then true
      else listed drained.readers_waiting 11)
blocked_reader_woken_example = blocked_reader_woken drained 11 (4 ∷ []) (omega arith) ninth_blocks

drained_reader_sees_eof_example :
    let q = (read_finish small 2).0 in
    ((read_poll small 1).1 ≡ ready) × ((read_finish q 2).1 ≡ eof) × (q.write_end_closed ≡ false)
drained_reader_sees_eof_example =
    drained_reader_sees_eof small 1 2 2 small-IsValid (omega arith) (omega arith) refl

abbrev both : Ends
both = record { pipe = some small; read_end = some 1; write_end = some 2 }

both-IsValid : Ends.IsValid both
both-IsValid = record {
  read_positive = omega arith;
  write_positive = omega arith;
  matches = (omega arith, refl, refl, refl);
}

end_unref-IsValid_example :
    (after : Ends) × (woken : List ℕ) × (end_unref both false ≡ some (after, woken))
    × Ends.IsValid after
    × (count_of after false ≡ (if ltb 1 1 then some (1 - 1) else none))
end_unref-IsValid_example = end_unref-IsValid both false 1 refl both-IsValid
