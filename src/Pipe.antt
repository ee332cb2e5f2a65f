-- ===== src/Pipe.antt =====
-- Pipes, kernel/kernel/handle/pipe.c. A task is a number, and the first `no_readers_waiting` entries
-- of `readers_waiting` are a list; so for the writers. A call that may block is two steps, since other
-- tasks run in between: `read_poll` is one round of its loop, with interrupts off, and `read_finish`
-- what follows the loop. Waking is the list of the tasks that are handed to `task_wake`.
pub mod Items
pub mod Raw
pub mod History
pub mod Race
pub mod Wake
pub mod Ends
mod Tests
use panuti.Base.{
  ℕ, zero, suc, ◌+◌, ◌-◌, ◌*◌, ◌/◌, ◌%◌, ◌^◌, Bool, true, false, not, ◌&&◌, ◌||◌, List, [], ◌∷◌,
  ◌++◌, Option, none, some, length, get_or, set, take, replicate, ◌==◌, ltb, leb, if◌then◌else◌,
}

pub record Pipe : Type 0 where
  pub buffer : List ℕ
  pub capacity : ℕ
  pub head : ℕ
  pub tail : ℕ
  pub count : ℕ
  pub refcount : ℕ
  pub readers_waiting : List ℕ
  pub writers_waiting : List ℕ
  pub write_end_closed : Bool
  pub read_end_closed : Bool

abbrev pub buffer_size : ℕ
buffer_size = 4096

abbrev pub max_waiters : ℕ
max_waiters = 8

-- The loop of `pipe_read_raw`: the bytes, and the new head.
unfoldable pub read_loop : Pipe → ℕ → ℕ → List ℕ × ℕ
read_loop p zero head = ([], head)
read_loop p (suc n) head =
    let (out, last) = read_loop p n ((head + 1) % p.capacity) in
    (get_or p.buffer head 0 ∷ out, last)

-- `pipe_read_raw`, with the bytes that it copies; their number is what it returns.
unfoldable pub read_raw : Pipe → ℕ → Pipe × List ℕ
read_raw p len =
    let n = if ltb p.count len then p.count else len in
    let (out, head) = read_loop p n p.head in (record p { head = head; count = p.count - n }, out)

-- The loop of `pipe_write_raw`: the buffer and the tail.
unfoldable pub write_loop : ℕ → List ℕ → (buffer : List ℕ) → (tail : ℕ) → List ℕ × ℕ
write_loop capacity [] buffer tail = (buffer, tail)
write_loop capacity (x ∷ xs) buffer tail =
    write_loop capacity xs (set buffer tail x) ((tail + 1) % capacity)

-- How many of `len` bytes `pipe_write_raw` takes, and how it copies so many of the bytes `src`.
abbrev pub write_room : Pipe → (len : ℕ) → ℕ
write_room p len =
    let free_space = p.capacity - p.count in if ltb free_space len then free_space else len

abbrev pub write_copy : Pipe → (n : ℕ) → (src : List ℕ) → Pipe
write_copy p n src =
    let (buffer, tail) = write_loop p.capacity (take n src) p.buffer p.tail in
    record p { buffer = buffer; tail = tail; count = p.count + n }

-- `pipe_write_raw` of the bytes `src`, and the number of those that it took.
unfoldable pub write_raw : Pipe → List ℕ → Pipe × ℕ
write_raw p src = let n = write_room p (length src) in (write_copy p n src, n)

-- What a step of a call did: the task goes on, it blocked, or the call returned.
pub data Poll : Type 0 where
  ready blocked : Poll

-- A waiter is put on the list only if there is room.
abbrev pub register : List ℕ → ℕ → List ℕ
register waiting self = if ltb (length waiting) max_waiters then waiting ++ self ∷ [] else waiting

unfoldable pub read_poll : Pipe → ℕ → Pipe × Poll
read_poll p self =
    if ltb 0 p.count || p.write_end_closed
    then (p, ready)
    else (record p { readers_waiting = register p.readers_waiting self }, blocked)

pub data ReadResult : Type 0 where
  -- The call returns 0.
  eof : ReadResult
  -- The call returns the number of bytes; these tasks are woken.
  bytes : List ℕ → List ℕ → ReadResult

-- What follows the loop of `pipe_read`, when no other task copies meanwhile; so for `pipe_write` below.
unfoldable pub read_finish : Pipe → ℕ → Pipe × ReadResult
read_finish p len =
    let (q, out) = read_raw p len in
    if p.count == 0
    then (p, eof)
    else (record q { writers_waiting = [] }, bytes out q.writers_waiting)

-- The check of `pipe_write` before its loop.
unfoldable pub write_refused : Pipe → Bool
write_refused p = p.read_end_closed

unfoldable pub write_poll : Pipe → ℕ → Pipe × Poll
write_poll p self =
    if ltb p.count p.capacity || p.read_end_closed
    then (p, ready)
    else (record p { writers_waiting = register p.writers_waiting self }, blocked)

pub data WriteResult : Type 0 where
  -- The call returns -1.
  broken : WriteResult
  -- The call returns the number of bytes taken; these tasks are woken.
  wrote : ℕ → List ℕ → WriteResult

unfoldable pub write_finish : Pipe → List ℕ → Pipe × WriteResult
write_finish p src =
    let (q, n) = write_raw p src in
    if p.count == p.capacity
    then (p, broken)
    else (record q { readers_waiting = [] }, wrote n q.readers_waiting)
