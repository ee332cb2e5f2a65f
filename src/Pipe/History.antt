-- ===== src/Pipe/History.antt =====
-- Any number of readers and writers on one pipe. The copying of `pipe_read` and `pipe_write`, behind their
-- loops, runs with interrupts on, and so it is split into its steps here: the test and the number of
-- bytes, each byte, and the end. Polls of any task come between any two of them. The copying of another
-- call does not: the code has no lock, and Pipe/Race is about what happens without one.
use panuti.Base.{
  ℕ, zero, suc, ◌+◌, ◌-◌, ◌%◌, ◌≡◌, refl, false, ap, ◌∙◌, sym, subst, List, [], ◌∷◌, ◌++◌, get_or,
  set, take, length, ◌==◌, ltb, ◌||◌, if◌then◌else◌, Bool-cases, inl, inr,
}
use mathlib.Core.List.{append-nil, append_assoc}
use panuti.Pipe.{
  Pipe, register, read_loop, read_raw, write_loop, write_raw, write_room, read_poll, write_poll,
  read_finish, write_finish,
}
use panuti.Pipe.Raw.{IsValid, contents, read_raw_lem, write_raw_lem}

-- Where the copying of a call is: the bytes or the number of bytes that are left, and how many the call takes.
pub data Section : Type 0 where
  idle : Section
  writing : (rest : List ℕ) (n : ℕ) → Section
  reading : (left n : ℕ) → Section

-- The test behind the loop of `pipe_write`, and the number of bytes; of `pipe_read` likewise.
abbrev pub write_begin : Pipe → List ℕ → Section
write_begin p src =
    let n = write_room p (length src) in
    if p.count == p.capacity then idle else writing (take n src) n

abbrev pub read_begin : Pipe → (len : ℕ) → Section
read_begin p len =
    let n = if ltb p.count len then p.count else len in if p.count == 0 then idle else reading n n

-- One round of each loop.
abbrev pub write_byte : Pipe → ℕ → Pipe
write_byte p x = record p { buffer = set p.buffer p.tail x; tail = (p.tail + 1) % p.capacity }

abbrev pub read_byte : Pipe → Pipe
read_byte p = record p { head = (p.head + 1) % p.capacity }

-- The count, and the waking.
abbrev pub write_end : Pipe → (n : ℕ) → Pipe
write_end p n = record p { count = p.count + n; readers_waiting = [] }

abbrev pub read_end : Pipe → (n : ℕ) → Pipe
read_end p n = record p { count = p.count - n; writers_waiting = [] }

-- What a call that begins will put in.
abbrev pub put : Section → List ℕ
put idle = []
put (writing rest n) = rest
put (reading left n) = []

-- The pipe and the copying, all bytes that writers put in, from the start of their copying on, and all that
-- readers took out, both in order.
pub record History : Type 0 where
  pub pipe : Pipe
  pub section : Section
  pub written : List ℕ
  pub received : List ℕ

pub data Step (h : History) : History → Type 0 where
  polls_read : (self : ℕ) → Step h (record h { pipe = (read_poll h.pipe self).0 })
  polls_write : (self : ℕ) → Step h (record h { pipe = (write_poll h.pipe self).0 })
  begins_write :
      (src : List ℕ)
      → h.section ≡ idle
      → Step h (record h {
        section = write_begin h.pipe src;
        written = h.written ++ put (write_begin h.pipe src);
      })
  writes_byte :
      (x : ℕ) (rest : List ℕ) (n : ℕ)
      → h.section ≡ writing (x ∷ rest) n
      → Step h (record h { pipe = write_byte h.pipe x; section = writing rest n })
  ends_write :
      (n : ℕ)
      → h.section ≡ writing [] n
      → Step h (record h { pipe = write_end h.pipe n; section = idle })
  begins_read : (len : ℕ) → h.section ≡ idle → Step h (record h { section = read_begin h.pipe len })
  reads_byte :
      (left n : ℕ)
      → h.section ≡ reading (suc left) n
      → Step h (record h {
        pipe = read_byte h.pipe;
        section = reading left n;
        received = h.received ++ get_or h.pipe.buffer h.pipe.head 0 ∷ [];
      })
  ends_read :
      (n : ℕ)
      → h.section ≡ reading zero n
      → Step h (record h { pipe = read_end h.pipe n; section = idle })

pub data Steps (h : History) : History → Type 0 where
  start : Steps h h
  next : {i j : History} → Steps h i → Step i j → Steps h j

-- The pipe when the copying is over, and what will have been read then.
abbrev pub finished : Section → Pipe → Pipe
finished idle p = p
finished (writing rest n) p =
    let (buffer, tail) = write_loop p.capacity rest p.buffer p.tail in
    record p { buffer = buffer; tail = tail; count = p.count + n }
finished (reading left n) p = record p { head = (read_loop p left p.head).1; count = p.count - n }

abbrev pub coming : Section → Pipe → List ℕ
coming idle p = []
coming (writing rest n) p = []
coming (reading left n) p = (read_loop p left p.head).0

-- A copying that nothing interrupts is the one step of `write_finish`, and of `read_finish`.
pub write_finish-alone :
    (p : Pipe) (src : List ℕ)
    → (p.count == p.capacity) ≡ false
    → (write_finish p src).0 ≡ record (finished (write_begin p src) p) { readers_waiting = [] }
unfolding write_finish write_raw
write_finish-alone p src room = rw room refl

pub read_finish-alone :
    (p : Pipe) (len : ℕ)
    → (p.count == 0) ≡ false
    → (read_finish p len).0 ≡ record (finished (read_begin p len) p) { writers_waiting = [] }
unfolding read_finish read_raw
read_finish-alone p len held = rw held refl

-- Nothing is lost, doubled or reordered.
abbrev Inv : Section → Pipe → (written received : List ℕ) → Type 0
Inv s p written received =
    IsValid (finished s p) × (received ++ (coming s p ++ contents (finished s p)) ≡ written)

-- The lists of those who wait do not matter.
rewait :
    (p : Pipe) (rs ws : List ℕ)
    → IsValid p
    → IsValid (record p { readers_waiting = rs; writers_waiting = ws })
rewait p rs ws v = record {
  storage = v.storage;
  head_in = v.head_in;
  count_in = v.count_in;
  tail_at = v.tail_at;
}

read_loop_same :
    (p : Pipe) (rs ws : List ℕ) (k n head : ℕ)
    → read_loop (record p { head = k; readers_waiting = rs; writers_waiting = ws }) n head
      ≡ read_loop p n head
unfolding read_loop
read_loop_same p rs ws k zero head = refl
read_loop_same p rs ws k (suc n) head =
    ap (λ r. (get_or p.buffer head 0 ∷ r.0, r.1))
      (read_loop_same p rs ws k n ((head + 1) % p.capacity))

Inv-rewait :
    (s : Section) (p : Pipe) (rs ws w r : List ℕ)
    → Inv s p w r
    → Inv s (record p { readers_waiting = rs; writers_waiting = ws }) w r
unfolding read_loop
Inv-rewait idle p rs ws w r (v, e) = (rewait p rs ws v, e)
Inv-rewait (writing rest n) p rs ws w r (v, e) = (rewait (finished (writing rest n) p) rs ws v, e)
Inv-rewait (reading left n) p rs ws w r (v, e) =
    let same = read_loop_same p rs ws p.head left p.head in
    rw same ((rewait (finished (reading left n) p) rs ws v, e))

read_polled :
    (p : Pipe) (self : ℕ)
    → (rs : List ℕ) × ((read_poll p self).0
        ≡ record p { readers_waiting = rs; writers_waiting = p.writers_waiting })
unfolding read_poll
read_polled p self = elim (Bool-cases (ltb 0 p.count || p.write_end_closed)) [
  | inl goes ↦ (p.readers_waiting, rw goes refl)
  | inr waits ↦ (register p.readers_waiting self, rw waits refl)
]

write_polled :
    (p : Pipe) (self : ℕ)
    → (ws : List ℕ) × ((write_poll p self).0
        ≡ record p { readers_waiting = p.readers_waiting; writers_waiting = ws })
unfolding write_poll
write_polled p self = elim (Bool-cases (ltb p.count p.capacity || p.read_end_closed)) [
  | inl goes ↦ (p.writers_waiting, rw goes refl)
  | inr waits ↦ (register p.writers_waiting self, rw waits refl)
]

begins_write-Inv :
    (p : Pipe) (src w r : List ℕ)
    → Inv idle p w r
    → Inv (write_begin p src) p (w ++ put (write_begin p src)) r
unfolding write_raw
begins_write-Inv p src w r (v, e) = elim (Bool-cases (p.count == p.capacity)) [
  | inl full ↦ rw full ((v, e ∙ sym (append-nil w)))
  | inr room ↦
      let (_, more, valid) = write_raw_lem p src v in
      rw room (
        valid,
        ap (λ c. r ++ c) more
            ∙ sym (append_assoc r (contents p) (take (write_room p (length src)) src))
            ∙ ap (λ c. c ++ take (write_room p (length src)) src) e,
      )
]

begins_read-Inv :
    (p : Pipe) (len : ℕ) (w r : List ℕ) → Inv idle p w r → Inv (read_begin p len) p w r
unfolding read_raw
begins_read-Inv p len w r (v, e) = elim (Bool-cases (p.count == 0)) [
  | inl none_held ↦ rw none_held ((v, e))
  | inr some_held ↦
      let (kept, _, valid) = read_raw_lem p len v in
      rw some_held ((valid, ap (λ c. r ++ c) kept ∙ e))
]

HistoryInv : History → Type 0
HistoryInv h = Inv h.section h.pipe h.written h.received

Step-Inv : {h i : History} → Step h i → HistoryInv h → HistoryInv i
unfolding HistoryInv read_loop write_loop
Step-Inv {h} (polls_read self) inv =
    let (rs, same) = read_polled h.pipe self in
    subst (λ p. Inv h.section p h.written h.received) (sym same)
      (Inv-rewait h.section h.pipe rs h.pipe.writers_waiting h.written h.received inv)
Step-Inv {h} (polls_write self) inv =
    let (ws, same) = write_polled h.pipe self in
    subst (λ p. Inv h.section p h.written h.received) (sym same)
      (Inv-rewait h.section h.pipe h.pipe.readers_waiting ws h.written h.received inv)
Step-Inv {h} (begins_write src at) inv =
    begins_write-Inv h.pipe src h.written h.received
      (subst (λ s. Inv s h.pipe h.written h.received) at inv)
Step-Inv {h} (writes_byte x rest n at) inv = subst (λ s. Inv s h.pipe h.written h.received) at inv
Step-Inv {h} (ends_write n at) inv =
    let (v, e) = subst (λ s. Inv s h.pipe h.written h.received) at inv in
    (rewait (finished (writing [] n) h.pipe) [] h.pipe.writers_waiting v, e)
Step-Inv {h} (begins_read len at) inv =
    begins_read-Inv h.pipe len h.written h.received
      (subst (λ s. Inv s h.pipe h.written h.received) at inv)
Step-Inv {h} (reads_byte left n at) inv =
    let (v, e) = subst (λ s. Inv s h.pipe h.written h.received) at inv in
    let p = h.pipe in
    let same =
      read_loop_same p p.readers_waiting p.writers_waiting ((p.head + 1) % p.capacity) left
        ((p.head + 1) % p.capacity) in
    rw same ((v, append_assoc h.received (get_or p.buffer p.head 0 ∷ []) _ ∙ e))
Step-Inv {h} (ends_read n at) inv =
    let (v, e) = subst (λ s. Inv s h.pipe h.written h.received) at inv in
    (rewait (finished (reading zero n) h.pipe) h.pipe.readers_waiting [] v, e)

Steps-Inv : {h i : History} → Steps h i → HistoryInv h → HistoryInv i
Steps-Inv start inv = inv
Steps-Inv (next before step) inv = Step-Inv step (Steps-Inv before inv)

-- Take a pipe that is sound, and what it holds as written. Let tasks read, write and poll it in any order, byte by
-- byte, with polls of any task between any two steps, as long as the copying of one call does not begin before
-- that of another one ends. Then the bytes read so far, followed by those that the call that is copying will
-- read and by those in the pipe when its copying is over, are the bytes written so far, in order; and that
-- pipe is sound: it holds at most its capacity.
pub pipe_conserves :
    (p : Pipe) {h : History}
    → IsValid p
    → Steps (record { pipe = p; section = idle; written = contents p; received = [] }) h
    → IsValid (finished h.section h.pipe)
      × (h.received ++ (coming h.section h.pipe ++ contents (finished h.section h.pipe))
          ≡ h.written)
unfolding HistoryInv
pipe_conserves p v steps = Steps-Inv steps (v, refl)
