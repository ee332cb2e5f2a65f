-- ===== src/Pipe/Race.antt =====
-- Two calls of `pipe_write` whose copying overlaps: pipe.c runs it with interrupts on and without a lock.
use panuti.Base.{ℕ, ◌+◌, ◌<◌, ◌≡◌, refl, List, arith, length}
use panuti.Pipe.{Pipe, write_room, write_copy}
use panuti.Pipe.Raw.{IsValid}

-- When two writers both look for room before either one copies, and the room is less than what they bring
-- together, each one takes as many bytes as if it were alone; the count then passes the capacity, and the
-- pipe is not sound any more.
pub overlapping_writes :
    (p : Pipe) (src other : List ℕ)
    → IsValid p
    → 0 < length src
    → 0 < length other
    → p.count < p.capacity
    → p.capacity < p.count + length src + length other
    → let n = write_room p (length src) in
      let m = write_room p (length other) in
      let q = write_copy (write_copy p n src) m other in
      (q.count ≡ p.count + n + m) × (p.capacity < q.count) × (¬ IsValid q)
overlapping_writes p src other v some_bytes more room much =
    let n = write_room p (length src) in
    let m = write_room p (length other) in
    let over : p.capacity < p.count + n + m = ground arith in
    (refl, over, λ w. absurd (omega (arith, w.count_in)))
