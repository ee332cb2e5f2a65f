-- ===== src/Pipe/Ends.antt =====
-- The two ends of a pipe, shared by counting references: `pipe_end_ref`, `pipe_end_unref`,
-- `pipe_end_release` and `pipe_close`. `none` is memory that was given back, and as a result a use of
-- such memory.
use panuti.Base.{
  ℕ, ◌+◌, ◌-◌, ◌<◌, ◌≡◌, refl, inl, inr, Bool, true, false, List, [], not, subst, Option, none,
  some, arith, ◌==◌, if◌then◌else◌, ltb, Bool-cases,
}
use panuti.Pipe.{Pipe}

-- The pipe, and the reference counts of its ends.
pub record Ends : Type 0 where
  pub pipe : Option Pipe
  pub read_end : Option ℕ
  pub write_end : Option ℕ

abbrev pub count_of : Ends → Bool → Option ℕ
count_of e true = e.write_end
count_of e false = e.read_end

abbrev pub with_count : Ends → Bool → Option ℕ → Ends
with_count e true n = record e { write_end = n }
with_count e false n = record e { read_end = n }

abbrev add_ref : Ends → (is_write_end : Bool) → Option ℕ → Option Ends
add_ref e is_write_end none = none
add_ref e is_write_end (some n) = some (with_count e is_write_end (some (n + 1)))

unfoldable pub end_ref : Ends → (is_write_end : Bool) → Option Ends
end_ref e is_write_end = add_ref e is_write_end (count_of e is_write_end)

-- The flag of the end, and the tasks of the other side that are woken.
abbrev pub close_side : Pipe → (is_write_end : Bool) → Pipe × List ℕ
close_side p true = (record p { write_end_closed = true; readers_waiting = [] }, p.readers_waiting)
close_side p false = (record p { read_end_closed = true; writers_waiting = [] }, p.writers_waiting)

abbrev pub drop_pipe : Pipe → Option Pipe
drop_pipe p = let n = p.refcount - 1 in if n == 0 then none else some (record p { refcount = n })

abbrev pub release_pipe : Ends → (is_write_end : Bool) → Option Pipe → Option (Ends × List ℕ)
release_pipe e is_write_end none = none
release_pipe e is_write_end (some p) =
    let (q, woken) = close_side p is_write_end in
    some (record (with_count e is_write_end none) { pipe = drop_pipe q }, woken)

-- `pipe_end_release`
unfoldable pub end_release : Ends → (is_write_end : Bool) → Option (Ends × List ℕ)
end_release e is_write_end = release_pipe e is_write_end e.pipe

abbrev drop_ref : Ends → (is_write_end : Bool) → Option ℕ → Option (Ends × List ℕ)
drop_ref e is_write_end none = none
drop_ref e is_write_end (some n) =
    if ltb 0 (n - 1)
    then some (with_count e is_write_end (some (n - 1)), [])
    else release_pipe e is_write_end e.pipe

-- `pipe_end_unref`, which `pipe_close` calls.
unfoldable pub end_unref : Ends → (is_write_end : Bool) → Option (Ends × List ℕ)
end_unref e is_write_end = drop_ref e is_write_end (count_of e is_write_end)

abbrev pub is_live : Option ℕ → Bool
is_live none = false
is_live (some n) = true

abbrev pub live_count : Option ℕ → ℕ
live_count none = 0
live_count (some n) = 1

abbrev Positive : Option ℕ → Type 0
Positive none = Unit {0}
Positive (some n) = 0 < n

-- The pipe lives as long as an end does, counts the ends that live, and knows which are closed.
abbrev pub PipeMatches : (read_end write_end : Option ℕ) → Option Pipe → Type 0
PipeMatches r w none = (r ≡ none) × (w ≡ none)
PipeMatches r w (some p) =
    (0 < p.refcount)
    × (p.refcount ≡ live_count r + live_count w)
    × (p.read_end_closed ≡ not (is_live r))
    × (p.write_end_closed ≡ not (is_live w))

pub record IsValid (e : Ends) : Type 0 where
  pub read_positive : Positive e.read_end
  pub write_positive : Positive e.write_end
  pub matches : PipeMatches e.read_end e.write_end e.pipe

count_of-with_count :
    (e : Ends) (is_write_end : Bool) (n : Option ℕ)
    → count_of (with_count e is_write_end n) is_write_end ≡ n
count_of-with_count e true n = refl
count_of-with_count e false n = refl

-- The pipe does not depend on the count of a live end.
recount_write :
    (r : Option ℕ) (n m : ℕ) (p : Option Pipe) → PipeMatches r (some n) p → PipeMatches r (some m) p
recount_write r n m none v = ground arith
recount_write r n m (some p) v = ground arith

recount_read :
    (w : Option ℕ) (n m : ℕ) (p : Option Pipe) → PipeMatches (some n) w p → PipeMatches (some m) w p
recount_read w n m none v = ground arith
recount_read w n m (some p) v = ground arith

recount-IsValid :
    (e : Ends) (is_write_end : Bool) (n m : ℕ)
    → count_of e is_write_end ≡ some n
    → 0 < m
    → IsValid e
    → IsValid (with_count e is_write_end (some m))
recount-IsValid e true n m h pos v = record {
  read_positive = v.read_positive;
  write_positive = pos;
  matches =
      recount_write e.read_end n m e.pipe
        (subst (λ w. PipeMatches e.read_end w e.pipe) h v.matches);
}
recount-IsValid e false n m h pos v = record {
  read_positive = pos;
  write_positive = v.write_positive;
  matches =
      recount_read e.write_end n m e.pipe
        (subst (λ r. PipeMatches r e.write_end e.pipe) h v.matches);
}

-- What the release of an end leaves.
released_write :
    (p : Pipe) (r : Option ℕ) (n : ℕ)
    → PipeMatches r (some n) (some p)
    → PipeMatches r none (drop_pipe (close_side p true).0)
released_write p none n v = ground arith
released_write p (some m) n v = ground arith

released_read :
    (p : Pipe) (w : Option ℕ) (n : ℕ)
    → PipeMatches (some n) w (some p)
    → PipeMatches none w (drop_pipe (close_side p false).0)
released_read p none n v = ground arith
released_read p (some m) n v = ground arith

release-IsValid :
    (e : Ends) (is_write_end : Bool) (n : ℕ) (p : Option Pipe)
    → e.pipe ≡ p
    → count_of e is_write_end ≡ some n
    → IsValid e
    → (after : Ends) × (woken : List ℕ) × (release_pipe e is_write_end p ≡ some (after, woken))
      × IsValid after
      × (count_of after is_write_end ≡ none)
release-IsValid e true n none hp h v =
    let dead : PipeMatches e.read_end e.write_end none =
      subst (λ o. PipeMatches e.read_end e.write_end o) hp v.matches in
    cc
release-IsValid e false n none hp h v =
    let dead : PipeMatches e.read_end e.write_end none =
      subst (λ o. PipeMatches e.read_end e.write_end o) hp v.matches in
    cc
release-IsValid e true n (some p) hp h v = (
  record (record e { write_end = none }) { pipe = drop_pipe (close_side p true).0 },
  p.readers_waiting,
  refl,
  record {
    read_positive = v.read_positive;
    write_positive = tt;
    matches = released_write p e.read_end n (
        subst (λ w. PipeMatches e.read_end w (some p)) h
          (subst (λ o. PipeMatches e.read_end e.write_end o) hp v.matches));
  },
  refl,
)
release-IsValid e false n (some p) hp h v = (
  record (record e { read_end = none }) { pipe = drop_pipe (close_side p false).0 },
  p.writers_waiting,
  refl,
  record {
    read_positive = tt;
    write_positive = v.write_positive;
    matches = released_read p e.write_end n (
        subst (λ w. PipeMatches w e.write_end (some p)) h
          (subst (λ o. PipeMatches e.read_end e.write_end o) hp v.matches));
  },
  refl,
)

-- If a valid pair of ends has a live end, giving up one reference of it uses no memory that was
-- given back and leaves the pair valid. The end is gone if the reference was its last, and has one
-- reference fewer otherwise.
pub end_unref-IsValid :
    (e : Ends) (is_write_end : Bool) (n : ℕ)
    → count_of e is_write_end ≡ some n
    → IsValid e
    → (after : Ends) × (woken : List ℕ) × (end_unref e is_write_end ≡ some (after, woken))
      × IsValid after
      × (count_of after is_write_end ≡ (if ltb 1 n then some (n - 1) else none))
unfolding end_unref
end_unref-IsValid e is_write_end n h v = elim (Bool-cases (ltb 0 (n - 1))) [
  | inl more ↦
      let t : ltb 1 n ≡ true = ground arith in
      rw (h, more, t)
        (
          with_count e is_write_end (some (n - 1)),
          [],
          refl,
          recount-IsValid e is_write_end n (n - 1) h (ground arith) v,
          count_of-with_count e is_write_end (some (n - 1)),
        )
  | inr last ↦
      let t : ltb 1 n ≡ false = ground arith in
      rw (h, last, t) (release-IsValid e is_write_end n e.pipe refl h v)
]
