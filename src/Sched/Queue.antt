-- ===== src/Sched/Queue.antt =====
-- The ring of tasks.
use panuti.Base.{
  ℕ, suc, ◌≡◌, refl, sym, ap, ◌∙◌, subst, ==_iff, true, false, List, [], ◌∷◌, Option, none, some,
  arith, ◌==◌, if◌then◌else◌, Bool-cases, inl, inr,
}
use panuti.Sched.{Sched, assign, same_task, add_to, add, before, remove_from, remove}

-- The tasks of the ring behind `t`, of which the last leads back to the head.
abbrev pub Ring : (ℕ → Option ℕ) → (head t : ℕ) → List ℕ → Type 0
Ring next head t [] = next t ≡ some head
Ring next head t (u ∷ us) = (next t ≡ some u) × Ring next head u us

abbrev pub Absent : ℕ → List ℕ → Type 0
Absent t [] = Unit {0}
Absent t (u ∷ us) = ((t == u) ≡ false) × Absent t us

Ring-assign :
    (next : ℕ → Option ℕ) (head t v : ℕ) (us : List ℕ) (o : Option ℕ)
    → (v == t) ≡ false
    → Absent v us
    → Ring next head t us
    → Ring (assign next v o) head t us
Ring-assign next head t v [] o h a r = rw h r
Ring-assign next head t v (u ∷ us) o h a r =
    rw h ((r.0, Ring-assign next head u v us o a.0 a.1 r.1))

eq_refl : (n : ℕ) → (n == n) ≡ true
eq_refl n = ground arith

-- A task that is added is put behind the head, and the others keep their places.
pub add-Ring :
    (s : Sched) (task head : ℕ) (us : List ℕ)
    → s.ready_queue ≡ some head
    → (task == head) ≡ false
    → Absent task us
    → Absent head us
    → Ring s.next head head us
    → ((add s task).ready_queue ≡ some head) × Ring (add s task).next head head (task ∷ us)
unfolding add
add-Ring s task head us queue new absent once r =
    subst
      (λ o.
        ((add_to s task o).ready_queue ≡ some head)
        × Ring (add_to s task o).next head head (task ∷ us))
      (sym queue) (queue, (rw (eq_refl head) refl, behind us absent once r))
  where
    flip : (head == task) ≡ false
    flip = ground arith

    behind :
        (us : List ℕ)
        → Absent task us
        → Absent head us
        → Ring s.next head head us
        → Ring (add_to s task (some head)).next head task us
    behind [] a b r = rw (flip, eq_refl task) r
    behind (u ∷ us) a b r = (
      rw (flip, eq_refl task) r.0,
      Ring-assign (assign s.next task (s.next head)) head u head us (some task) b.0 b.1
          (Ring-assign s.next head u task us (s.next head) a.0 a.1 r.1),
    )

kept : (next : ℕ → Option ℕ) (head u : ℕ) → (head == u) ≡ true → next head ≡ next u
kept next head u h = ap next ((==_iff head u).0 h)

cleared :
    (next : ℕ → Option ℕ) (task u : ℕ)
    → next task ≡ none
    → (if task == u then none else next u) ≡ next u
cleared next task u out = elim (Bool-cases (task == u)) [
  | inl e ↦ rw e (sym (subst (λ v. next v ≡ none) ((==_iff task u).0 e) out))
  | inr e ↦ rw e refl
]

-- Removing a task that was just added to a queue that others wait in, or to an empty one, ends in one
-- round and restores the queue and the links of all tasks.
pub remove-add :
    (fuel : ℕ) (s : Sched) (task : ℕ)
    → same_task s.ready_queue task ≡ false
    → s.next task ≡ none
    → (after : Sched) × (remove (suc fuel) (add s task) task ≡ some after)
      × (after.ready_queue ≡ s.ready_queue)
      × ((u : ℕ) → after.next u ≡ s.next u)
unfolding remove add before
remove-add fuel s task other out = restored s.ready_queue refl other
  where
    restored :
        (o : Option ℕ)
        → s.ready_queue ≡ o
        → same_task o task ≡ false
        → (after : Sched) × (remove_from
              (suc fuel)
              (add_to s task o)
              task
              (add_to s task o).ready_queue
            ≡ some after)
          × (after.ready_queue ≡ s.ready_queue)
          × ((u : ℕ) → after.next u ≡ s.next u)
    restored none e h = (
      record s { ready_queue = none; next = assign (assign s.next task (some task)) task none },
      rw (eq_refl task, eq_refl task) refl,
      sym e,
      λ u. ground (arith, cleared s.next task u out),
    )
    restored (some head) e h =
        let flip : (task == head) ≡ false = ground arith in
        let added : ℕ → Option ℕ = assign (assign s.next task (s.next head)) head (some task) in
        (
          record s { next = assign (assign added head (s.next head)) task none },
          ap (remove_from (suc fuel) (add_to s task (some head)) task) e
              ∙ rw (h, eq_refl head, eq_refl task, flip)
                  (rw (h, eq_refl head) (rw (eq_refl task) refl)),
          refl,
          λ u. ground (arith, cleared s.next task u out, kept s.next head u),
        )
