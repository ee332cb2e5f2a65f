-- ===== src/Sched/Pick.antt =====
-- Which task `sched_schedule` runs next.
use panuti.Base.{
  ℕ, zero, suc, ◌<◌, ◌≡◌, ◌∙◌, refl, sym, ap, subst, ==_iff, true, false, List, [], ◌∷◌, Option,
  none, some, arith, length, ◌==◌, if◌then◌else◌, Bool-cases, inl, inr,
}
use panuti.Sched.{
  Sched, State, running, is_ready, pick, yielded, run, run_next, schedule_from, schedule,
}

-- The first task of a list that is ready.
unfoldable pub first_ready : (ℕ → State) → List ℕ → Option ℕ
first_ready state [] = none
first_ready state (t ∷ ts) =
    let rest = first_ready state ts in if is_ready (state t) then some t else rest

-- The ring from `t` on, up to `prev`, which is its last task.
abbrev pub Leads : (ℕ → Option ℕ) → (prev t : ℕ) → List ℕ → Type 0
Leads next prev t [] = (t == prev) ≡ true
Leads next prev t (u ∷ us) = ((t == prev) ≡ false) × (next t ≡ some u) × Leads next prev u us

pick_lem :
    (fuel : ℕ) (next : ℕ → Option ℕ) (state : ℕ → State) (prev t : ℕ) (us : List ℕ)
    → Leads next prev t us
    → length us < fuel
    → pick fuel next state prev t ≡ first_ready state (t ∷ us)
unfolding pick first_ready
pick_lem zero next state prev t us l h = absurd (omega arith)
pick_lem (suc fuel) next state prev t [] l h = rw l refl
pick_lem (suc fuel) next state prev t (u ∷ us) l h =
    rw (l.0, l.1, pick_lem fuel next state prev u us l.2 (omega arith)) refl

abbrev pub switch : Sched → Option ℕ → Option Sched
switch s none = none
switch s (some t) = some (run s t)

run_next-switch :
    (fuel : ℕ) (s : Sched) (prev t : ℕ)
    → run_next fuel s prev (some t) ≡ switch s (pick fuel s.next s.state prev t)
run_next-switch fuel s prev t = by_result (pick fuel s.next s.state prev t)
  where
    by_result :
        (o : Option ℕ)
        → elim o as (λ _. Option Sched) [ none ↦ none | some u ↦ some (run s u) ] ≡ switch s o
    by_result none = refl
    by_result (some u) = refl

-- Take a ring of tasks with the current one at its end. On fuel for the whole ring, the scheduler runs the
-- first of them that is ready once the current task has yielded, and panics only if none is.
pub schedule-round_robin :
    (fuel : ℕ) (s : Sched) (prev t : ℕ) (us : List ℕ)
    → s.sched_initialized ≡ true
    → s.current ≡ some prev
    → s.next prev ≡ some t
    → Leads s.next prev t us
    → length us < fuel
    → schedule fuel s
      ≡ switch
          (record s { state = yielded s.state prev })
          (first_ready (yielded s.state prev) (t ∷ us))
unfolding schedule
schedule-round_robin fuel s prev t us started now first l h =
    let y : Sched = record s { state = yielded s.state prev } in
    ap (λ b. if b then schedule_from fuel s s.current else some s) started
    ∙ ap (schedule_from fuel s) now
    ∙ ap (run_next fuel y prev) first
    ∙ run_next-switch fuel y prev t
    ∙ ap (switch y) (pick_lem fuel s.next (yielded s.state prev) prev t us l h)

eq_refl : (n : ℕ) → (n == n) ≡ true
eq_refl n = ground arith

yielded_ready :
    (state : ℕ → State) (prev : ℕ)
    → state prev ≡ running
    → is_ready (yielded state prev prev) ≡ true
yielded_ready state prev h = rw (h, yielded) (rw (eq_refl prev) refl)

finds_last :
    (next : ℕ → Option ℕ) (state : ℕ → State) (prev t : ℕ) (us : List ℕ)
    → Leads next prev t us
    → is_ready (state prev) ≡ true
    → (u : ℕ) × (first_ready state (t ∷ us) ≡ some u) × (is_ready (state u) ≡ true)
unfolding first_ready
finds_last next state prev t [] l h =
    let last : is_ready (state t) ≡ true =
      subst (λ p. is_ready (state p) ≡ true) (sym ((==_iff t prev).0 l)) h in
    (t, rw last refl, last)
finds_last next state prev t (u ∷ us) l h = elim (Bool-cases (is_ready (state t))) [
  | inl e ↦ (t, rw e refl, e)
  | inr e ↦ let (v, found, r) = finds_last next state prev u us l.2 h in (v, rw (e, found) refl, r)
]

-- While the current task is running, the scheduler does not panic, and the task that runs next was
-- ready or is the current one.
pub schedule_running :
    (fuel : ℕ) (s : Sched) (prev t : ℕ) (us : List ℕ)
    → s.sched_initialized ≡ true
    → s.current ≡ some prev
    → s.next prev ≡ some t
    → Leads s.next prev t us
    → length us < fuel
    → s.state prev ≡ running
    → (u : ℕ) × (schedule fuel s ≡ some (run (record s { state = yielded s.state prev }) u))
      × (is_ready (yielded s.state prev u) ≡ true)
schedule_running fuel s prev t us started now first l h active =
    let (u, found, r) =
      finds_last s.next (yielded s.state prev) prev t us l (yielded_ready s.state prev active) in
    (u, schedule-round_robin fuel s prev t us started now first l h ∙ rw found refl, r)
