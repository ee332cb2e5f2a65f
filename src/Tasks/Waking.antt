-- ===== src/Tasks/Waking.antt =====
-- What waits and sleeps after the tasks were woken, and whom a wait collects.
use panuti.Base.{
  ℕ, ◌≡◌, refl, inl, inr, Bool, true, false, ◌&&◌, List, [], ◌∷◌, ◌++◌, ap, if◌then◌else◌,
  Bool-cases,
}
use panuti.Base.Int.{ℤ}
use panuti.Tasks.{
  Task, Wait, collected, alive, no_task, is_blocked, is_terminated, is_due, matches, woken_sleeper,
  wake_sleepers, wait_pid,
}

-- Every task of the list meets `p`.
abbrev pub All : (Task → Bool) → List Task → Type 0
All p [] = Unit {0}
All p (t ∷ ts) = (p t ≡ true) × All p ts

-- The task does not sleep past its time.
abbrev pub is_punctual : ℤ → Task → Bool
is_punctual now t = if is_blocked t.state && is_due now t then false else true

woken_sleeper-punctual : (now : ℤ) (t : Task) → is_punctual now (woken_sleeper now t) ≡ true
woken_sleeper-punctual now t = elim (Bool-cases (is_blocked t.state && is_due now t)) [
  | inl due ↦ rw due refl
  | inr other ↦ rw other (rw other refl)
]

-- After `task_wake_sleepers`, whatever the time, no task is blocked past its time.
pub wake_sleepers-All : (now : ℤ) (ts : List Task) → All (is_punctual now) (wake_sleepers now ts)
unfolding wake_sleepers
wake_sleepers-All now [] = tt
wake_sleepers-All now (t ∷ ts) = (woken_sleeper-punctual now t, wake_sleepers-All now ts)

-- Tasks before the one that a wait finds.
abbrev pub no_match : ℕ → Task → Bool
no_match target t = if matches target t then false else true

abbrev pub Waited : ℕ → List Task → List Task × Wait → Type 0
Waited target ts (rest, collected code) =
    (before : List Task) × (t : Task) × (behind : List Task) × (ts ≡ before ++ t ∷ behind)
    × All (no_match target) before
    × (matches target t ≡ true)
    × (is_terminated t.state ≡ true)
    × (code ≡ t.exit_code)
    × (rest ≡ before ++ behind)
Waited target ts (rest, alive) =
    (before : List Task) × (t : Task) × (behind : List Task) × (ts ≡ before ++ t ∷ behind)
    × All (no_match target) before
    × (matches target t ≡ true)
    × (is_terminated t.state ≡ false)
    × (rest ≡ ts)
Waited target ts (rest, no_task) = (rest ≡ ts) × All (no_match target) ts

Waited-behind :
    (target : ℕ) (t : Task) (ts : List Task) (r : List Task × Wait)
    → matches target t ≡ false
    → Waited target ts r
    → Waited target (t ∷ ts) (t ∷ r.0, r.1)
Waited-behind target t ts (rest, collected code) n w =
    let (before, u, behind, split, earlier, m, ended, same, left) = w in
    (
      t ∷ before,
      u,
      behind,
      ap (λ us. t ∷ us) split,
      (rw n refl, earlier),
      m,
      ended,
      same,
      ap (λ us. t ∷ us) left,
    )
Waited-behind target t ts (rest, alive) n w =
    let (before, u, behind, split, earlier, m, lives, left) = w in
    (
      t ∷ before,
      u,
      behind,
      ap (λ us. t ∷ us) split,
      (rw n refl, earlier),
      m,
      lives,
      ap (λ us. t ∷ us) left,
    )
Waited-behind target t ts (rest, no_task) n w = (ap (λ us. t ∷ us) w.0, (rw n refl, w.1))

-- A wait looks at the first task in use with the number. If that task has ended, its exit code is given
-- out and it alone leaves the list; if it has not ended, the wait answers that it lives and the list
-- stays; and only when no task in use has the number the wait answers so, and the list stays.
pub wait_pid-Waited : (target : ℕ) (ts : List Task) → Waited target ts (wait_pid target ts)
unfolding wait_pid
wait_pid-Waited target [] = (refl, tt)
wait_pid-Waited target (t ∷ ts) = elim (Bool-cases (matches target t)) [
  | inl m ↦ elim (Bool-cases (is_terminated t.state)) [
    | inl ended ↦ rw (m, ended) ([], t, ts, refl, tt, m, ended, refl, refl)
    | inr lives ↦ rw (m, lives) ([], t, ts, refl, tt, m, lives, refl)
  ]
  | inr n ↦ rw n (Waited-behind target t ts (wait_pid target ts) n (wait_pid-Waited target ts))
]
