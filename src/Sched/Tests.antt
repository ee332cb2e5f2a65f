-- ===== src/Sched/Tests.antt =====
-- A ring of the tasks 1, 2 and 3, in which 1 runs and 2 is blocked.
use panuti.Base.{◌≡◌, refl, ℕ, true, [], ◌∷◌, Option, some, none, arith, ◌==◌, if◌then◌else◌}
use panuti.Sched.{Sched, State, unused, ready, running, blocked, yielded, schedule}
use panuti.Sched.Pick.{first_ready, switch, schedule-round_robin}

abbrev next_of : ℕ → Option ℕ
next_of t = if t == 1 then some 2 else if t == 2 then some 3 else if t == 3 then some 1 else none

abbrev state_of : ℕ → State
state_of t =
    if t == 1 then running else if t == 2 then blocked else if t == 3 then ready else unused

abbrev three : Sched
three = record {
  ready_queue = some 1;
  current = some 1;
  sched_initialized = true;
  next = next_of;
  state = state_of;
}

schedule-round_robin_example :
    schedule 5 three
    ≡ switch
        (record three { state = yielded state_of 1 })
        (first_ready (yielded state_of 1) (2 ∷ 3 ∷ 1 ∷ []))
schedule-round_robin_example =
    schedule-round_robin 5 three 1 2 (3 ∷ 1 ∷ []) refl refl refl ((refl, refl, (refl, refl, refl)))
      (omega arith)

skips_blocked : first_ready (yielded state_of 1) (2 ∷ 3 ∷ 1 ∷ []) ≡ some 3
unfolding first_ready
skips_blocked = refl
