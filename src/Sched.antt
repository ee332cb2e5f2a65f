-- ===== src/Sched.antt =====
-- The scheduler, kernel/kernel/sched/sched.c. A task is a number, the address of its `task_t`; the
-- fields that the scheduler uses are functions of it, with `none` for a null pointer. `none` as a result is
-- `kpanic`, and a loop that runs out of fuel.
pub mod Pick
pub mod Queue
mod Tests
use panuti.Base.{
  ℕ, zero, suc, ◌+◌, Bool, true, false, List, [], ◌∷◌, Option, none, some, ◌==◌, if◌then◌else◌,
}

-- `task_state_t`, kernel/include/kernel/sched/task.h
pub data State : Type 0 where
  unused ready running blocked terminated : State

abbrev pub is_ready : State → Bool
is_ready unused = false
is_ready ready = true
is_ready running = false
is_ready blocked = false
is_ready terminated = false

pub record Sched : Type 0 where
  pub ready_queue : Option ℕ
  pub current : Option ℕ
  pub sched_initialized : Bool
  pub next : ℕ → Option ℕ
  pub state : ℕ → State

-- An assignment to a field of one task.
abbrev pub assign {ℓ} : {A : Type ℓ} → (ℕ → A) → ℕ → A → ℕ → A
assign f t v u = if t == u then v else f u

abbrev pub same_task : Option ℕ → ℕ → Bool
same_task none t = false
same_task (some u) t = u == t

-- `sched_add`
abbrev pub add_to : Sched → ℕ → Option ℕ → Sched
add_to s task none = record s { ready_queue = some task; next = assign s.next task (some task) }
add_to s task (some head) = record s {
  next = assign (assign s.next task (s.next head)) head (some task);
}

unfoldable pub add : Sched → ℕ → Sched
add s task = add_to s task s.ready_queue

-- The loop of `sched_remove`, from `n`: the task before `task`, or the last one before the head.
unfoldable pub before : ℕ → (ℕ → Option ℕ) → (head task n : ℕ) → Option ℕ
before zero next head task n = none
before (suc fuel) next head task n =
    let further = elim (next n) as (λ _. Option ℕ) [
      | none ↦ none
      | some m ↦ before fuel next head task m
    ] in
    if same_task (next n) task then some n else if same_task (next n) head then some n else further

abbrev pub unlink : Sched → (head task n : ℕ) → Sched
unlink s head task n =
    let next = if same_task (s.next n) task then assign s.next n (s.next task) else s.next in
    record s {
      ready_queue = if head == task then some n else s.ready_queue;
      next = assign next task none;
    }

-- `sched_remove` of a task that is not null.
abbrev pub remove_from : ℕ → Sched → ℕ → Option ℕ → Option Sched
remove_from fuel s task none = some s
remove_from fuel s task (some head) =
    let walked = elim (before fuel s.next head task head) as (λ _. Option Sched) [
      | none ↦ none
      | some n ↦ some (unlink s head task n)
    ] in
    let emptied = some (record s { ready_queue = none; next = assign s.next task none }) in
    if head == task then (if same_task (s.next task) task then emptied else walked) else walked

unfoldable pub remove : ℕ → Sched → ℕ → Option Sched
remove fuel s task = remove_from fuel s task s.ready_queue

-- The loop of `sched_schedule`, from `t`; it gives up at `prev`.
unfoldable pub pick : ℕ → (ℕ → Option ℕ) → (ℕ → State) → (prev t : ℕ) → Option ℕ
pick zero next state prev t = none
pick (suc fuel) next state prev t =
    let rest = elim (next t) as (λ _. Option ℕ) [
      | none ↦ none
      | some u ↦ pick fuel next state prev u
    ] in
    if is_ready (state t) then some t else if t == prev then none else rest

-- A running task becomes ready.
abbrev pub yielded : (ℕ → State) → ℕ → ℕ → State
yielded state prev = elim (state prev) as (λ _. ℕ → State) [
  | running ↦ assign state prev ready
  | unused ↦ state
  | ready ↦ state
  | blocked ↦ state
  | terminated ↦ state
]

abbrev pub run : Sched → ℕ → Sched
run s t = record s { current = some t; state = assign s.state t running }

abbrev pub run_next : ℕ → Sched → (prev : ℕ) → Option ℕ → Option Sched
run_next fuel s prev none = none
run_next fuel s prev (some first) =
    elim (pick fuel s.next s.state prev first) as (λ _. Option Sched) [
      | none ↦ none
      | some t ↦ some (run s t)
    ]

abbrev pub schedule_from : ℕ → Sched → Option ℕ → Option Sched
schedule_from fuel s none = elim s.ready_queue as (λ _. Option Sched) [
  | none ↦ none
  | some t ↦ some (run s t)
]
schedule_from fuel s (some prev) =
    run_next fuel (record s { state = yielded s.state prev }) prev (s.next prev)

-- `sched_schedule`, up to the switch of stacks.
unfoldable pub schedule : ℕ → Sched → Option Sched
schedule fuel s = if s.sched_initialized then schedule_from fuel s s.current else some s

-- `sched_init`
abbrev pub start_with : Sched → Option ℕ → Sched
start_with s none = s
start_with s (some t) = record (run s t) { sched_initialized = true }

unfoldable pub init : Sched → Sched
init s = start_with s s.ready_queue

-- `task_block`
unfoldable pub block : ℕ → Sched → ℕ → Option Sched
block fuel s t =
    let b : Sched = record s { state = assign s.state t blocked } in
    let switched = schedule fuel b in if same_task s.current t then switched else some b

-- `task_wake`
unfoldable pub wake : Sched → ℕ → Sched
wake s t = elim (s.state t) as (λ _. Sched) [
  | blocked ↦ record s { state = assign s.state t ready }
  | unused ↦ s
  | ready ↦ s
  | running ↦ s
  | terminated ↦ s
]
