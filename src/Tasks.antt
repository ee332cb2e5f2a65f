-- ===== src/Tasks.antt =====
-- The list of tasks in kernel/kernel/sched/task.c: who waits for whom, and who sleeps. A task is a record of the
-- fields that these functions read; the list holds them in the order of `task_next`.
pub mod Waking
mod Tests
use panuti.Base.{
  ℕ, Bool, true, false, ◌&&◌, List, [], ◌∷◌, map, Option, none, some, ◌==◌, if◌then◌else◌,
}
use panuti.Base.Int.{ℤ, pos, negsuc, ltb_ℤ}
use panuti.Sched.{State, unused, ready, running, blocked, terminated}

pub record Task : Type 0 where
  pub pid : ℕ
  pub state : State
  pub pid_waiting_on : ℕ
  pub wake_at : ℤ
  pub exit_code : ℤ

abbrev pub is_none : State → Bool
is_none unused = true
is_none ready = false
is_none running = false
is_none blocked = false
is_none terminated = false

abbrev pub is_blocked : State → Bool
is_blocked unused = false
is_blocked ready = false
is_blocked running = false
is_blocked blocked = true
is_blocked terminated = false

abbrev pub is_terminated : State → Bool
is_terminated unused = false
is_terminated ready = false
is_terminated running = false
is_terminated blocked = false
is_terminated terminated = true

abbrev pub waits_for : ℕ → Task → Bool
waits_for pid t = if is_none t.state then false else t.pid_waiting_on == pid

-- `task_has_waiter`
unfoldable pub has_waiter : ℕ → List Task → Bool
has_waiter pid [] = false
has_waiter pid (t ∷ ts) = let rest = has_waiter pid ts in if waits_for pid t then true else rest

-- What `task_wait_pid` returns: 0 with the exit code, 1 while the task lives, or -1.
pub data Wait : Type 0 where
  collected : ℤ → Wait
  alive : Wait
  no_task : Wait

-- `task_wait_pid`, with the tasks that remain.
abbrev pub matches : ℕ → Task → Bool
matches target t = (t.pid == target) && (if is_none t.state then false else true)

unfoldable pub wait_pid : ℕ → List Task → List Task × Wait
wait_pid target [] = ([], no_task)
wait_pid target (t ∷ ts) =
    let (others, result) = wait_pid target ts in
    if matches target t
    then (if is_terminated t.state then (ts, collected t.exit_code) else (t ∷ ts, alive))
    else (t ∷ others, result)

abbrev pub woken_waiter : ℕ → Task → Task
woken_waiter exited t =
    if is_blocked t.state && (t.pid_waiting_on == exited)
    then record t { pid_waiting_on = 0; state = ready }
    else t

-- `task_wake_waiters`
unfoldable pub wake_waiters : ℕ → List Task → List Task
wake_waiters exited [] = []
wake_waiters exited (t ∷ ts) = woken_waiter exited t ∷ wake_waiters exited ts

abbrev pub is_zero : ℤ → Bool
is_zero (pos n) = n == 0
is_zero (negsuc n) = false

-- `wake_at` is set, and not later than `now`.
abbrev pub is_due : ℤ → Task → Bool
is_due now t = if is_zero t.wake_at then false else (if ltb_ℤ now t.wake_at then false else true)

abbrev pub woken_sleeper : ℤ → Task → Task
woken_sleeper now t =
    if is_blocked t.state && is_due now t then record t { wake_at = pos 0; state = ready } else t

-- `task_wake_sleepers`
unfoldable pub wake_sleepers : ℤ → List Task → List Task
wake_sleepers now [] = []
wake_sleepers now (t ∷ ts) = woken_sleeper now t ∷ wake_sleepers now ts
