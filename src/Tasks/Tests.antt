-- ===== src/Tasks/Tests.antt =====
-- A task that ended, and one that sleeps.
use panuti.Base.{◌≡◌, refl, [], ◌∷◌}
use panuti.Base.Int.{pos}
use panuti.Sched.{blocked, terminated}
use panuti.Tasks.{Task, collected, wait_pid}
use panuti.Tasks.Waking.{Waited, wait_pid-Waited}

abbrev ended : Task
ended = record {
  pid = 3;
  state = terminated;
  pid_waiting_on = 0;
  wake_at = pos 0;
  exit_code = pos 7;
}

abbrev sleeper : Task
sleeper = record {
  pid = 4;
  state = blocked;
  pid_waiting_on = 0;
  wake_at = pos 50;
  exit_code = pos 0;
}

collects : wait_pid 3 (sleeper ∷ ended ∷ []) ≡ (sleeper ∷ [], collected (pos 7))
unfolding wait_pid
collects = refl

wait_pid-Waited_example : Waited 3 (sleeper ∷ ended ∷ []) (wait_pid 3 (sleeper ∷ ended ∷ []))
wait_pid-Waited_example = wait_pid-Waited 3 (sleeper ∷ ended ∷ [])
