-- ===== src/Task/Stop.antt =====
-- `task_stop` of src/posix/task.c, where the thread sees it.
use extlib.Common.{ℕ, ◌≡◌, refl, Bool, true, false, if◌then◌else◌, arith}
use extlib.Task.{
  Task, Place, stop, not_started, starts, tests_stop, tests_resume, marks_running, clears_control,
  tests_suspend, marks_pending, sleeps, works, returned, routine_step, routine_steps, ask_stop,
}

-- The thread has been started and is not about to clear the control.
abbrev pub sees_stop : Place → Bool
sees_stop not_started = false
sees_stop marks_running = false
sees_stop clears_control = false
sees_stop p = true

-- A thread that stands there, and is asked to stop.
abbrev asked : Task → Place → Task
asked t p = record t { t_control = stop; place = p }

asked-returned :
    (results : ℕ → Bool) (t : Task) (p : Place)
    → sees_stop p ≡ true
    → (routine_steps results 4 (asked t p)).place ≡ returned
unfolding routine_steps routine_step
asked-returned results t not_started h = cc
asked-returned results t starts h = refl
asked-returned results t tests_stop h = refl
asked-returned results t tests_resume h = by_result (results 2)
  where
    by_result :
        (b : Bool)
        → (routine_step
            (results 3)
            (record t { t_control = stop; place = if b then returned else tests_stop })).place
          ≡ returned
    by_result true = refl
    by_result false = refl
asked-returned results t marks_running h = cc
asked-returned results t clears_control h = cc
asked-returned results t tests_suspend h = ground arith
asked-returned results t marks_pending h = refl
asked-returned results t sleeps h = refl
asked-returned results t works h = ground arith
asked-returned results t returned h = refl

-- A thread that has been started, is not between finding a resumption and clearing it, and is asked
-- to stop, returns within four steps, whatever its function returns.
pub ask_stop-returned :
    (results : ℕ → Bool) (t : Task)
    → sees_stop t.place ≡ true
    → (routine_steps results 4 (ask_stop t)).place ≡ returned
unfolding ask_stop
ask_stop-returned results t h = asked-returned results t t.place h
