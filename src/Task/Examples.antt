-- ===== src/Task/Examples.antt =====
-- A task that works when it is asked to stop.
use extlib.Common.{ℕ, ◌≡◌, ◌≢◌, refl, false}
use extlib.Text.{codes}
use extlib.Task.{Task, running, works, returned, task_new, ask_stop, routine_steps, Reaches}
use extlib.Task.Stop.{ask_stop-returned}
use extlib.Task.Lost.{task_stop-lost}

abbrev worker : Task
worker = record (task_new (codes "worker")) { t_state = running; place = works }

ask_stop-returned_example : (routine_steps (λ i. false) 4 (ask_stop worker)).place ≡ returned
ask_stop-returned_example = ask_stop-returned (λ i. false) worker refl

task_stop-lost_example :
    (t : Task) × Reaches (task_new (codes "worker")) t
    × ((n : ℕ) → (routine_steps (λ i. false) n (ask_stop t)).place ≢ returned)
task_stop-lost_example = task_stop-lost (codes "worker")
