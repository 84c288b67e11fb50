-- ===== src/Task.antt =====
-- src/posix/task.c: a thread that runs a function again and again, and the calls that control it. A
-- step is one reading or writing of the fields that both share.
pub mod Stop
pub mod Lost
mod Examples
use extlib.Common.{
  ℕ, zero, suc, Bool, true, false, Option, none, some, if◌then◌else◌, take, Outcome, ok, abort, ◌≡◌,
  ◌>>=◌, ◌>>◌, assert, Bytes,
}

-- `enum task_state`
pub data TaskState : Type 0 where
  pending running stopped : TaskState

-- `enum task_control`
pub data TaskControl : Type 0 where
  nothing suspend resume stop : TaskControl

-- Where `task_routine` stands: before the line named.
pub data Place : Type 0 where
  not_started starts tests_stop tests_resume marks_running clears_control tests_suspend : Place
  marks_pending sleeps works returned : Place

-- `struct task`, and the place of its thread. `timeout` is that of the kind that has one.
pub record Task : Type 0 where
  pub name : Bytes
  pub t_state : TaskState
  pub t_control : TaskControl
  pub timeout : Option ℕ
  pub place : Place

-- `TASK_NAME_LEN`
abbrev pub name_len : ℕ
name_len = 64

pub task_new : Bytes → Task
task_new name = record {
  name = take 63 name;
  t_state = pending;
  t_control = nothing;
  timeout = none;
  place = not_started;
}

pub task_new_timeout : Bytes → ℕ → Task
task_new_timeout name timeout = record (task_new name) { timeout = some timeout }

-- `task_start`, where `pthread_create` succeeds
pub task_start : Task → Task
task_start t = record t { place = starts }

-- `while (1)` to its first `if`
after_stop : TaskControl → Place
after_stop stop = returned
after_stop c = tests_resume

after_resume : TaskControl → Place
after_resume resume = marks_running
after_resume c = tests_suspend

after_suspend : TaskControl → Place
after_suspend suspend = marks_pending
after_suspend c = works

-- A step of `task_routine`; `result` is what the function returns if the step is a call of it.
pub routine_step : Bool → Task → Task
unfolding after_stop after_resume after_suspend
routine_step result t = elim t.place [
  | not_started ↦ t
  | starts ↦ record t { t_state = running; place = tests_stop }
  | tests_stop ↦ record t { place = after_stop t.t_control }
  | tests_resume ↦ record t { place = after_resume t.t_control }
  | marks_running ↦ record t { t_state = running; place = clears_control }
  | clears_control ↦ record t { t_control = nothing; place = tests_suspend }
  | tests_suspend ↦ record t { place = after_suspend t.t_control }
  | marks_pending ↦ record t { t_state = pending; place = sleeps }
  | sleeps ↦ record t { place = tests_stop }
  | works ↦ record t { place = if result then returned else tests_stop }
  | returned ↦ t
]

-- `n` steps, in the `i`th of which the function returns `results i`
pub routine_steps : (ℕ → Bool) → ℕ → Task → Task
routine_steps results zero t = t
routine_steps results (suc n) t = routine_step (results n) (routine_steps results n t)

abbrev is_running : TaskState → Bool
is_running running = true
is_running s = false

abbrev is_pending : TaskState → Bool
is_pending pending = true
is_pending s = false

pub task_suspend : Task → Outcome Task
task_suspend t = do assert (is_running t.t_state); ok (record t { t_control = suspend })

pub task_resume : Task → Outcome Task
task_resume t = do assert (is_pending t.t_state); ok (record t { t_control = resume })

-- `task_stop` writes, waits until the thread has returned, and writes again. `task_destroy` is that,
-- but for a task that was stopped, and frees it.
pub ask_stop : Task → Task
ask_stop t = record t { t_control = stop }

pub has_stopped : Task → Option Task
has_stopped t = elim t.place [ returned ↦ some (record t { t_state = stopped }) | p ↦ none ]

-- What happens next: a step of the thread, or a call. A task is started once.
pub data Step : Task → Task → Type 0 where
  routine : (t : Task) (result : Bool) → Step t (routine_step result t)
  start : (t : Task) → t.place ≡ not_started → Step t (task_start t)
  suspends : (t u : Task) → task_suspend t ≡ ok u → Step t u
  resumes : (t u : Task) → task_resume t ≡ ok u → Step t u
  asks_stop : (t : Task) → Step t (ask_stop t)

-- some number of steps from `t`
pub data Reaches (t : Task) : Task → Type 0 where
  here : Reaches t t
  after : {u v : Task} → Reaches t u → Step u v → Reaches t v
