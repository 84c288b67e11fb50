-- ===== src/Task/Lost.antt =====
-- `task_stop` of src/posix/task.c, where the thread misses it.
use mathlib.Core.Path.{subst}
use extlib.Common.{ℕ, zero, suc, ◌≡◌, ◌≢◌, refl, Bool, false, Bytes}
use extlib.Task.{
  Task, TaskControl, Place, nothing, suspend, resume, not_started, starts, tests_stop, tests_resume,
  marks_running, clears_control, tests_suspend, marks_pending, sleeps, works, returned, task_new,
  task_start, task_suspend, task_resume, ask_stop, routine_step, routine_steps, Reaches, here,
  after, routine, start, suspends, resumes, running,
}

-- The thread goes round: nothing is asked of it any more, or will not be after its next step.
abbrev GoesRound : TaskControl → Place → Type 0
GoesRound c not_started = ⊥
GoesRound c starts = ⊥
GoesRound c tests_stop = c ≡ nothing
GoesRound c tests_resume = c ≡ nothing
GoesRound c marks_running = ⊥
GoesRound c clears_control = Unit
GoesRound c tests_suspend = c ≡ nothing
GoesRound c marks_pending = ⊥
GoesRound c sleeps = ⊥
GoesRound c works = c ≡ nothing
GoesRound c returned = ⊥

abbrev never : ℕ → Bool
never i = false

abbrev at : Task → TaskControl → Place → Task
at t c p = record t { t_control = c; place = p }

step-GoesRound :
    (t : Task) (c : TaskControl) (p : Place)
    → GoesRound c p
    → GoesRound (routine_step false (at t c p)).t_control (routine_step false (at t c p)).place
unfolding routine_step
step-GoesRound t c not_started g = g
step-GoesRound t c starts g = absurd g
step-GoesRound t c tests_stop g = rw (g, routine_step) refl
step-GoesRound t c tests_resume g = rw (g, routine_step) refl
step-GoesRound t c marks_running g = absurd g
step-GoesRound t c clears_control g = refl
step-GoesRound t c tests_suspend g = rw (g, routine_step) refl
step-GoesRound t c marks_pending g = absurd g
step-GoesRound t c sleeps g = absurd g
step-GoesRound t c works g = g
step-GoesRound t c returned g = absurd g

steps-GoesRound :
    (t : Task) (n : ℕ)
    → GoesRound t.t_control t.place
    → GoesRound (routine_steps never n t).t_control (routine_steps never n t).place
unfolding routine_steps
steps-GoesRound t zero g = g
steps-GoesRound t (suc n) g =
    let u = routine_steps never n t in step-GoesRound u u.t_control u.place (steps-GoesRound t n g)

GoesRound-place : (c : TaskControl) (p : Place) → GoesRound c p → p ≢ returned
GoesRound-place c p g e = subst (λ q. GoesRound c q) e g

-- the task on its way: it sleeps after a call of `task_suspend`, and finds one of `task_resume`
asleep : Bytes → Task
asleep name = record (task_new name) { t_control = suspend; place = sleeps }

clearing : Bytes → Task
clearing name = record (task_new name) {
  t_state = running;
  t_control = resume;
  place = clears_control;
}

asleep-Reaches : (name : Bytes) → Reaches (task_new name) (asleep name)
unfolding asleep task_new task_start task_suspend routine_step
asleep-Reaches name =
    let t0 = task_new name in
    let t1 = task_start t0 in
    let t2 = routine_step false t1 in
    let t3 = record t2 { t_control = suspend } in
    let t4 = routine_step false t3 in
    let t5 = routine_step false t4 in
    let t6 = routine_step false t5 in
    let started = after (after here (start t0 refl)) (routine t1 false) in
    let suspended = after (after started (suspends t2 t3 refl)) (routine t3 false) in
    after (after (after suspended (routine t4 false)) (routine t5 false)) (routine t6 false)

clearing-Reaches : (name : Bytes) → Reaches (task_new name) (clearing name)
unfolding asleep clearing task_new task_resume routine_step
clearing-Reaches name =
    let t8 = record (asleep name) { t_control = resume } in
    let t9 = routine_step false t8 in
    let t10 = routine_step false t9 in
    let t11 = routine_step false t10 in
    let resumed =
      after (after (asleep-Reaches name) (resumes (asleep name) t8 refl)) (routine t8 false) in
    after (after (after resumed (routine t9 false)) (routine t10 false)) (routine t11 false)

-- A run of the thread and of calls in turn leads from a new task to a call of `task_stop` after which
-- the thread never returns while its function returns 0, so that the call waits for ever: the thread
-- had found a resumption, and clears the control.
pub task_stop-lost :
    (name : Bytes)
    → (t : Task) × Reaches (task_new name) t
      × ((n : ℕ) → (routine_steps (λ i. false) n (ask_stop t)).place ≢ returned)
unfolding ask_stop clearing
task_stop-lost name =
    let u = ask_stop (clearing name) in
    (
      clearing name,
      clearing-Reaches name,
      λ n.
          GoesRound-place (routine_steps never n u).t_control (routine_steps never n u).place
            (steps-GoesRound u n tt),
    )
