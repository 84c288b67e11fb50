-- ===== src/Timer/Start.antt =====
-- What `timer_start` and `timer_trigger` of src/posix/timer.c lead to.
use extlib.Common.{
  ℕ, ◌+◌, ◌*◌, ◌/◌, ◌%◌, ◌≤◌, ◌≡◌, refl, true, false, some, List, [], ◌∷◌, ok, arith,
}
use extlib.Timer.{
  Time, Timer, isset, earlier, expire, visit, find_timer, put_timer, timer_start, timer_loop, wait,
}
use extlib.Timer.CatchUp.{micros}

-- A timer that is started is set for the time that is meant.
timer_start-micros :
    (now : Time) (handler arg timeout repeat : ℕ) (t : Timer)
    → micros (timer_start now handler arg timeout repeat t).timeout ≡ micros now + timeout * 1000
unfolding micros timer_start
timer_start-micros now handler arg timeout repeat t = omega arith

-- A single timer that is due and does not repeat: its handler is called once, with its time cleared.
timer_loop-due :
    (call : ℕ → ℕ → ℕ → List Timer → List Timer) (now after : Time) (h : ℕ) (t : Timer)
    → isset t.timeout ≡ true
    → earlier now t.timeout ≡ false
    → isset t.repeat ≡ false
    → t.handler ≡ some h
    → timer_loop call now after (t ∷ [])
      ≡ ok (
        some (wait (now.0 + 1, now.1) after),
        call h t.arg t.address (record t { timeout = (0, 0) } ∷ []),
      )
unfolding timer_loop visit find_timer expire put_timer
timer_loop-due call now after h t set due once has = ground (arith, set, due, once, has)

-- A timer that is started for once, where the microseconds of the clock and of its time come to a
-- second and a half or more, calls its handler half a second or more before its time, where
-- `timer_loop` runs at the turn of the clock to the second after that of its `tv_sec`.
pub timer_start-early :
    (call : ℕ → ℕ → ℕ → List Timer → List Timer) (now after : Time) (handler arg timeout : ℕ)
    (t : Timer)
    → 1500000 ≤ now.1 + timeout % 1000 * 1000
    → let s = timer_start now handler arg timeout 0 t in
      let later : Time = (now.0 + timeout / 1000 + 1, 0) in
      (micros later + 500000 ≤ micros now + timeout * 1000)
      × (timer_loop call later after (s ∷ [])
          ≡ ok (
            some (wait (later.0 + 1, 0) after),
            call handler arg t.address (record s { timeout = (0, 0) } ∷ []),
          ))
unfolding micros timer_start
timer_start-early call now after handler arg timeout t h =
    let s = timer_start now handler arg timeout 0 t in
    (
      omega arith,
      timer_loop-due call (now.0 + timeout / 1000 + 1, 0) after handler s (ground arith)
          (ground arith) refl refl,
    )
