-- ===== src/Timer/Examples.antt =====
-- Two timers, one that is due and one that repeats.
use extlib.Common.{ℕ, ◌+◌, ◌≤◌, ◌≡◌, refl, inr, some, List, [], ◌∷◌, ok, Returns, arith}
use extlib.Timer.{Timer, new_timer, find_timer, timer_start, timer_loop, wait}
use extlib.Timer.CatchUp.{micros}
use extlib.Timer.Start.{timer_start-early}
use extlib.Timer.Wait.{Armed, KeepsArmed, WaitsBriefly, timer_loop-wait}

-- handlers that leave the timers alone
abbrev leaves : ℕ → ℕ → ℕ → List Timer → List Timer
leaves h arg a ts = ts

leaves-KeepsArmed : KeepsArmed leaves
leaves-KeepsArmed h arg a ts rest_of v = v

abbrev once : Timer
once = record { address = 1; handler = some 7; arg = 0; timeout = (2, 0); repeat = (0, 0) }

abbrev ticking : Timer
ticking = record {
  address = 2;
  handler = some 8;
  arg = 0;
  timeout = (2, 900000);
  repeat = (0, 300000);
}

once-Armed : Armed (once ∷ ticking ∷ []) 1
unfolding find_timer
once-Armed = (
  once,
  refl,
  record { timeout_bound = omega arith; repeat_bound = omega arith; handled = inr (7, refl) },
)

ticking-Armed : Armed (once ∷ ticking ∷ []) 2
unfolding find_timer
ticking-Armed = (
  ticking,
  refl,
  record { timeout_bound = omega arith; repeat_bound = omega arith; handled = inr (8, refl) },
)

timer_loop-wait_example :
    Returns WaitsBriefly (timer_loop leaves (3, 100) (3, 200) (once ∷ ticking ∷ []))
timer_loop-wait_example =
    timer_loop-wait leaves (3, 100) (3, 200) (once ∷ ticking ∷ []) leaves-KeepsArmed
      (once-Armed, (ticking-Armed, tt)) (omega arith) refl

-- started at 4.9 for 0.9 seconds, called at 5.0
timer_start-early_example :
    let s = timer_start (4, 900000) 7 0 900 0 (new_timer 1) in
    (micros (5, 0) + 500000 ≤ micros (4, 900000) + 900000)
    × (timer_loop leaves (5, 0) (5, 0) (s ∷ [])
        ≡ ok (some (wait (6, 0) (5, 0)), record s { timeout = (0, 0) } ∷ []))
timer_start-early_example =
    timer_start-early leaves (4, 900000) (5, 0) 7 0 900 (new_timer 1) (omega arith)
