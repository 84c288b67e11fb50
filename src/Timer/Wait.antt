-- ===== src/Timer/Wait.antt =====
-- How long src/posix/timer.c lets the caller of `timer_loop` wait.
use mathlib.Core.Path.{subst}
use mathlib.Core.Option.{some-injective}
use extlib.Common.{
  ℕ, ◌+◌, ◌<◌, ◌≤◌, ◌≡◌, refl, sym, ◌∙◌, ◌⊎◌, inl, inr, true, false, Option, none, some, List, [],
  ◌∷◌, leb, ◌==◌, Bool-cases, Outcome, ok, abort, fault, ◌>>=◌, arith, All, Returns,
}
use extlib.Timer.{
  Time, Timer, isset, earlier, sooner, expire, visit, addresses, find_timer, put_timer, timer_loop,
  wait,
}
use extlib.Timer.CatchUp.{catch_up-late}

-- A timer that can be looked at: the microseconds of its time are below two seconds and those of its
-- repeat below one, and it has a handler if it is set.
pub record IsArmed (t : Timer) : Type 0 where
  pub timeout_bound : t.timeout.1 < 2000000
  pub repeat_bound : t.repeat.1 < 1000000
  pub handled : (isset t.timeout ≡ false) ⊎ ((h : ℕ) × (t.handler ≡ some h))

-- The address is that of a timer that can be looked at.
abbrev pub Armed : List Timer → ℕ → Type 0
Armed ts a = (t : Timer) × (find_timer ts a ≡ some t) × IsArmed t

-- Not after `now` and a second, in the order of `timercmp`, and with its microseconds bounded.
abbrev Soon : Time → Time → Type 0
Soon now next = (earlier (now.0 + 1, now.1) next ≡ false) × (next.1 < 2000000)

sooner-Soon : (now a next : Time) → a.1 < 2000000 → Soon now next → Soon now (sooner a next)
sooner-Soon now a next b h = ground arith

expire-Soon :
    (now next : Time) (t : Timer) (h : ℕ)
    → IsArmed t
    → t.handler ≡ some h
    → Soon now next
    → (n : Time) × (u : Timer) × (expire now next t ≡ some (n, u)) × Soon now n × IsArmed u
unfolding expire
expire-Soon now next t h v has soon = elim (Bool-cases (isset t.repeat)) [
  | inr e ↦ (
    next,
    record t { timeout = (0, 0) },
    rw e refl,
    soon,
    record { timeout_bound = omega arith; repeat_bound = v.repeat_bound; handled = inr (h, has) },
  )
  | inl e ↦
      let (at, n, returned, late, sum, bound) =
        catch_up-late now t.repeat t.timeout e v.repeat_bound v.timeout_bound in
      (
        sooner at next,
        record t { timeout = at },
        rw (e, returned, expire) refl,
        sooner-Soon now at next bound soon,
        record { timeout_bound = bound; repeat_bound = v.repeat_bound; handled = inr (h, has) },
      )
]

put_timer-Armed :
    (u : Timer) (ts : List Timer) (a : ℕ) → IsArmed u → Armed ts a → Armed (put_timer u ts) a
unfolding put_timer find_timer
put_timer-Armed u [] a v h = h
put_timer-Armed u (x ∷ ts) a v (t, found, w) =
    by_tests (Bool-cases (x.address == u.address)) (Bool-cases (x.address == a))
      (λ h. put_timer-Armed u ts a v h)
  where
    by_tests :
        ((x.address == u.address) ≡ true) ⊎ ((x.address == u.address) ≡ false)
        → ((x.address == a) ≡ true) ⊎ ((x.address == a) ≡ false)
        → (Armed ts a → Armed (put_timer u ts) a)
        → Armed (put_timer u (x ∷ ts)) a
    by_tests (inl e) (inl f) rest = (u, ground (arith, e, f), v)
    by_tests (inl e) (inr f) rest = (t, ground (arith, e, f, found), w)
    by_tests (inr e) (inl f) rest = (t, ground (arith, e, f, found), w)
    by_tests (inr e) (inr f) rest =
        let (y, p, z) = rest (t, ground (arith, f, found), w) in (y, ground (arith, e, f, p), z)

put_timer-All :
    (u : Timer) (ts : List Timer) (rest_of : List ℕ)
    → IsArmed u
    → All (Armed ts) rest_of
    → All (Armed (put_timer u ts)) rest_of
put_timer-All u ts [] v h = tt
put_timer-All u ts (a ∷ rest_of) v (p, h) =
    (put_timer-Armed u ts a v p, put_timer-All u ts rest_of v h)

-- Whatever the addresses, a handler leaves them those of timers that can be looked at: it destroys
-- none, and it starts none but with a handler.
abbrev pub KeepsArmed : (ℕ → ℕ → ℕ → List Timer → List Timer) → Type 0
KeepsArmed call =
    (h arg a : ℕ) (ts : List Timer) (rest_of : List ℕ)
    → All (Armed ts) rest_of
    → All (Armed (call h arg a ts)) rest_of

-- What the loop gives: it finds all bounds high enough, and the next time is soon.
abbrev GivesSoon : Time → Option Time × List Timer → Type 0
GivesSoon now (next, ts) = (n : Time) × (next ≡ some n) × Soon now n

module _ (call : ℕ → ℕ → ℕ → List Timer → List Timer) (keeps : KeepsArmed call) (now : Time) where
  visit-GivesSoon :
      (rest_of : List ℕ) (next : Time) (ts : List Timer)
      → All (Armed ts) rest_of
      → Soon now next
      → Returns (GivesSoon now) (visit call now rest_of next ts)
  unfolding visit
  visit-GivesSoon [] next ts v h = (next, refl, h)
  visit-GivesSoon (a ∷ rest_of) next ts ((t, e, w), v) h = elim (Bool-cases (isset t.timeout)) [
    | inr f ↦ rw (e, f, visit) (visit-GivesSoon rest_of next ts v h)
    | inl f ↦ elim (Bool-cases (earlier now t.timeout)) [
      | inl g ↦
          rw (e, f, g, visit)
            (visit-GivesSoon rest_of (sooner t.timeout next) ts v
              (sooner-Soon now t.timeout next w.timeout_bound h))
      | inr g ↦ elim w.handled [
        | inl out ↦ let bad : true ≡ false = sym f ∙ out in cc
        | inr (handler, has) ↦
            let (n, u, expired, soon, x) = expire-Soon now next t handler w has h in
            let us = call handler t.arg a (put_timer u ts) in
            rw (e, f, g, expired, has, visit)
              (visit-GivesSoon rest_of n us
                (keeps handler t.arg a (put_timer u ts) rest_of (put_timer-All u ts rest_of x v))
                soon)
      ]
    ]
  ]

not_earlier : (a b : Time) → earlier a b ≡ false → (b.0 < a.0) ⊎ ((a.0 ≡ b.0) × (b.1 ≤ a.1))
not_earlier a b h = elim (Bool-cases (a.0 == b.0)) [
  | inl e ↦ inr (ground (arith, e), ground (arith, e, h))
  | inr e ↦ inl (ground (arith, e, h))
]

is_earlier : (a b : Time) → earlier a b ≡ true → (a.0 < b.0) ⊎ ((a.0 ≡ b.0) × (a.1 < b.1))
is_earlier a b h = elim (Bool-cases (a.0 == b.0)) [
  | inl e ↦ inr (ground (arith, e), ground (arith, e, h))
  | inr e ↦ inl (ground (arith, e, h))
]

wait-bound :
    (now after next : Time)
    → earlier after now ≡ false
    → now.1 < 1000000
    → Soon now next
    → wait next after < 2000
unfolding wait
wait-bound now after next p q (h, b) = elim (Bool-cases (earlier after next)) [
  | inr e ↦ rw e (omega arith)
  | inl e ↦
      let x = not_earlier after now p in
      let y = not_earlier (now.0 + 1, now.1) next h in
      let z = is_earlier after next e in
      rw e (elim (Bool-cases (leb after.1 next.1)) [
        | inl f ↦ rw f (ground (arith, x, y, z, f))
        | inr f ↦ rw f (ground (arith, x, y, z, f))
      ])
]

-- the time to wait is there, and less than two seconds
abbrev pub WaitsBriefly : Option ℕ × List Timer → Type 0
WaitsBriefly (n, us) = (ms : ℕ) × (n ≡ some ms) × (ms < 2000)

-- Where every timer of the loop can be looked at and handlers keep that, the microseconds of the clock
-- are fewer than a million, and its second reading is not before the first, `timer_loop` returns, with
-- enough rounds for each timer that repeats, and asks its caller to wait for less than two seconds.
pub timer_loop-wait :
    (call : ℕ → ℕ → ℕ → List Timer → List Timer) (now after : Time) (ts : List Timer)
    → KeepsArmed call
    → All (Armed ts) (addresses ts)
    → now.1 < 1000000
    → earlier after now ≡ false
    → Returns WaitsBriefly (timer_loop call now after ts)
unfolding timer_loop
timer_loop-wait call now after ts keeps armed small later =
    by_visit (visit call now (addresses ts) (now.0 + 1, now.1) ts) (
      visit-GivesSoon call keeps now (addresses ts) (now.0 + 1, now.1) ts armed
        (ground arith, omega arith))
  where
    by_visit :
        (r : Outcome (Option Time × List Timer))
        → Returns (GivesSoon now) r
        → Returns WaitsBriefly (
            r >>= λ (next, left).
            ok (elim next [ none ↦ none | some n ↦ some (wait n after) ], left))
    by_visit (ok (none, us)) (n, e, h) = cc
    by_visit (ok (some m, us)) (n, e, h) = (
      wait m after,
      refl,
      wait-bound now after m later small (subst (Soon now) (sym (some-injective m n e)) h),
    )
    by_visit abort h = absurd h
    by_visit fault h = absurd h
