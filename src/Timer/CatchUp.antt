-- ===== src/Timer/CatchUp.antt =====
-- The `do` loop of src/posix/timer.c, which finds the next time of a timer that repeats.
use extlib.Common.{
  ℕ, zero, suc, ◌+◌, ◌*◌, ◌<◌, ◌≤◌, ◌≡◌, refl, ◌∙◌, inl, inr, true, false, some, Bool-cases, arith,
}
use extlib.Timer.{Time, isset, earlier, add_time, catch_up, rounds}

unfoldable pub micros : Time → ℕ
micros a = a.0 * 1000000 + a.1

micros-add_time : (a b : Time) → micros (add_time a b) ≡ micros a + micros b
unfolding micros
micros-add_time a b = ground arith

add_time_bound : (a b : Time) → a.1 < 2000000 → b.1 < 1000000 → (add_time a b).1 < 2000000
add_time_bound a b h k = ground arith

earlier-micros : (a now : Time) → a.1 < 2000000 → earlier a now ≡ true → micros a < rounds now
unfolding micros
earlier-micros a now h e = ground arith

isset-micros : (a : Time) → isset a ≡ true → 0 < micros a
unfolding micros
isset-micros a h = ground arith

catch_up-go :
    (k : ℕ) (now repeat timeout : Time)
    → 0 < micros repeat
    → repeat.1 < 1000000
    → timeout.1 < 2000000
    → rounds now ≤ micros timeout + k
    → 0 < k
    → (t : Time) × (n : ℕ) × (catch_up k now repeat timeout ≡ some t)
      × (earlier t now ≡ false)
      × (micros t ≡ micros timeout + suc n * micros repeat)
      × (t.1 < 2000000)
unfolding catch_up
catch_up-go zero now repeat timeout p r b enough more = let bad : ⊥ = omega arith in absurd bad
catch_up-go (suc k) now repeat timeout p r b enough more =
    let next = add_time timeout repeat in
    let m = micros-add_time timeout repeat in
    let b' = add_time_bound timeout repeat b r in
    elim (Bool-cases (earlier next now)) [
      | inr e ↦ (next, 0, rw e refl, e, m ∙ omega arith, b')
      | inl e ↦
          let low = earlier-micros next now b' e in
          let (t, n, returned, late, at, bound) =
            catch_up-go k now repeat next p r b' (omega (arith, m)) (omega (arith, m)) in
          (t, suc n, rw e returned, late, omega (arith, at, m), bound)
    ]

-- With a time to repeat after, and microseconds below two seconds and one, the bound of the loop is
-- enough: the next time is not before now, a whole number of repeats after the last, and again below.
pub catch_up-late :
    (now repeat timeout : Time)
    → isset repeat ≡ true
    → repeat.1 < 1000000
    → timeout.1 < 2000000
    → (t : Time) × (n : ℕ) × (catch_up (rounds now) now repeat timeout ≡ some t)
      × (earlier t now ≡ false)
      × (micros t ≡ micros timeout + suc n * micros repeat)
      × (t.1 < 2000000)
catch_up-late now repeat timeout set r b =
    catch_up-go (rounds now) now repeat timeout (isset-micros repeat set) r b (omega arith)
      (omega arith)
