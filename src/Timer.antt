-- ===== src/Timer.antt =====
-- src/posix/timer.c: the timers of a thread. The clock, and what a handler does to the timers of its
-- loop, are arguments; a handler is known by a number, and a timer by its address.
pub mod CatchUp
pub mod Wait
pub mod Start
mod Examples
use extlib.Common.{
  ℕ, zero, suc, ◌+◌, ◌-◌, ◌*◌, ◌/◌, ◌%◌, Bool, true, false, not, ◌&&◌, Option, none, some, List, [],
  ◌∷◌, leb, ltb, ◌==◌, if◌then◌else◌, Outcome, ok, abort, fault, ◌>>=◌, ◌>>◌, assert,
}

-- `struct timeval`, as seconds and microseconds
abbrev pub Time : Type 0
Time = ℕ × ℕ

-- `timerisset`, `timercmp(a, b, <)` and `timeradd`
abbrev pub isset : Time → Bool
isset a = not ((a.0 == 0) && (a.1 == 0))

abbrev pub earlier : Time → Time → Bool
earlier a b = if a.0 == b.0 then ltb a.1 b.1 else ltb a.0 b.0

abbrev pub add_time : Time → Time → Time
add_time a b =
    if leb 1000000 (a.1 + b.1) then (a.0 + b.0 + 1, a.1 + b.1 - 1000000) else (a.0 + b.0, a.1 + b.1)

-- `struct timer`
pub record Timer : Type 0 where
  pub address : ℕ
  pub handler : Option ℕ
  pub arg : ℕ
  pub timeout : Time
  pub repeat : Time

-- `struct timer_loop`: the thread, and its timers, newest first
pub record Loop : Type 0 where
  pub pid : ℕ
  pub timers : List Timer

pub find_timer_loop : List Loop → ℕ → Option Loop
find_timer_loop [] pid = none
find_timer_loop (l ∷ ls) pid = if l.pid == pid then some l else find_timer_loop ls pid

pub put_loop : Loop → List Loop → List Loop
put_loop l [] = []
put_loop l (x ∷ ls) = let rest = put_loop l ls in if x.pid == l.pid then l ∷ ls else x ∷ rest

remove_loop : ℕ → List Loop → List Loop
remove_loop pid [] = []
remove_loop pid (x ∷ ls) = let rest = remove_loop pid ls in if x.pid == pid then ls else x ∷ rest

abbrev pub new_timer : ℕ → Timer
new_timer address = record {
  address = address;
  handler = none;
  arg = 0;
  timeout = (0, 0);
  repeat = (0, 0);
}

-- `timer_new` in the thread `self`
pub timer_new : ℕ → ℕ → List Loop → List Loop
timer_new self address loops = elim (find_timer_loop loops self) [
  | none ↦ record { pid = self; timers = new_timer address ∷ [] } ∷ loops
  | some l ↦ put_loop (record l { timers = new_timer address ∷ l.timers }) loops
]

pub find_timer : List Timer → ℕ → Option Timer
find_timer [] address = none
find_timer (t ∷ ts) address = if t.address == address then some t else find_timer ts address

pub put_timer : Timer → List Timer → List Timer
put_timer t [] = []
put_timer t (x ∷ ts) =
    let rest = put_timer t ts in if x.address == t.address then t ∷ ts else x ∷ rest

pub remove_timer : ℕ → List Timer → List Timer
remove_timer address [] = []
remove_timer address (x ∷ ts) =
    let rest = remove_timer address ts in if x.address == address then ts else x ∷ rest

-- the loops where `l` is left with these timers, or with none
without : List Timer → Loop → List Loop → List Loop
unfolding remove_loop
without [] l loops = remove_loop l.pid loops
without (t ∷ ts) l loops = put_loop (record l { timers = t ∷ ts }) loops

-- `timer_destroy` of a timer in the loop `l`, with the last of which the loop goes
pub timer_destroy : ℕ → ℕ → Loop → List Loop → Outcome (List Loop)
unfolding without
timer_destroy self address l loops = do
  assert (l.pid == self)
  ok (without (remove_timer address l.timers) l loops)

-- `timer_start`, in milliseconds from `now`
pub timer_start : Time → ℕ → ℕ → (timeout repeat : ℕ) → Timer → Timer
timer_start now handler arg timeout repeat t = record t {
  handler = some handler;
  arg = arg;
  timeout = (now.0 + timeout / 1000, now.1 + timeout % 1000 * 1000);
  repeat = (repeat / 1000, repeat % 1000 * 1000);
}

pub timer_stop : Timer → Timer
timer_stop t = record t { handler = none; arg = 0; timeout = (0, 0); repeat = (0, 0) }

pub timer_trigger : Time → Timer → Timer
timer_trigger now t = record t { timeout = now }

-- The `do` loop, with a bound for its rounds; `none` when that is too low.
pub catch_up : ℕ → Time → Time → Time → Option Time
catch_up zero now repeat timeout = none
catch_up (suc k) now repeat timeout =
    let next = add_time timeout repeat in
    let rest = catch_up k now repeat next in if earlier next now then rest else some next

-- A round moves the time on by a microsecond at least, and `tv_usec` stays below two seconds.
abbrev pub rounds : Time → ℕ
rounds now = (now.0 + 2) * 1000000

abbrev pub sooner : Time → Time → Time
sooner a b = if earlier a b then a else b

-- What becomes of a timer that is due, and of the time of the next.
pub expire : Time → Time → Timer → Option (Time × Timer)
expire now next t =
    if isset t.repeat
    then elim (catch_up (rounds now) now t.repeat t.timeout) [
      | none ↦ none
      | some timeout ↦ some (sooner timeout next, record t { timeout = timeout })
    ]
    else some (next, record t { timeout = (0, 0) })

-- The loop of `timer_loop` over the timers that it began with. A timer that is gone is read after it
-- was freed, and a handler that is NULL is called.
pub visit :
    (ℕ → ℕ → ℕ → List Timer → List Timer)
    → Time
    → List ℕ
    → Time
    → List Timer
    → Outcome (Option Time × List Timer)
visit call now [] next timers = ok (some next, timers)
visit call now (a ∷ rest) next timers = elim (find_timer timers a) [
  | none ↦ fault
  | some t ↦ elim (isset t.timeout) [
    | false ↦ visit call now rest next timers
    | true ↦ elim (earlier now t.timeout) [
      | true ↦ visit call now rest (sooner t.timeout next) timers
      | false ↦ elim (expire now next t) [
        | none ↦ ok (none, timers)
        | some (next', t') ↦ elim t.handler [
          | none ↦ fault
          | some h ↦ visit call now rest next' (call h t.arg a (put_timer t' timers))
        ]
      ]
    ]
  ]
]

abbrev pub addresses : List Timer → List ℕ
addresses [] = []
addresses (t ∷ ts) = t.address ∷ addresses ts

-- the milliseconds from `now` to `next`
pub wait : Time → Time → ℕ
wait next now =
    if earlier now next
    then if leb now.1 next.1
      then (next.0 - now.0) * 1000 + (next.1 - now.1) / 1000
      else (next.0 - now.0) * 1000 - (now.1 - next.1) / 1000
    else 0

-- `timer_loop`: the time to wait and the timers. `now` and `after` are the times that it reads.
-- `none` is the bound of the `do` loop, which is high enough.
pub timer_loop :
    (ℕ → ℕ → ℕ → List Timer → List Timer)
    → (now after : Time) → List Timer
    → Outcome (Option ℕ × List Timer)
timer_loop call now after timers = do
  (next, left) ← visit call now (addresses timers) (now.0 + 1, now.1) timers
  ok (elim next [ none ↦ none | some n ↦ some (wait n after) ], left)
