-- ===== src/Posix/Select.antt =====
-- Which descriptors src/apix-posix.c asks `select` about.
use mathlib.Core.Path.{subst}
use extlib.Common.{
  ℕ, suc, ◌-◌, ◌≤◌, ◌<◌, ◌≡◌, refl, inl, inr, Bool, true, false, Option, none, some, List, [], ◌∷◌,
  arith, ltb, lt→ltb, ◌==◌, if◌then◌else◌, Bool-cases, take, In, All-In, All, Outcome, ok, abort,
  fault, ◌>>=◌, success, Bytes, Rc,
}
use extlib.Atbuf.{Atbuf, spare}
use extlib.Atbuf.New.{new-empty}
use extlib.Posix.Receive.{with_buffer}
use extlib.Bus.{Bus, SinkFd, find_sinkfd}
use extlib.Posix.{
  PosixSink, Calls, Ready, interrupted, broken, ready, contains, fd_setsize, with_fd, sinkfd_new,
  join, open_sink, remove_member, destroy, accept_one, recv_one, poll_members, unix_poll, receive,
}

-- `select` is asked about every member of the sink.
abbrev pub IsWatched : PosixSink → Type 0
IsWatched k = All (λ fd. (fd < k.nfds) × (contains k.fds fd ≡ true)) k.members

-- What a call leaves, if it returns.
abbrev Leaves : {A : Type 0} → (A → PosixSink) → Outcome A → Type 0
Leaves sink_of (ok a) = IsWatched (sink_of a)
Leaves sink_of abort = Unit
Leaves sink_of fault = Unit

All-weaken :
    (nfds nfds' : ℕ) (fds fds' ms : List ℕ)
    → nfds ≤ nfds'
    → ((x : ℕ) → contains fds x ≡ true → contains fds' x ≡ true)
    → All (λ fd. (fd < nfds) × (contains fds fd ≡ true)) ms
    → All (λ fd. (fd < nfds') × (contains fds' fd ≡ true)) ms
All-weaken nfds nfds' fds fds' [] h k w = tt
All-weaken nfds nfds' fds fds' (x ∷ ms) h k ((a, b), w) =
    ((omega arith, k x b), All-weaken nfds nfds' fds fds' ms h k w)

contains-with_fd :
    (fds : List ℕ) (fd x : ℕ) → contains fds x ≡ true → contains (with_fd fds fd) x ≡ true
unfolding contains
contains-with_fd fds fd x h = ground arith

pub contains-with_fd_self : (fds : List ℕ) (fd : ℕ) → contains (with_fd fds fd) fd ≡ true
unfolding contains
contains-with_fd_self fds fd = ground arith

remove_member-All : (P : ℕ → Type 0) (fd : ℕ) (ms : List ℕ) → All P ms → All P (remove_member fd ms)
unfolding remove_member
remove_member-All P fd [] h = h
remove_member-All P fd (x ∷ ms) (p, h) = elim (Bool-cases (x == fd)) [
  | inl e ↦ rw e h
  | inr e ↦ rw e (p, remove_member-All P fd ms h)
]

-- the bus with a new descriptor
abbrev pub joined : ℕ → Bool → Bus → Atbuf → Bus
joined fd listen bus buf = record bus {
  sinkfds =
      record { fd = fd; listen = listen; rxbuf = buf; ts_poll_recv = (0, 0); can_send = true }
      ∷ bus.sinkfds;
}

pub join-ok :
    (fd : ℕ) (listen : Bool) (sink : PosixSink) (bus : Bus)
    → (buf : Atbuf) × (join fd listen sink bus
        ≡ ok (record sink { members = fd ∷ sink.members }, joined fd listen bus buf))
unfolding join sinkfd_new
join-ok fd listen sink bus =
    let n = new-empty 0 (omega arith) in let e = n.1 in (n.0, rw (e, join, sinkfd_new) refl)

accept_one-Leaves :
    (calls : Calls) (fd : ℕ) (sink : PosixSink) (bus : Bus)
    → IsWatched sink
    → Leaves (λ o. o.0) (accept_one calls fd sink bus)
unfolding accept_one
accept_one-Leaves calls fd sink bus w = by_answer (calls.accept fd) refl
  where
    by_answer :
        (o : Option ℕ) → calls.accept fd ≡ o → Leaves (λ o. o.0) (accept_one calls fd sink bus)
    by_answer none e = rw (e, accept_one) w
    by_answer (some new_fd) e =
        let nfds = if ltb sink.nfds (suc new_fd) then suc new_fd else sink.nfds in
        let (buf, j) = join-ok new_fd false sink bus in
        elim (Bool-cases (ltb new_fd fd_setsize)) [
          | inl fits ↦
              rw (e, j, fits, accept_one)
                (
                  (ground arith, contains-with_fd_self sink.fds new_fd),
                  All-weaken sink.nfds nfds sink.fds (with_fd sink.fds new_fd) sink.members
                      (ground arith) (contains-with_fd sink.fds new_fd) w,
                )
          | inr over ↦ rw (e, j, over, accept_one) tt
        ]

destroy-IsWatched :
    (fd : ℕ) (sink : PosixSink) (bus : Bus) → IsWatched sink → IsWatched (destroy fd sink bus).0
unfolding destroy
destroy-IsWatched fd sink bus w = remove_member-All _ fd sink.members w

recv_one-Leaves :
    (calls : Calls) (s : SinkFd) (sink : PosixSink) (bus : Bus)
    → IsWatched sink
    → Leaves (λ o. o.0) (recv_one calls s sink bus)
unfolding recv_one
recv_one-Leaves calls s sink bus w = by_answer (calls.recv s.fd (spare s.rxbuf)) refl
  where
    by_answer :
        (o : Option Bytes)
        → calls.recv s.fd (spare s.rxbuf) ≡ o
        → Leaves (λ o. o.0) (recv_one calls s sink bus)
    by_answer none e = rw (e, recv_one) (destroy-IsWatched s.fd sink bus w)
    by_answer (some []) e = rw (e, recv_one) (destroy-IsWatched s.fd sink bus w)
    by_answer (some (c ∷ cs)) e =
        rw (e, recv_one) (by_buffer (receive s.rxbuf (take (spare s.rxbuf) (c ∷ cs))))
      where
        by_buffer :
            (r : Outcome Atbuf)
            → Leaves
                (λ (o : PosixSink × Bus). o.0)
                (r >>= λ buf. ok (sink, with_buffer calls s buf bus))
        by_buffer (ok buf) = w
        by_buffer abort = tt
        by_buffer fault = tt

Leaves-bind :
    (r : Outcome (PosixSink × Bus)) (f : PosixSink → Bus → Outcome (PosixSink × Bus))
    → Leaves (λ o. o.0) r
    → ((k : PosixSink) (b : Bus) → IsWatched k → Leaves (λ o. o.0) (f k b))
    → Leaves (λ o. o.0) (r >>= λ (k, b). f k b)
Leaves-bind (ok (k, b)) f w h = h k b w
Leaves-bind abort f w h = tt
Leaves-bind fault f w h = tt

poll_members-Leaves :
    (calls : Calls) (isset : ℕ → Bool) (ms : List ℕ) (nr : ℕ) (sink : PosixSink) (bus : Bus)
    → IsWatched sink
    → Leaves (λ o. o.0) (poll_members calls isset ms nr sink bus)
unfolding poll_members
poll_members-Leaves calls isset [] nr sink bus w = w
poll_members-Leaves calls isset (fd ∷ ms) nr sink bus w =
    by_tests (nr == 0) refl (isset fd) refl (find_sinkfd bus.sinkfds fd) refl
      (poll_members-Leaves calls isset ms nr sink bus w)
      (λ k b v. poll_members-Leaves calls isset ms (nr - 1) k b v)
  where
    by_tests :
        (d : Bool)
        → (nr == 0) ≡ d
        → (i : Bool) → isset fd ≡ i
        → (o : Option SinkFd) → find_sinkfd bus.sinkfds fd ≡ o
        → Leaves (λ o. o.0) (poll_members calls isset ms nr sink bus)
        → ((k : PosixSink) (b : Bus)
            → IsWatched k
            → Leaves (λ o. o.0) (poll_members calls isset ms (nr - 1) k b))
        → Leaves (λ o. o.0) (poll_members calls isset (fd ∷ ms) nr sink bus)
    by_tests true d i e o f here next = rw (d, poll_members) w
    by_tests false d false e o f here next = rw (d, e, poll_members) here
    by_tests false d true e none f here next = rw (d, e, f, poll_members) tt
    by_tests false d true e (some s) f here next =
        rw (d, e, f, poll_members)
          (Leaves-bind
            (if s.listen then accept_one calls fd sink bus else recv_one calls s sink bus)
            (λ k b. poll_members calls isset ms (nr - 1) k b) (by_kind s s.listen) next)
      where
        by_kind :
            (s : SinkFd) (b : Bool)
            → Leaves
                (λ o. o.0)
                (if b then accept_one calls fd sink bus else recv_one calls s sink bus)
        by_kind s true = accept_one-Leaves calls fd sink bus w
        by_kind s false = recv_one-Leaves calls s sink bus w

-- Whatever the system answers, a call of `unix_poll` that returns leaves a sink whose members are all
-- asked about by the next, if they were before: those accepted come to `fds` and below `nfds`. (A call
-- does not return where `FD_SET` gets a descriptor that an `fd_set` has no bit for.)
pub unix_poll-IsWatched :
    (select : List ℕ → ℕ → Ready) (calls : Calls) (sink : PosixSink) (bus : Bus) (rc : Rc)
    (k : PosixSink) (b : Bus)
    → IsWatched sink
    → unix_poll select calls sink bus ≡ ok (rc, k, b)
    → IsWatched k
unfolding unix_poll
unix_poll-IsWatched select calls sink bus rc k b w e =
    subst (Leaves (λ (o : Rc × PosixSink × Bus). o.1)) e
      (by_answer (select sink.fds sink.nfds) refl)
  where
    answered :
        (r : Outcome (PosixSink × Bus))
        → Leaves (λ (o : PosixSink × Bus). o.0) r
        → Leaves (λ (o : Rc × PosixSink × Bus). o.1) (r >>= λ (k, b). ok (success, k, b))
    answered (ok (k, b)) v = v
    answered abort v = tt
    answered fault v = tt

    by_answer :
        (r : Ready)
        → select sink.fds sink.nfds ≡ r
        → Leaves (λ (o : Rc × PosixSink × Bus). o.1) (unix_poll select calls sink bus)
    by_answer interrupted f = rw (f, unix_poll) w
    by_answer broken f = rw (f, unix_poll) w
    by_answer (ready nr isset) f =
        rw (f, unix_poll)
          (answered (poll_members calls isset sink.members nr sink bus)
            (poll_members-Leaves calls isset sink.members nr sink bus w))

-- Opening a descriptor that an `fd_set` has a bit for and that is lower than a member takes that
-- member out of what `select` is asked about, since `nfds` is set to the new descriptor and one.
pub open_sink-unwatched :
    (fd m : ℕ) (listen : Bool) (sink : PosixSink) (bus : Bus)
    → In m sink.members
    → fd < m
    → fd < fd_setsize
    → (k : PosixSink) × (b : Bus) × (open_sink (some fd) listen sink bus ≡ ok (some fd, k, b))
      × In m k.members
      × (k.nfds ≤ m)
      × (IsWatched k → ⊥)
unfolding open_sink
open_sink-unwatched fd m listen sink bus i low fits =
    let (buf, j) = join-ok fd listen sink bus in
    let k = record sink { members = fd ∷ sink.members; fds = with_fd sink.fds fd; nfds = suc fd } in
    (
      k,
      joined fd listen bus buf,
      rw (j, lt→ltb _ _ fits) refl,
      inr i,
      omega arith,
      λ w.
          let x =
            (All-In (λ x. (x < suc fd) × (contains k.fds x ≡ true)) m k.members w (inr i)).0 in
          omega arith,
    )
