-- ===== src/Posix/Serial.antt =====
-- `serial_poll` of src/apix-posix.c, and how it compares with `unix_poll`.
use extlib.Common.{
  ℕ, ◌-◌, ◌≡◌, refl, sym, ap, ◌∙◌, true, false, Bool, inl, inr, Option, none, some, List, [], ◌∷◌,
  ◌==◌, if◌then◌else◌, arith, All, Bool-cases, Outcome, ok, abort, fault, ◌>>=◌, Rc, success,
  failure, take, Bytes,
}
use extlib.Atbuf.{Atbuf, spare}
use extlib.Bus.{Bus, SinkFd, find_sinkfd}
use extlib.Posix.Receive.{with_buffer}
use extlib.Posix.{
  PosixSink, Calls, Ready, interrupted, broken, ready, receive, update_sinkfd, remove_sinkfd,
  destroy, accept_one, recv_one, poll_members, unix_poll,
}

-- The loop of `serial_poll`, as that of `unix_poll`.
serial_members : Calls → (ℕ → Bool) → List ℕ → ℕ → PosixSink → Bus → Outcome (PosixSink × Bus)
serial_members calls isset [] nr sink bus = ok (sink, bus)
serial_members calls isset (fd ∷ fds) nr sink bus = elim (nr == 0) [
  | true ↦ ok (sink, bus)
  | false ↦ elim (isset fd) [
    | false ↦ serial_members calls isset fds nr sink bus
    | true ↦ elim (find_sinkfd bus.sinkfds fd) [
      | none ↦ fault
      | some s ↦ do (k, b) ← recv_one calls s sink bus; serial_members calls isset fds (nr - 1) k b
    ]
  ]
]

pub serial_poll : (List ℕ → ℕ → Ready) → Calls → PosixSink → Bus → Outcome (Rc × PosixSink × Bus)
unfolding serial_members
serial_poll select calls sink bus = elim (select sink.fds sink.nfds) [
  | interrupted ↦ ok (success, sink, bus)
  | broken ↦ ok (failure, sink, bus)
  | ready nr isset ↦ do
    (k, b) ← serial_members calls isset sink.members nr sink bus
    ok (success, k, b)
]

serial_members_done :
    (calls : Calls) (isset : ℕ → Bool) (xs : List ℕ) (sink : PosixSink) (bus : Bus)
    → serial_members calls isset xs 0 sink bus ≡ ok (sink, bus)
unfolding serial_members
serial_members_done calls isset [] sink bus = refl
serial_members_done calls isset (x ∷ xs) sink bus = refl

-- Where nothing is ready nothing happens.
pub serial_poll_idle :
    (select : List ℕ → ℕ → Ready) (calls : Calls) (sink : PosixSink) (bus : Bus) (isset : ℕ → Bool)
    → select sink.fds sink.nfds ≡ ready 0 isset
    → serial_poll select calls sink bus ≡ ok (success, sink, bus)
unfolding serial_poll
serial_poll_idle select calls sink bus isset e =
    rw (e, serial_members_done calls isset sink.members sink bus, serial_poll) refl

-- none of the descriptors listens
abbrev Plain : List SinkFd → Type 0
Plain ss = All (λ s. s.listen ≡ false) ss

find_sinkfd-Plain :
    (ss : List SinkFd) (fd : ℕ) (s : SinkFd)
    → Plain ss
    → find_sinkfd ss fd ≡ some s
    → s.listen ≡ false
unfolding find_sinkfd
find_sinkfd-Plain [] fd s h e = cc
find_sinkfd-Plain (x ∷ ss) fd s (p, h) e = elim (Bool-cases (x.fd == fd)) [
  | inl f ↦ ground (arith, e, f, p)
  | inr f ↦ find_sinkfd-Plain ss fd s h (ground (arith, e, f))
]

update_sinkfd-Plain :
    (t : SinkFd) (ss : List SinkFd) → t.listen ≡ false → Plain ss → Plain (update_sinkfd t ss)
unfolding update_sinkfd
update_sinkfd-Plain t [] p h = tt
update_sinkfd-Plain t (x ∷ ss) p (q, h) = elim (Bool-cases (x.fd == t.fd)) [
  | inl f ↦ rw f (p, h)
  | inr f ↦ rw f (q, update_sinkfd-Plain t ss p h)
]

remove_sinkfd-Plain : (fd : ℕ) (ss : List SinkFd) → Plain ss → Plain (remove_sinkfd fd ss)
unfolding remove_sinkfd
remove_sinkfd-Plain fd [] h = tt
remove_sinkfd-Plain fd (x ∷ ss) (q, h) = elim (Bool-cases (x.fd == fd)) [
  | inl f ↦ rw f h
  | inr f ↦ rw f (q, remove_sinkfd-Plain fd ss h)
]

-- A call that returns leaves no listening descriptor.
abbrev StaysPlain : Outcome (PosixSink × Bus) → Type 0
StaysPlain (ok (k, b)) = Plain b.sinkfds
StaysPlain abort = Unit
StaysPlain fault = Unit

recv_one-StaysPlain :
    (calls : Calls) (s : SinkFd) (sink : PosixSink) (bus : Bus)
    → s.listen ≡ false
    → Plain bus.sinkfds
    → StaysPlain (recv_one calls s sink bus)
unfolding recv_one
recv_one-StaysPlain calls s sink bus p h = by_answer (calls.recv s.fd (spare s.rxbuf)) refl
  where
    by_answer :
        (o : Option Bytes)
        → calls.recv s.fd (spare s.rxbuf) ≡ o
        → StaysPlain (recv_one calls s sink bus)
    by_answer none e = rw (e, recv_one, destroy) (remove_sinkfd-Plain s.fd bus.sinkfds h)
    by_answer (some []) e = rw (e, recv_one, destroy) (remove_sinkfd-Plain s.fd bus.sinkfds h)
    by_answer (some (c ∷ cs)) e =
        rw (e, recv_one) (by_buffer (receive s.rxbuf (take (spare s.rxbuf) (c ∷ cs))))
      where
        by_buffer :
            (r : Outcome Atbuf) → StaysPlain (r >>= λ buf. ok (sink, with_buffer calls s buf bus))
        by_buffer (ok buf) =
            update_sinkfd-Plain (record s { rxbuf = buf; ts_poll_recv = calls.now }) bus.sinkfds p h
        by_buffer abort = tt
        by_buffer fault = tt

serial_members-poll_members :
    (calls : Calls) (isset : ℕ → Bool) (fds : List ℕ) (nr : ℕ) (sink : PosixSink) (bus : Bus)
    → Plain bus.sinkfds
    → serial_members calls isset fds nr sink bus ≡ poll_members calls isset fds nr sink bus
unfolding serial_members poll_members
serial_members-poll_members calls isset [] nr sink bus h = refl
serial_members-poll_members calls isset (fd ∷ fds) nr sink bus h =
    by_tests (nr == 0) refl (isset fd) refl (find_sinkfd bus.sinkfds fd) refl
      (serial_members-poll_members calls isset fds nr sink bus h)
      (λ k b. serial_members-poll_members calls isset fds (nr - 1) k b)
  where
    by_tests :
        (d : Bool)
        → (nr == 0) ≡ d
        → (i : Bool) → isset fd ≡ i
        → (o : Option SinkFd) → find_sinkfd bus.sinkfds fd ≡ o
        → serial_members calls isset fds nr sink bus ≡ poll_members calls isset fds nr sink bus
        → ((k : PosixSink) (b : Bus)
            → Plain b.sinkfds
            → serial_members calls isset fds (nr - 1) k b
              ≡ poll_members calls isset fds (nr - 1) k b)
        → serial_members calls isset (fd ∷ fds) nr sink bus
          ≡ poll_members calls isset (fd ∷ fds) nr sink bus
    by_tests true d i e o f here next = rw (d, serial_members, poll_members) refl
    by_tests false d false e o f here next = rw (d, e, serial_members, poll_members) here
    by_tests false d true e none f here next = rw (d, e, f, serial_members, poll_members) refl
    by_tests false d true e (some s) f here next =
        let p = find_sinkfd-Plain bus.sinkfds fd s h f in
        rw (d, e, f, serial_members, poll_members)
          (after (recv_one calls s sink bus) (recv_one-StaysPlain calls s sink bus p h)
            ∙ ap
                (λ b.
                  (if b then accept_one calls fd sink bus else recv_one calls s sink bus)
                  >>= λ (k, b). poll_members calls isset fds (nr - 1) k b)
                (sym p))
      where
        after :
            (r : Outcome (PosixSink × Bus))
            → StaysPlain r
            → (r >>= λ (k, b). serial_members calls isset fds (nr - 1) k b)
              ≡ (r >>= λ (k, b). poll_members calls isset fds (nr - 1) k b)
        after (ok (k, b)) w = next k b w
        after abort w = refl
        after fault w = refl

-- On descriptors that do not listen `serial_poll` does what `unix_poll` does, whatever the system
-- answers.
pub serial_poll-unix_poll :
    (select : List ℕ → ℕ → Ready) (calls : Calls) (sink : PosixSink) (bus : Bus)
    → All (λ s. s.listen ≡ false) bus.sinkfds
    → serial_poll select calls sink bus ≡ unix_poll select calls sink bus
unfolding serial_poll unix_poll
serial_poll-unix_poll select calls sink bus h = by_answer (select sink.fds sink.nfds) refl
  where
    by_answer :
        (r : Ready)
        → select sink.fds sink.nfds ≡ r
        → serial_poll select calls sink bus ≡ unix_poll select calls sink bus
    by_answer interrupted e = rw (e, serial_poll, unix_poll) refl
    by_answer broken e = rw (e, serial_poll, unix_poll) refl
    by_answer (ready nr isset) e =
        rw (e, serial_poll, unix_poll)
          (ap (λ r. r >>= λ (k, b). ok (success, k, b))
            (serial_members-poll_members calls isset sink.members nr sink bus h))
