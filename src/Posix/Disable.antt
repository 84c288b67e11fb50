-- ===== src/Posix/Disable.antt =====
-- `apibus_disable_posix` of src/apix-posix.c, with `apisink_fini` and `apibus_del_sink` of src/apix.c.
mod Examples
use mathlib.Core.Path.{subst}
use extlib.Common.{
  ℕ, ◌≡◌, refl, sym, ap, ◌∙◌, Bool, true, false, inl, inr, Option, none, List, [], ◌∷◌, ◌++◌, ◌==◌,
  if◌then◌else◌, arith, All, Bool-cases, Outcome, ok, Bytes,
}
use extlib.Text.{codes}
use extlib.Bus.{Bus, SinkFd, find_sinkfd}
use extlib.Bus.Sinks.{Ops, Sink, find_sink, del_sink}
use extlib.Posix.{PosixSink, contains, remove_member, remove_sinkfd, destroy}
use extlib.Posix.Open.{enable_posix, enable_posix-adds}
use extlib.Posix.Ops.{Run, LiveSink, unix_ops, tcp_ops, serial_ops}

-- the loop of `apisink_fini` over the descriptors of the sink
destroy_each : List ℕ → PosixSink → Bus → PosixSink × Bus
destroy_each [] sink bus = (sink, bus)
destroy_each (fd ∷ fds) sink bus = let (k, b) = destroy fd sink bus in destroy_each fds k b

-- `apibus_del_sink`: the sink and the list of the bus as they are left
detach : LiveSink → List (Sink Run) → LiveSink × List (Sink Run)
detach live sinks =
    (record live { sink = record live.sink { attached = false } }, del_sink live.sink sinks)

apisink_fini : LiveSink → List (Sink Run) → Bus → LiveSink × List (Sink Run) × Bus
unfolding destroy_each detach
apisink_fini live sinks bus =
    let (k, b) = destroy_each live.posix.members live.posix bus in
    let left = record live { posix = k } in
    if live.sink.attached
    then (let (off, ss) = detach left sinks in (off, ss, b))
    else (left, sinks, b)

-- one of the three pairs of calls
pub disable_one : LiveSink → List (Sink Run) → Bus → LiveSink × List (Sink Run) × Bus
unfolding detach apisink_fini
disable_one live sinks bus = let (off, ss) = detach live sinks in apisink_fini off ss bus

-- `__unix_sink`, `__tcp_sink` and `__serial_sink`
pub record PosixSinks : Type 0 where
  pub unix : LiveSink
  pub tcp : LiveSink
  pub serial : LiveSink

pub disable_posix : PosixSinks → List (Sink Run) → Bus → PosixSinks × List (Sink Run) × Bus
disable_posix k sinks bus =
    let (unix, ss, b) = disable_one k.unix sinks bus in
    let (tcp, ss', b') = disable_one k.tcp ss b in
    let (serial, ss'', b'') = disable_one k.serial ss' b' in
    (record { unix = unix; tcp = tcp; serial = serial }, ss'', b'')

-- No two descriptors of the bus have one number.
abbrev pub DistinctFds : List SinkFd → Type 0
DistinctFds [] = Unit
DistinctFds (s ∷ ss) = All (λ x. (x.fd == s.fd) ≡ false) ss × DistinctFds ss

-- the descriptors that are none of `fds`, in their order
unfoldable pub lacking : List ℕ → List SinkFd → List SinkFd
lacking fds [] = []
lacking fds (s ∷ ss) = let rest = lacking fds ss in if contains fds s.fd then rest else s ∷ rest

lacking-nil : (ss : List SinkFd) → lacking [] ss ≡ ss
unfolding lacking contains
lacking-nil [] = refl
lacking-nil (s ∷ ss) = ground (arith, lacking-nil ss)

lacking-absent :
    (fd : ℕ) (fds : List ℕ) (ss : List SinkFd)
    → All (λ x. (x.fd == fd) ≡ false) ss
    → lacking (fd ∷ fds) ss ≡ lacking fds ss
unfolding lacking contains
lacking-absent fd fds [] h = refl
lacking-absent fd fds (s ∷ ss) (e, h) = ground (arith, lacking-absent fd fds ss h)

lacking-remove_sinkfd :
    (fd : ℕ) (fds : List ℕ) (ss : List SinkFd)
    → DistinctFds ss
    → lacking fds (remove_sinkfd fd ss) ≡ lacking (fd ∷ fds) ss
unfolding lacking remove_sinkfd contains
lacking-remove_sinkfd fd fds [] d = refl
lacking-remove_sinkfd fd fds (s ∷ ss) (out, d) = elim (Bool-cases (s.fd == fd)) [
  | inl e ↦
      let same : s.fd ≡ fd = ground (arith, e) in
      let there =
        lacking-absent fd fds ss (subst (λ f. All (λ x. (x.fd == f) ≡ false) ss) same out) in
      ground arith
  | inr e ↦ ground (arith, lacking-remove_sinkfd fd fds ss d)
]

remove_sinkfd-All :
    (P : SinkFd → Type 0) (fd : ℕ) (ss : List SinkFd) → All P ss → All P (remove_sinkfd fd ss)
unfolding remove_sinkfd
remove_sinkfd-All P fd [] h = h
remove_sinkfd-All P fd (s ∷ ss) (p, h) = elim (Bool-cases (s.fd == fd)) [
  | inl e ↦ rw e h
  | inr e ↦ rw e (p, remove_sinkfd-All P fd ss h)
]

remove_sinkfd-DistinctFds :
    (fd : ℕ) (ss : List SinkFd) → DistinctFds ss → DistinctFds (remove_sinkfd fd ss)
unfolding remove_sinkfd
remove_sinkfd-DistinctFds fd [] d = d
remove_sinkfd-DistinctFds fd (s ∷ ss) (out, d) = elim (Bool-cases (s.fd == fd)) [
  | inl e ↦ rw e d
  | inr e ↦
      rw e (
        remove_sinkfd-All (λ x. (x.fd == s.fd) ≡ false) fd ss out,
        remove_sinkfd-DistinctFds fd ss d,
      )
]

-- Destroying all members leaves none, and the other descriptors of the bus.
destroy_each-lacking :
    (fds : List ℕ) (sink : PosixSink) (bus : Bus)
    → sink.members ≡ fds
    → DistinctFds bus.sinkfds
    → (destroy_each fds sink bus
        ≡ (record sink { members = [] }, record bus { sinkfds = lacking fds bus.sinkfds }))
      × DistinctFds (lacking fds bus.sinkfds)
unfolding destroy_each destroy remove_member
destroy_each-lacking [] sink bus e d =
    let all = sym (lacking-nil bus.sinkfds) in
    (λ i. (record sink { members = e i }, record bus { sinkfds = all i }), subst DistinctFds all d)
destroy_each-lacking (fd ∷ fds) sink bus e d =
    let ss = remove_sinkfd fd bus.sinkfds in
    let next : remove_member fd sink.members ≡ fds = ground (arith, e) in
    let (f, k) =
      destroy_each-lacking fds (record sink { members = remove_member fd sink.members })
        (record bus { sinkfds = ss }) next (remove_sinkfd-DistinctFds fd bus.sinkfds d) in
    let l = lacking-remove_sinkfd fd fds bus.sinkfds d in
    (
      f ∙ ap (λ ss. (record sink { members = [] }, record bus { sinkfds = ss })) l,
      subst DistinctFds l k,
    )

pub disable_one-lacking :
    (live : LiveSink) (sinks : List (Sink Run)) (bus : Bus)
    → DistinctFds bus.sinkfds
    → (disable_one live sinks bus ≡ (
      record {
        sink = record live.sink { attached = false };
        posix = record live.posix { members = [] };
      },
      del_sink live.sink sinks,
      record bus { sinkfds = lacking live.posix.members bus.sinkfds },
    ))
      × DistinctFds (lacking live.posix.members bus.sinkfds)
unfolding disable_one apisink_fini detach
disable_one-lacking live sinks bus d =
    let (e, k) = destroy_each-lacking live.posix.members live.posix bus refl d in (rw e refl, k)

-- the sinks of the file as they are added to a bus
abbrev pub added : Bool → PosixSink → PosixSink → PosixSink → PosixSinks
added attached unix tcp serial = record {
  unix = record {
    sink = record { address = 0; name = codes "apisink_unix"; ops = unix_ops; attached = attached };
    posix = unix;
  };
  tcp = record {
    sink = record { address = 1; name = codes "apisink_tcp"; ops = tcp_ops; attached = attached };
    posix = tcp;
  };
  serial = record {
    sink = record {
      address = 2;
      name = codes "apisink_serial";
      ops = serial_ops;
      attached = attached;
    };
    posix = serial;
  };
}

abbrev without_members : PosixSink → PosixSink
without_members k = record k { members = [] }

-- `apibus_enable_posix` adds the three sinks in front of those with other names, and
-- `apibus_disable_posix` takes them off again, with all descriptors that they have by then and no
-- others, on a bus where no two descriptors have one number. What `select` is asked about stays as
-- it is: a sink that is enabled again goes on asking about descriptors that it does not have.
pub disable_posix-enable_posix :
    (sinks : List (Sink Run)) (bus : Bus) (unix tcp serial : PosixSink)
    → find_sink (codes "apisink_unix") sinks ≡ none
    → find_sink (codes "apisink_tcp") sinks ≡ none
    → find_sink (codes "apisink_serial") sinks ≡ none
    → DistinctFds bus.sinkfds
    → let k = added true unix tcp serial in
      let ss = k.serial.sink ∷ k.tcp.sink ∷ k.unix.sink ∷ sinks in
      (enable_posix unix_ops tcp_ops serial_ops sinks ≡ ok ss)
      × (disable_posix k ss bus ≡ (
        added false (without_members unix) (without_members tcp) (without_members serial),
        sinks,
        record bus {
          sinkfds = lacking serial.members (lacking tcp.members (lacking unix.members bus.sinkfds));
        },
      ))
unfolding disable_posix del_sink
disable_posix-enable_posix sinks bus unix tcp serial u t s d =
    let k = added true unix tcp serial in
    let (e, d') =
      disable_one-lacking k.unix (k.serial.sink ∷ k.tcp.sink ∷ k.unix.sink ∷ sinks) bus d in
    let b = record bus { sinkfds = lacking unix.members bus.sinkfds } in
    let (f, d'') = disable_one-lacking k.tcp (k.serial.sink ∷ k.tcp.sink ∷ sinks) b d' in
    let b' = record b { sinkfds = lacking tcp.members b.sinkfds } in
    let (g, d''') = disable_one-lacking k.serial (k.serial.sink ∷ sinks) b' d'' in
    (enable_posix-adds unix_ops tcp_ops serial_ops sinks u t s, rw (e, f, g) refl)
