-- ===== src/Posix.antt =====
-- src/apix-posix.c: the sinks of Unix sockets, TCP and serial lines, on `select`. What the system's
-- calls answer are arguments. A descriptor tells one `struct sinkfd` from another.
pub mod Receive
pub mod Select
pub mod Settings
pub mod Serial
pub mod Open
pub mod Accept
pub mod Lookup
pub mod Several
pub mod Ops
pub mod Disable
pub mod Destroy
pub mod Server
mod Examples
use extlib.Common.{
  ℕ, suc, ◌+◌, ◌-◌, Bool, true, false, ◌||◌, Option, none, some, List, [], ◌∷◌, ltb, ◌==◌,
  if◌then◌else◌, length, take, copy, Outcome, ok, abort, fault, ◌>>=◌, ◌>>◌, Rc, success, failure,
  Bytes,
}
use extlib.Atbuf.{Atbuf, new, spare, write_advance}
use extlib.Bus.{Bus, SinkFd, find_sinkfd}

-- `struct posix_sink`: the descriptors of `sink.sinkfds`, newest first, and `fds` and `nfds`.
pub record PosixSink : Type 0 where
  pub members : List ℕ
  pub fds : List ℕ
  pub nfds : ℕ

-- What `select` answers: the descriptors to look at, or an error, `EINTR` or another.
pub data Ready : Type 0 where
  interrupted broken : Ready
  ready : ℕ → (ℕ → Bool) → Ready

-- The answers of `accept`, and of `recv` or `read`, where `none` stands for -1. The latter gives no
-- more bytes than it is asked for.
pub record Calls : Type 0 where
  pub accept : ℕ → Option ℕ
  pub recv : ℕ → ℕ → Option Bytes
  pub now : ℕ × ℕ

pub contains : List ℕ → ℕ → Bool
contains [] fd = false
contains (x ∷ xs) fd = (x == fd) || contains xs fd

-- `FD_SETSIZE`, the number of descriptors that an `fd_set` has bits for
abbrev pub fd_setsize : ℕ
fd_setsize = 1024

abbrev pub with_fd : List ℕ → ℕ → List ℕ
with_fd fds fd = if contains fds fd then fds else fd ∷ fds

-- `FD_SET`, which writes outside the set for a descriptor that it has no bit for
abbrev pub fd_set : List ℕ → ℕ → Outcome (List ℕ)
fd_set fds fd = if ltb fd fd_setsize then ok (with_fd fds fd) else fault

-- `sinkfd_new`, with the fields that its callers set
pub sinkfd_new : ℕ → Bool → Outcome SinkFd
sinkfd_new fd listen = elim (new true true 0) [
  | none ↦ fault
  | some buf ↦
      ok (record { fd = fd; listen = listen; rxbuf = buf; ts_poll_recv = (0, 0); can_send = true })
]

-- a new descriptor on both lists
pub join : ℕ → Bool → PosixSink → Bus → Outcome (PosixSink × Bus)
join fd listen sink bus = do
  s ← sinkfd_new fd listen
  ok (record sink { members = fd ∷ sink.members }, record bus { sinkfds = s ∷ bus.sinkfds })

-- What `unix_open`, `tcp_open` and `serial_open` do with the descriptor that the system gave.
-- `got` is that, or `none` where `socket`, `bind`, `listen` or `open` failed.
pub open_sink : Option ℕ → Bool → PosixSink → Bus → Outcome (Option ℕ × PosixSink × Bus)
unfolding join
open_sink none listen sink bus = ok (none, sink, bus)
open_sink (some fd) listen sink bus = do
  (k, b) ← join fd listen sink bus
  fds ← fd_set k.fds fd
  ok (some fd, record k { fds = fds; nfds = suc fd }, b)

pub remove_member : ℕ → List ℕ → List ℕ
remove_member fd [] = []
remove_member fd (x ∷ xs) = let rest = remove_member fd xs in if x == fd then xs else x ∷ rest

pub remove_sinkfd : ℕ → List SinkFd → List SinkFd
remove_sinkfd fd [] = []
remove_sinkfd fd (s ∷ ss) = let rest = remove_sinkfd fd ss in if s.fd == fd then ss else s ∷ rest

-- `sinkfd_destroy`
pub destroy : ℕ → PosixSink → Bus → PosixSink × Bus
unfolding remove_member
destroy fd sink bus = (
  record sink { members = remove_member fd sink.members },
  record bus { sinkfds = remove_sinkfd fd bus.sinkfds },
)

-- `unix_close`, `tcp_close` and `serial_close`
pub close_sink : ℕ → PosixSink → Bus → Rc × PosixSink × Bus
close_sink fd sink bus =
    if contains sink.members fd
    then (let (k, b) = destroy fd sink bus in (success, k, b))
    else (failure, sink, bus)

-- The bytes that the system puts at `atbuf_write_pos`, and `atbuf_write_advance`.
pub receive : Atbuf → Bytes → Outcome Atbuf
receive b bytes = do
  raw ← copy b.rawbuf b.offset_in bytes 0 (length bytes)
  (_, c) ← write_advance (record b { rawbuf = raw }) (length bytes)
  ok c

unfoldable pub update_sinkfd : SinkFd → List SinkFd → List SinkFd
update_sinkfd t [] = []
update_sinkfd t (s ∷ ss) =
    let rest = update_sinkfd t ss in if s.fd == t.fd then t ∷ ss else s ∷ rest

-- The branch of `unix_poll` on a listening descriptor.
pub accept_one : Calls → ℕ → PosixSink → Bus → Outcome (PosixSink × Bus)
unfolding join
accept_one calls fd sink bus = elim (calls.accept fd) [
  | none ↦ ok (sink, bus)
  | some new_fd ↦ do
    (k, b) ← join new_fd false sink bus
    let nfds = if ltb k.nfds (suc new_fd) then suc new_fd else k.nfds
    fds ← fd_set k.fds new_fd
    ok (record k { nfds = nfds; fds = fds }, b)
]

-- The branch on any other: an error or an end destroys it, though its descriptor stays open and in
-- `fds`.
pub recv_one : Calls → SinkFd → PosixSink → Bus → Outcome (PosixSink × Bus)
unfolding receive destroy update_sinkfd
recv_one calls s sink bus = elim (calls.recv s.fd (spare s.rxbuf)) [
  | none ↦ ok (destroy s.fd sink bus)
  | some [] ↦ ok (destroy s.fd sink bus)
  | some (c ∷ cs) ↦ do
    buf ← receive s.rxbuf (take (spare s.rxbuf) (c ∷ cs))
    ok (
      sink,
      record bus {
        sinkfds = update_sinkfd (record s { rxbuf = buf; ts_poll_recv = calls.now }) bus.sinkfds;
      },
    )
]

-- The loop of `unix_poll` over the members that it began with, and `nr` more to find. A member that
-- is on no list any more is read after it was freed.
pub poll_members : Calls → (ℕ → Bool) → List ℕ → ℕ → PosixSink → Bus → Outcome (PosixSink × Bus)
unfolding accept_one recv_one
poll_members calls isset [] nr sink bus = ok (sink, bus)
poll_members calls isset (fd ∷ fds) nr sink bus = elim (nr == 0) [
  | true ↦ ok (sink, bus)
  | false ↦ elim (isset fd) [
    | false ↦ poll_members calls isset fds nr sink bus
    | true ↦ elim (find_sinkfd bus.sinkfds fd) [
      | none ↦ fault
      | some s ↦ do
        (k, b) ← if s.listen then accept_one calls fd sink bus else recv_one calls s sink bus
        poll_members calls isset fds (nr - 1) k b
    ]
  ]
]

-- `unix_poll`; `select` is asked for the descriptors of `fds` below `nfds`. `serial_poll` is the
-- same without the listening descriptors.
pub unix_poll : (List ℕ → ℕ → Ready) → Calls → PosixSink → Bus → Outcome (Rc × PosixSink × Bus)
unfolding poll_members
unix_poll select calls sink bus = elim (select sink.fds sink.nfds) [
  | interrupted ↦ ok (success, sink, bus)
  | broken ↦ ok (failure, sink, bus)
  | ready nr isset ↦ do
    (k, b) ← poll_members calls isset sink.members nr sink bus
    ok (success, k, b)
]
