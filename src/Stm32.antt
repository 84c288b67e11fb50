-- ===== src/Stm32.antt =====
-- src/apix-stm32.c: the serial lines of a board. What the board's calls answer are arguments. The
-- state is `sinkfds` of the sink, as descriptors, and the bus.
pub mod Uncounted
mod Examples
use extlib.Common.{
  ℕ, Bool, true, false, Option, none, some, List, [], ◌∷◌, if◌then◌else◌, take, Outcome, ok, fault,
  ◌>>=◌, Rc, success, failure, Bytes,
}
use extlib.Atbuf.{Atbuf, spare}
use extlib.Bus.{Bus, SinkFd, find_sinkfd}
use extlib.Posix.{contains, sinkfd_new, remove_member, remove_sinkfd, update_sinkfd, receive}

-- `serial_open`; `opened` is the descriptor, if there is one.
pub serial_open : Option ℕ → List ℕ → Bus → Outcome (Option ℕ × List ℕ × Bus)
serial_open none members bus = ok (none, members, bus)
serial_open (some fd) members bus = do
  s ← sinkfd_new fd false
  ok (some fd, fd ∷ members, record bus { sinkfds = s ∷ bus.sinkfds })

-- `serial_close`
pub serial_close : ℕ → List ℕ → Bus → Rc × List ℕ × Bus
serial_close fd members bus =
    if contains members fd
    then (success, remove_member fd members, record bus { sinkfds = remove_sinkfd fd bus.sinkfds })
    else (failure, members, bus)

-- the descriptor with what was read; the time of that is not noted
abbrev pub with_bytes : SinkFd → Atbuf → Bus → Bus
with_bytes s buf bus = record bus { sinkfds = update_sinkfd (record s { rxbuf = buf }) bus.sinkfds }

-- A round of `serial_poll`. `read` gets the descriptor and the room, and gives `none` for -1.
poll_line : (ℕ → ℕ → Option Bytes) → ℕ → Bus → Outcome Bus
poll_line read fd bus = elim (find_sinkfd bus.sinkfds fd) [
  | none ↦ fault
  | some s ↦ elim (read fd (spare s.rxbuf)) [
    | none ↦ ok bus
    | some [] ↦ ok bus
    | some (c ∷ cs) ↦ do
      buf ← receive s.rxbuf (take (spare s.rxbuf) (c ∷ cs))
      ok (with_bytes s buf bus)
  ]
]

pub serial_poll : (ℕ → ℕ → Option Bytes) → List ℕ → Bus → Outcome (Rc × Bus)
unfolding poll_line
serial_poll read [] bus = ok (success, bus)
serial_poll read (fd ∷ fds) bus = do b ← poll_line read fd bus; serial_poll read fds b
