-- ===== src/Posix/Disable/Examples.antt =====
-- A bus with a sink of a board, descriptor 8, and connections 4 and 3.
use extlib.Common.{ℕ, ◌≡◌, refl, true, false, [], ◌∷◌, ok}
use extlib.Text.{codes, same_text}
use extlib.Atbuf.{Atbuf}
use extlib.Bus.{Bus, SinkFd, empty_bus}
use extlib.Bus.Sinks.{Sink, find_sink}
use extlib.Posix.{PosixSink, contains}
use extlib.Posix.Open.{enable_posix}
use extlib.Posix.Ops.{Run, unix_ops, tcp_ops, serial_ops}
use extlib.Posix.Disable.{added, lacking, disable_posix, disable_posix-enable_posix}

abbrev board : Sink Run
board = record { address = 7; name = codes "board"; ops = serial_ops; attached = true }

abbrev no_bytes : Atbuf
no_bytes = record { rawbuf = 0 ∷ []; size = 1; offset_in = 0; offset_out = 0 }

abbrev descriptor : ℕ → SinkFd
descriptor fd = record {
  fd = fd;
  listen = false;
  rxbuf = no_bytes;
  ts_poll_recv = (0, 0);
  can_send = true;
}

abbrev bus : Bus
bus = record empty_bus { sinkfds = descriptor 4 ∷ descriptor 8 ∷ descriptor 3 ∷ [] }

abbrev sockets : PosixSink
sockets = record { members = 4 ∷ 3 ∷ []; fds = 4 ∷ 3 ∷ []; nfds = 5 }

abbrev no_members : PosixSink
no_members = record { members = []; fds = []; nfds = 0 }

-- The board keeps its descriptor.
left_to_board : lacking [] (lacking [] (lacking (4 ∷ 3 ∷ []) bus.sinkfds)) ≡ descriptor 8 ∷ []
unfolding lacking contains
left_to_board = refl

disable_posix-enable_posix_example :
    let k = added true sockets no_members no_members in
    let ss = k.serial.sink ∷ k.tcp.sink ∷ k.unix.sink ∷ board ∷ [] in
    (enable_posix unix_ops tcp_ops serial_ops (board ∷ []) ≡ ok ss)
    × (disable_posix k ss bus ≡ (
      added false (record sockets { members = [] }) no_members no_members,
      board ∷ [],
      record bus { sinkfds = lacking [] (lacking [] (lacking (4 ∷ 3 ∷ []) bus.sinkfds)) },
    ))
unfolding find_sink same_text
disable_posix-enable_posix_example =
    disable_posix-enable_posix (board ∷ []) bus sockets no_members no_members refl refl refl
      ((refl, (refl, tt)), ((refl, tt), (tt, tt)))
