-- ===== src/Posix/Examples.antt =====
-- A listening descriptor 3, and a connection 9 with bytes to read.
use extlib.Common.{
  ℕ, ◌≤◌, ◌≡◌, refl, inl, true, false, none, some, List, [], ◌∷◌, arith, ◌==◌, ok, abort, fault,
  success, In, Bytes,
}
use extlib.Text.{codes}
use extlib.Atbuf.{Atbuf}
use extlib.Atbuf.Inv.{IsValid}
use extlib.Bus.{Bus, SinkFd, empty_bus, find_sinkfd}
use extlib.Posix.{PosixSink, Calls, Ready, ready, contains, remove_sinkfd, open_sink, unix_poll}
use extlib.Posix.Open.{tcp_open}
use extlib.Posix.Settings.{SerialParam, Termios, serial_settings}
use extlib.Posix.Serial.{serial_poll, serial_poll-unix_poll}
use extlib.Srrp.Next.{find_char}
use extlib.Posix.Receive.{OneReady, unix_poll-abort}
use extlib.Posix.Select.{IsWatched, unix_poll-IsWatched, open_sink-unwatched}

abbrev small_buffer : Atbuf
small_buffer = record { rawbuf = 1 ∷ 0 ∷ 0 ∷ 0 ∷ []; size = 4; offset_in = 1; offset_out = 0 }

small_buffer-IsValid : IsValid small_buffer
small_buffer-IsValid = record {
  bounds = record {
    block = refl;
    in_inside = omega arith;
    out_before = omega arith;
    small = omega arith;
  };
  terminated = refl;
}

abbrev connection : SinkFd
connection = record {
  fd = 9;
  listen = false;
  rxbuf = small_buffer;
  ts_poll_recv = (0, 0);
  can_send = true;
}

abbrev tcp_sink : PosixSink
tcp_sink = record { members = 9 ∷ 3 ∷ []; fds = 9 ∷ 3 ∷ []; nfds = 10 }

abbrev tcp_bus : Bus
tcp_bus = record empty_bus {
  sinkfds = connection ∷ record connection { fd = 3; listen = true } ∷ [];
}

-- the system's answers: only the connection is ready, with `bytes`
abbrev answers : Bytes → Calls
answers bytes = record { accept = λ fd. none; recv = λ fd size. some bytes; now = (7, 0) }

abbrev selects : List ℕ → ℕ → Ready
selects fds nfds = ready 1 (λ fd. fd == 9)

connection-OneReady :
    (b c : ℕ)
    → OneReady selects
        (answers (b ∷ c ∷ []))
        tcp_sink
        tcp_bus
        (λ fd. fd == 9)
        []
        connection
        (3 ∷ [])
        b
        (c ∷ [])
unfolding find_sinkfd
connection-OneReady b c = record {
  answers = refl;
  members = refl;
  others = tt;
  this = refl;
  found = refl;
  plain = refl;
  got = refl;
  asked = omega arith;
  valid = small_buffer-IsValid;
}

-- the buffer has room for three bytes
abbrev three_bytes : Bytes
three_bytes = 5 ∷ 6 ∷ 7 ∷ []

three-OneReady :
    OneReady selects
      (answers three_bytes)
      tcp_sink
      tcp_bus
      (λ fd. fd == 9)
      []
      connection
      (3 ∷ [])
      5
      (6 ∷ 7 ∷ [])
unfolding find_sinkfd
three-OneReady = record {
  answers = refl;
  members = refl;
  others = tt;
  this = refl;
  found = refl;
  plain = refl;
  got = refl;
  asked = omega arith;
  valid = small_buffer-IsValid;
}

unix_poll-abort_example : unix_poll selects (answers three_bytes) tcp_sink tcp_bus ≡ abort
unix_poll-abort_example =
    unix_poll-abort selects (answers three_bytes) tcp_sink tcp_bus (λ fd. fd == 9) [] connection
      (3 ∷ []) 5 (6 ∷ 7 ∷ []) three-OneReady refl

tcp_sink-IsWatched : IsWatched tcp_sink
unfolding contains
tcp_sink-IsWatched = ((omega arith, refl), ((omega arith, refl), tt))

-- the connection ends: it leaves the members, though not `fds`
abbrev hung_up : Calls
hung_up = record { accept = λ fd. none; recv = λ fd size. none; now = (7, 0) }

abbrev listening : SinkFd
listening = record connection { fd = 3; listen = true }

unix_poll-IsWatched_example : IsWatched (record tcp_sink { members = 3 ∷ [] })
unfolding unix_poll find_sinkfd remove_sinkfd
unix_poll-IsWatched_example =
    unix_poll-IsWatched selects hung_up tcp_sink tcp_bus success
      (record tcp_sink { members = 3 ∷ [] }) (record tcp_bus { sinkfds = listening ∷ [] })
      tcp_sink-IsWatched refl

open_sink-unwatched_example :
    (k : PosixSink) × (b : Bus) × (open_sink (some 5) true tcp_sink tcp_bus ≡ ok (some 5, k, b))
    × In 9 k.members
    × (k.nfds ≤ 9)
    × (IsWatched k → ⊥)
open_sink-unwatched_example =
    open_sink-unwatched 5 9 true tcp_sink tcp_bus (inl refl) (omega arith) (omega arith)

-- the connection alone, as on a serial line
abbrev serial_sink : PosixSink
serial_sink = record { members = 9 ∷ []; fds = 9 ∷ []; nfds = 10 }

abbrev serial_bus : Bus
serial_bus = record empty_bus { sinkfds = connection ∷ [] }

serial_poll-unix_poll_example :
    serial_poll selects (answers (5 ∷ 6 ∷ [])) serial_sink serial_bus
    ≡ unix_poll selects (answers (5 ∷ 6 ∷ [])) serial_sink serial_bus
serial_poll-unix_poll_example =
    serial_poll-unix_poll selects (answers (5 ∷ 6 ∷ [])) serial_sink serial_bus (refl, tt)

abbrev slow_line : SerialParam
slow_line = record { baud = 9600; bits = 7; parity = 69; stop = 2 }

abbrev slow_settings : Termios
slow_settings = record {
  speed = 9600;
  eight_bits = false;
  parenb = true;
  parodd = false;
  inpck_istrip = true;
  cstopb = true;
}

settings_of_slow_line : serial_settings slow_line ≡ some slow_settings
unfolding serial_settings
settings_of_slow_line = refl

-- an address without a colon
tcp_open_plain :
    tcp_open
      (record { socket = some 5; bind = λ fd a. true; listen = λ fd. true })
      (codes "80")
      tcp_sink
      tcp_bus
    ≡ fault
unfolding tcp_open find_char
tcp_open_plain = refl
