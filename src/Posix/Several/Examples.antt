-- ===== src/Posix/Several/Examples.antt =====
-- Connections 9 and 4 have bytes, and 6 has none.
use extlib.Common.{
  ℕ, ◌≡◌, refl, true, false, Bool, ◌||◌, none, some, List, [], ◌∷◌, arith, ◌==◌, if◌then◌else◌, ok,
  success, Bytes,
}
use extlib.Atbuf.{Atbuf}
use extlib.Atbuf.Inv.{IsValid}
use extlib.Bus.{Bus, SinkFd, empty_bus, find_sinkfd}
use extlib.Posix.{PosixSink, Calls, Ready, ready, contains, unix_poll}
use extlib.Posix.Several.{HasBytes, AllHaveBytes, Delivered, unix_poll-Delivered}

abbrev buffer : Atbuf
buffer = record { rawbuf = 1 ∷ 0 ∷ 0 ∷ 0 ∷ []; size = 4; offset_in = 1; offset_out = 0 }

buffer-IsValid : IsValid buffer
buffer-IsValid = record {
  bounds = record {
    block = refl;
    in_inside = omega arith;
    out_before = omega arith;
    small = omega arith;
  };
  terminated = refl;
}

abbrev connection : ℕ → SinkFd
connection fd = record {
  fd = fd;
  listen = false;
  rxbuf = buffer;
  ts_poll_recv = (0, 0);
  can_send = true;
}

abbrev sink : PosixSink
sink = record { members = 9 ∷ 6 ∷ 4 ∷ []; fds = 9 ∷ 6 ∷ 4 ∷ []; nfds = 10 }

abbrev bus : Bus
bus = record empty_bus { sinkfds = connection 9 ∷ connection 6 ∷ connection 4 ∷ [] }

abbrev isset : ℕ → Bool
isset fd = (fd == 9) || (fd == 4)

abbrev bytes : ℕ → Bytes
bytes fd = if fd == 9 then 5 ∷ [] else 6 ∷ 7 ∷ []

abbrev calls : Calls
calls = record { accept = λ fd. none; recv = λ fd size. some (bytes fd); now = (7, 0) }

abbrev selects : List ℕ → ℕ → Ready
selects fds nfds = ready 2 isset

nine-HasBytes : HasBytes calls isset bytes (connection 9)
nine-HasBytes = record {
  plain = refl;
  valid = buffer-IsValid;
  first = 5;
  rest = [];
  some_bytes = refl;
  got = refl;
  room = omega arith;
}

four-HasBytes : HasBytes calls isset bytes (connection 4)
four-HasBytes = record {
  plain = refl;
  valid = buffer-IsValid;
  first = 6;
  rest = 7 ∷ [];
  some_bytes = refl;
  got = refl;
  room = omega arith;
}

members-AllHaveBytes : AllHaveBytes calls isset bytes sink.members bus.sinkfds
unfolding find_sinkfd
members-AllHaveBytes = (
  λ set. (connection 9, refl, nine-HasBytes),
  (λ set. absurd (cc), (λ set. (connection 4, refl, four-HasBytes), tt)),
)

unix_poll-Delivered_example :
    (b : Bus) × (unix_poll selects calls sink bus ≡ ok (success, sink, b))
    × Delivered calls isset bytes (9 ∷ 6 ∷ 4 ∷ []) bus.sinkfds b.sinkfds
unfolding contains
unix_poll-Delivered_example =
    unix_poll-Delivered calls isset bytes selects sink bus refl (refl, (refl, (refl, tt)))
      members-AllHaveBytes
