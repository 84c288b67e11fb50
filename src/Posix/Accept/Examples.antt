-- ===== src/Posix/Accept/Examples.antt =====
-- A client connects to the listening socket 3, gets descriptor 5, and sends two bytes.
use extlib.Common.{ℕ, ◌<◌, ◌≡◌, refl, true, some, List, [], ◌∷◌, arith, ◌==◌, ok, success}
use extlib.Atbuf.{Atbuf}
use extlib.Atbuf.Inv.{IsValid, contents}
use extlib.Bus.{Bus, SinkFd, empty_bus, find_sinkfd}
use extlib.Posix.{PosixSink, Calls, Ready, ready, contains, unix_poll}
use extlib.Posix.Accept.{accepted, OneConnects, OneSends, unix_poll-accepts}

abbrev no_bytes : Atbuf
no_bytes = record { rawbuf = 0 ∷ []; size = 1; offset_in = 0; offset_out = 0 }

abbrev listening : SinkFd
listening = record {
  fd = 3;
  listen = true;
  rxbuf = no_bytes;
  ts_poll_recv = (0, 0);
  can_send = true;
}

abbrev sink : PosixSink
sink = record { members = 3 ∷ []; fds = 3 ∷ []; nfds = 4 }

abbrev bus : Bus
bus = record empty_bus { sinkfds = listening ∷ [] }

-- `fd` alone is ready
abbrev selects : ℕ → List ℕ → ℕ → Ready
selects ready_fd fds nfds = ready 1 (λ fd. fd == ready_fd)

abbrev calls : Calls
calls = record { accept = λ fd. some 5; recv = λ fd size. some (7 ∷ 8 ∷ []); now = (6, 0) }

client-OneConnects : OneConnects (selects 3) calls sink bus listening 5
unfolding find_sinkfd
client-OneConnects = record {
  isset = λ fd. fd == 3;
  xs = [];
  ys = [];
  answers = refl;
  members = refl;
  others = tt;
  this = refl;
  found = refl;
  listens = refl;
  connects = refl;
}

client-OneSends : OneSends (selects 5) calls (accepted 5 sink) 5 7 (8 ∷ [])
client-OneSends = record {
  isset = λ fd. fd == 5;
  answers = refl;
  this = refl;
  gives = λ size room. refl;
}

unix_poll-accepts_example :
    let k = accepted 5 sink in
    (b : Bus) × (b' : Bus) × (client : SinkFd) × (unix_poll (selects 3) calls sink bus
      ≡ ok (success, k, b))
    × (unix_poll (selects 5) calls k b ≡ ok (success, k, b'))
    × (b'.sinkfds ≡ client ∷ listening ∷ [])
    × (client.fd ≡ 5)
    × (contents client.rxbuf ≡ 7 ∷ 8 ∷ [])
    × IsValid client.rxbuf
    × (5 < k.nfds)
    × (contains k.fds 5 ≡ true)
unix_poll-accepts_example =
    unix_poll-accepts (selects 3) (selects 5) calls calls sink bus listening 5 7 (8 ∷ [])
      client-OneConnects (omega arith) client-OneSends (omega arith)
