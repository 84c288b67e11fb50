-- ===== src/Posix/Server/Examples.antt =====
-- A client on descriptor 3 and station 2 on descriptor 4, both on the sink of Unix sockets.
use extlib.Common.{
  ℕ, ◌≡◌, refl, inl, inr, Bool, true, false, none, some, List, [], ◌∷◌, ◌++◌, arith, ◌==◌,
  if◌then◌else◌, ok, Bytes,
}
use extlib.Text.{codes, hex4, scan_dstid}
use extlib.Atbuf.{Atbuf}
use extlib.Atbuf.Inv.{IsValid}
use extlib.Srrp.{Packet}
use extlib.Srrp.RoundTrip.Response.{response_packet}
use extlib.Srrp.Write.{write_request, write_response}
use extlib.Bus.{Bus, SinkFd, Station, empty_bus, find_sinkfd, find_station, add_station, find_dst}
use extlib.Bus.Sinks.{Ops}
use extlib.Bus.Requests.{note_source}
use extlib.Bus.Parse.{request_of}
use extlib.Bus.Poll.{apibus_poll}
use extlib.Posix.{PosixSink, ready}
use extlib.Posix.Ops.{System, Run, LiveSink, poll_sink, unix_ops, tcp_ops, serial_ops}
use extlib.Posix.Settings.{blank, param_of}
use extlib.Posix.Server.{Brings, IsIdle}
use extlib.Posix.Server.Circle.{Holds}
use extlib.Posix.Server.Serves.{Talk, Exchange, asks, replies, request_crc, apibus_poll-serves}

abbrev tail : Bytes → Bytes
tail [] = []
tail (x ∷ xs) = xs

-- 64 bytes, none of them used
abbrev zeros : Bytes
zeros =
    let eight = 0 ∷ 0 ∷ 0 ∷ 0 ∷ 0 ∷ 0 ∷ 0 ∷ 0 ∷ [] in
    let more = eight ++ (eight ++ (eight ++ eight)) in more ++ more

abbrev unused : Atbuf
unused = record { rawbuf = zeros; size = 64; offset_in = 0; offset_out = 0 }

unused-IsValid : IsValid unused
unused-IsValid = record {
  bounds = record {
    block = refl;
    in_inside = omega arith;
    out_before = omega arith;
    small = omega arith;
  };
  terminated = refl;
}

abbrev connection : ℕ → SinkFd
connection fd = record {
  fd = fd;
  listen = false;
  rxbuf = unused;
  ts_poll_recv = (0, 0);
  can_send = true;
}

abbrev station : Station
station = record { sttid = 2; ts_alive = 5; fd = 4 }

abbrev bus : Bus
bus = record empty_bus { sinkfds = connection 4 ∷ connection 3 ∷ []; stations = station ∷ [] }

abbrev live_sink : ℕ → Bytes → Ops Run → PosixSink → LiveSink
live_sink address name ops posix = record {
  sink = record { address = address; name = name; ops = ops; attached = true };
  posix = posix;
}

abbrev no_members : PosixSink
no_members = record { members = []; fds = []; nfds = 0 }

abbrev sockets : PosixSink
sockets = record { members = 4 ∷ 3 ∷ []; fds = 4 ∷ 3 ∷ []; nfds = 5 }

abbrev serial_sink : LiveSink
serial_sink = live_sink 2 (codes "apisink_serial") serial_ops no_members

abbrev tcp_sink : LiveSink
tcp_sink = live_sink 1 (codes "apisink_tcp") tcp_ops no_members

abbrev unix_sink : LiveSink
unix_sink = live_sink 0 (codes "apisink_unix") unix_ops sockets

abbrev lives : List LiveSink
lives = serial_sink ∷ tcp_sink ∷ unix_sink ∷ []

abbrev none_set : ℕ → Bool
none_set fd = false

-- `fd` alone is ready, with `bytes`
abbrev system : ℕ → Bytes → System
system ready_fd bytes = record {
  unix_socket = record { socket = none; bind = λ fd addr. false; listen = λ fd. false };
  tcp_socket = record { socket = none; bind = λ fd addr. false; listen = λ fd. false };
  opens = λ addr. none;
  select = λ fds nfds. if nfds == 0 then ready 0 none_set else ready 1 (λ fd. fd == ready_fd);
  calls = record { accept = λ fd. none; recv = λ fd size. some bytes; now = (7, 0) };
  send = λ fd buf. none;
  recv = λ fd size. none;
  has_termios = none_set;
  tcsetattr = λ fd t. false;
  param_at = λ arg. param_of blank;
}

abbrev header : Bytes
header = codes "2/a"

abbrev text : Bytes
text = codes "}"

abbrev answer : Bytes
answer = codes "b}"

abbrev request_bytes : Bytes
request_bytes = (asks 1 header text).raw

abbrev answer_bytes : Bytes
answer_bytes = (replies 1 header text answer).raw

serial_sink-IsIdle : (fd : ℕ) (bytes : Bytes) → IsIdle (system fd bytes) serial_sink
serial_sink-IsIdle fd bytes = record { kind = inr refl; isset = none_set; none_ready = refl }

tcp_sink-IsIdle : (fd : ℕ) (bytes : Bytes) → IsIdle (system fd bytes) tcp_sink
tcp_sink-IsIdle fd bytes = record { kind = inl (inr refl); isset = none_set; none_ready = refl }

request-Brings : Brings (system 3 request_bytes) lives bus (connection 3) request_bytes
unfolding find_sinkfd hex4
request-Brings = record {
  before = serial_sink ∷ tcp_sink ∷ [];
  live = unix_sink;
  behind = [];
  split = refl;
  idle_before = (serial_sink-IsIdle 3 request_bytes, (tcp_sink-IsIdle 3 request_bytes, tt));
  idle_behind = tt;
  socket = inl refl;
  isset = λ fd. fd == 3;
  xs = 4 ∷ [];
  ys = [];
  first = b'>';
  rest = tail request_bytes;
  whole = refl;
  one_ready = record {
    answers = refl;
    members = refl;
    others = (refl, tt);
    this = refl;
    found = refl;
    plain = refl;
    got = refl;
    asked = omega arith;
    valid = unused-IsValid;
  };
  room = omega arith;
}

answer-Brings : Brings (system 4 answer_bytes) lives bus (connection 4) answer_bytes
unfolding find_sinkfd hex4 response_packet
answer-Brings = record {
  before = serial_sink ∷ tcp_sink ∷ [];
  live = unix_sink;
  behind = [];
  split = refl;
  idle_before = (serial_sink-IsIdle 4 answer_bytes, (tcp_sink-IsIdle 4 answer_bytes, tt));
  idle_behind = tt;
  socket = inl refl;
  isset = λ fd. fd == 4;
  xs = [];
  ys = 3 ∷ [];
  first = b'<';
  rest = tail answer_bytes;
  whole = refl;
  one_ready = record {
    answers = refl;
    members = refl;
    others = tt;
    this = refl;
    found = refl;
    plain = refl;
    got = refl;
    asked = omega arith;
    valid = unused-IsValid;
  };
  room = omega arith;
}

example-Talk : Talk 1 header text answer
example-Talk = record {
  source_fits = omega arith;
  asked = record {
    header_no_nul = (refl, (refl, (refl, tt)));
    data_no_nul = (refl, tt);
    no_question = (refl, (refl, (refl, tt)));
    header_short = omega arith;
  };
  answered = record {
    header_no_nul = (refl, (refl, (refl, tt)));
    data_no_nul = (refl, (refl, tt));
    no_question = (refl, (refl, (refl, tt)));
    header_short = omega arith;
  };
  asked_fits = omega arith;
  answered_fits = omega arith;
  header_bytes = (omega arith, (omega arith, (omega arith, tt)));
  text_bytes = (omega arith, tt);
}

example-Exchange :
    Exchange
      (system 3 request_bytes)
      (system 4 answer_bytes)
      lives
      bus
      (connection 3)
      (connection 4)
      (asks 1 header text)
      (replies 1 header text answer)
unfolding find_sinkfd
example-Exchange = record {
  at_rest = record {
    pending = refl;
    no_responses = refl;
    no_topic_msgs = refl;
    drained = (refl, (refl, tt));
  };
  request_arrives = request-Brings;
  reply_arrives = answer-Brings;
  two_sockets = refl;
  to_client = (connection 3, refl, refl);
  to_server = (connection 4, refl, refl);
}

station_known :
    find_dst (note_source 10 (request_of 10 3 (asks 1 header text)) bus) (b'/' ∷ header)
    ≡ some station
unfolding scan_dstid note_source find_station add_station
station_known = refl

apibus_poll-serves_example :
    (req : Packet) × (resp : Packet) × (c : Bus) × (d : Bus) × (write_request 1
        (b'/' ∷ header)
        (b'{' ∷ text)
      ≡ ok req)
    × (write_response 1 (request_crc header text) (b'/' ∷ header) (b'{' ∷ answer) ≡ ok resp)
    × (apibus_poll (poll_sink (system 3 request_bytes)) (6, 0) 10 lives bus ≡ ok (lives, c))
    × (apibus_poll (poll_sink (system 4 answer_bytes)) (6, 5) 12 lives c ≡ ok (lives, d))
    × Holds d []
    × (d.sent ≡ (4, req.raw) ∷ (3, resp.raw) ∷ [])
apibus_poll-serves_example =
    apibus_poll-serves (system 3 request_bytes) (system 4 answer_bytes) (6, 0) (6, 5) 10 12 lives
      bus (connection 3) (connection 4) station 1 header text answer example-Talk example-Exchange
      station_known refl (omega arith)
