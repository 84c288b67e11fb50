-- ===== src/Bus/Parse/Examples.antt =====
-- Buffers of packets: what a client writes, read and passed on.
use extlib.Common.{ℕ, ◌≡◌, refl, true, some, [], ◌∷◌, ◌++◌, arith, ok, Outcome, Rc, success}
use extlib.Text.{codes, hex4, scan_dstid}
use extlib.Atbuf.{Atbuf}
use extlib.Atbuf.Inv.{IsValid, contents}
use extlib.Srrp.{Packet}
use extlib.Srrp.RoundTrip.{IsMessage, request_packet, write_request-IsReadable}
use extlib.Bus.{Bus, Station, SinkFd, empty_bus, find_sinkfd, find_station, add_station, find_dst}
use extlib.Bus.Sending.{Reachable}
use extlib.Bus.Requests.{note_source}
use extlib.Bus.Requests.Ways.{forwarded}
use extlib.Bus.Parse.{request_of, parse_packet, emptied}
use extlib.Bus.Parse.Ends.{HasEnded, parse_packet-HasEnded}
use extlib.Bus.Parse.Kinds.{new_request}
use extlib.Bus.Parse.Accept.{parse_packet-Queues}
use extlib.Bus.Poll.{poll_each, apibus_poll}
use extlib.Bus.Poll.Request.{HoldsRequest, apibus_poll-passes}

-- what asks station 2 for "a", behind the first bytes "/" and "{"
asked-IsMessage : IsMessage (codes "2/a") (codes "}")
asked-IsMessage = record {
  header_no_nul = (refl, (refl, (refl, tt)));
  data_no_nul = (refl, tt);
  no_question = (refl, (refl, (refl, tt)));
  header_short = omega arith;
}

abbrev asked : Packet
asked = request_packet 1 (codes "2/a") (codes "}")

abbrev asked_buffer : Atbuf
asked_buffer = record {
  rawbuf = asked.raw ++ (0 ∷ 0 ∷ []);
  size = 25;
  offset_in = 23;
  offset_out = 0;
}

asked_buffer-IsValid : IsValid asked_buffer
unfolding hex4
asked_buffer-IsValid = record {
  bounds = record {
    block = refl;
    in_inside = omega arith;
    out_before = omega arith;
    small = omega arith;
  };
  terminated = refl;
}

abbrev sinkfd : ℕ → Atbuf → SinkFd
sinkfd fd buf = record {
  fd = fd;
  listen = true;
  rxbuf = buf;
  ts_poll_recv = (0, 0);
  can_send = true;
}

abbrev no_bytes : Atbuf
no_bytes = record { rawbuf = 0 ∷ []; size = 1; offset_in = 0; offset_out = 0 }

abbrev server : Station
server = record { sttid = 2; ts_alive = 5; fd = 4 }

abbrev asked_bus : Bus
asked_bus = record empty_bus {
  sinkfds = sinkfd 4 no_bytes ∷ sinkfd 3 asked_buffer ∷ [];
  stations = server ∷ [];
}

asked_contents : contents asked_buffer ≡ asked.raw
unfolding hex4
asked_contents = refl

asked_bus-HoldsRequest :
    HoldsRequest asked_bus (sinkfd 4 no_bytes ∷ []) (sinkfd 3 asked_buffer) [] asked
asked_bus-HoldsRequest =
    let w =
      write_request-IsReadable 1 (codes "2/a") (codes "}") asked-IsMessage (omega arith)
        (omega arith) in
    record {
      no_requests = refl;
      no_responses = refl;
      no_topic_msgs = refl;
      packet = record {
        descriptors = refl;
        before_drained = (refl, tt);
        behind_drained = tt;
        valid = asked_buffer-IsValid;
        holds = asked_contents;
        readable = w.1;
      };
      request = w.2;
    }

server_reached : Reachable asked_bus.sinkfds 4
unfolding find_sinkfd
server_reached = (sinkfd 4 no_bytes, refl, refl)

server_known :
    find_dst (note_source 10 (request_of 10 3 asked) asked_bus) asked.header ≡ some server
unfolding scan_dstid note_source find_station add_station
server_known = refl

-- the one sink of the bus, which keeps a number and has nothing new
abbrev quiet : ℕ → Bus → Outcome (Rc × ℕ × Bus)
quiet k b = ok (success, k, b)

quiet_once : poll_each quiet (7 ∷ []) asked_bus ≡ ok (7 ∷ [], asked_bus)
unfolding poll_each
quiet_once = refl

apibus_poll-passes_example :
    (buf : Atbuf) × (c : Bus) × (apibus_poll quiet (10, 0) 10 (7 ∷ []) asked_bus ≡ ok (7 ∷ [], c))
    × (c.requests ≡ forwarded 10 (request_of 10 3 asked) ∷ [])
    × (c.responses ≡ [])
    × (c.topic_msgs ≡ [])
    × (c.sinkfds ≡ sinkfd 4 no_bytes ∷ sinkfd 3 buf ∷ [])
    × (contents buf ≡ [])
    × IsValid buf
    × (c.sent ≡ (4, asked.raw) ∷ [])
apibus_poll-passes_example =
    apibus_poll-passes quiet (10, 0) 10 (7 ∷ []) (7 ∷ []) asked_bus asked_bus
      (sinkfd 4 no_bytes ∷ []) (sinkfd 3 asked_buffer) [] asked server quiet_once
      asked_bus-HoldsRequest server_known server_reached

parse_packet-HasEnded_example : HasEnded (parse_packet 10 (sinkfd 3 asked_buffer) asked_bus)
parse_packet-HasEnded_example =
    parse_packet-HasEnded 10 (sinkfd 3 asked_buffer) asked_bus asked_buffer-IsValid

parse_packet-Queues_example :
    (b : Atbuf) × (parse_packet 10 (sinkfd 3 asked_buffer) asked_bus
      ≡ ok (emptied, sinkfd 3 b, record asked_bus { requests = new_request 10 3 asked ∷ [] }))
    × IsValid b
    × (contents b ≡ [])
unfolding hex4
parse_packet-Queues_example =
    let w =
      write_request-IsReadable 1 (codes "2/a") (codes "}") asked-IsMessage (omega arith)
        (omega arith) in
    parse_packet-Queues 10 (sinkfd 3 asked_buffer) asked_bus (asked ∷ []) asked_buffer-IsValid refl
      (w.1, tt)
