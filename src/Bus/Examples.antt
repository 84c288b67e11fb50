-- ===== src/Bus/Examples.antt =====
-- Concrete buses: two stations, a client that asks a server, and subscribers.
use extlib.Common.{
  ℕ, ◌+◌, ◌≤◌, ◌≡◌, refl, true, false, inl, inr, some, List, [], ◌∷◌, All, length, ok, fault, Bytes,
}
use extlib.Text.{codes, scan_dstid, starts}
use extlib.Atbuf.{Atbuf}
use extlib.Srrp.{Packet, request_leader, response_leader, subscribe_leader, publish_leader}
use extlib.Bus.{
  Bus, Request, Response, fresh, waiting, Station, TopicMsg, SinkFd, empty_bus, find_sinkfd,
  find_station, find_dst, station_alive_timeout, add_station,
}
use extlib.Bus.Sending.{Reachable}
use extlib.Bus.Stations.{Distinct}
use extlib.Bus.Requests.{note_source, handle_request}
use extlib.Bus.Requests.Stale.{handle_request-stale}
use extlib.Bus.Requests.Ways.{forwarded}
use extlib.Bus.Requests.Laws.{Settled, handle_request-Settled}
use extlib.Bus.Responses.{handle_response}
use extlib.Bus.Responses.Laws.{Answered, handle_response-traffic}
use extlib.Bus.Responses.Deliver.{IsReply}
use extlib.Bus.Topics.{subscribe, publish, dispatch_all}
use extlib.Bus.Topics.Laws.{subscribe-publish, dispatch_all-fault}
use extlib.Bus.Poll.{handle_messages}
use extlib.Bus.Poll.Settled.{handle_messages-settled}

abbrev no_bytes : Atbuf
no_bytes = record { rawbuf = 0 ∷ []; size = 1; offset_in = 0; offset_out = 0 }

abbrev sinkfd : ℕ → SinkFd
sinkfd fd = record {
  fd = fd;
  listen = false;
  rxbuf = no_bytes;
  ts_poll_recv = (0, 0);
  can_send = true;
}

abbrev packet : ℕ → ℕ → Bytes → Packet
packet leader srcid header = record {
  leader = leader;
  seat = b'$';
  seqno = 0;
  len = 20;
  srcid = srcid;
  reqcrc16 = 17;
  header = header;
  header_len = length header;
  data_len = 2;
  data_text = codes "{}";
  raw = header;
}

-- station 1 asks station 2
abbrev question : Request
question = record {
  pac = packet request_leader 1 (codes "/2/a");
  state = fresh;
  ts_create = 9;
  ts_send = 0;
  fd = 3;
  crc16 = 17;
}

abbrev answer : Response
answer = record { pac = packet response_leader 1 (codes "/2/a"); fd = 4 }

abbrev server : Station
server = record { sttid = 2; ts_alive = 5; fd = 4 }

abbrev two_sinks : Bus
two_sinks = record empty_bus { sinkfds = sinkfd 3 ∷ sinkfd 4 ∷ []; stations = server ∷ [] }

abbrev asking : Bus
asking = record two_sinks { requests = question ∷ [] }

three_found : Reachable two_sinks.sinkfds 3
unfolding find_sinkfd
three_found = (sinkfd 3, refl, refl)

four_found : Reachable two_sinks.sinkfds 4
unfolding find_sinkfd
four_found = (sinkfd 4, refl, refl)

server_found : find_dst (note_source 10 question asking) (codes "/2/a") ≡ some server
unfolding scan_dstid note_source find_station add_station
server_found = refl

answer-IsReply : IsReply answer question
answer-IsReply = record { checksum = refl; header = refl; source = refl }

handle_request-Settled_example :
    let b = handle_request 10 asking in Settled 10 question asking b.requests b
handle_request-Settled_example = handle_request-Settled 10 asking question (inl refl) three_found

-- two questions wait for the same answer
abbrev waiting_twice : Bus
waiting_twice = record two_sinks {
  requests =
      record question { crc16 = 16; state = waiting } ∷ record question { state = waiting } ∷ [];
  responses = answer ∷ [];
}

handle_response-traffic_example :
    let b = handle_response 11 waiting_twice in
    ((out : List (ℕ × Bytes)) × Answered (answer ∷ []) waiting_twice.requests out b.requests
      × (b.sent ≡ out))
    × (length b.sent + length b.requests ≡ 2)
    × (b.responses ≡ [])
handle_response-traffic_example =
    handle_response-traffic 11 waiting_twice (three_found, (three_found, tt))

abbrev old_station : Station
old_station = record { sttid = 7; ts_alive = 5; fd = 3 }

abbrev subscription : TopicMsg
subscription = record { pac = packet subscribe_leader 0 (codes "/motor/speed"); fd = 3 }

abbrev news : TopicMsg
news = record { pac = packet publish_leader 0 (codes "/motor"); fd = 4 }

subscribe-publish_example :
    (b : Bus) × (subscribe subscription two_sinks ≡ ok b)
    × ((publish news b).sent ≡ (3, codes "Sub OK") ∷ (3, codes "/motor") ∷ [])
unfolding starts
subscribe-publish_example = subscribe-publish subscription news two_sinks refl three_found

abbrev with_topic : Bus
with_topic = record two_sinks { topics = record { header = codes "/motor"; fds = 3 ∷ 4 ∷ [] } ∷ [] }

dispatch_all-fault_example : dispatch_all (news ∷ subscription ∷ []) with_topic ≡ fault
dispatch_all-fault_example =
    dispatch_all-fault subscription (news ∷ subscription ∷ []) with_topic (inr (inl refl)) refl
      (record { header = codes "/motor"; fds = 3 ∷ 4 ∷ [] }, [], refl)

handle_messages-settled_example :
    (b : Bus) × (handle_messages 10 asking ≡ ok b)
    × All (λ r. r.state ≡ waiting) b.requests
    × (b.responses ≡ [])
    × Distinct b.stations
    × All (λ s. 10 ≤ s.ts_alive + station_alive_timeout) b.stations
unfolding find_station
handle_messages-settled_example = handle_messages-settled 10 asking (refl, tt) refl

-- The server has come back on descriptor 6, and asks station 1 something.
abbrev moved : Bus
moved = record empty_bus {
  requests = record question { pac = packet request_leader 2 (codes "/1/b"); fd = 6 } ∷ [];
  sinkfds = sinkfd 3 ∷ sinkfd 6 ∷ [];
  stations = server ∷ record { sttid = 1; ts_alive = 5; fd = 3 } ∷ [];
}

handle_request-stale_example :
    let c = handle_request 10 moved in
    let d = handle_request 11 (record c { requests = question ∷ [] }) in
    ((t : Station) × (find_station c.stations 2 ≡ some t) × (t.fd ≡ 4))
    × (d.requests ≡ forwarded 11 question ∷ [])
    × (d.sent ≡ c.sent)
unfolding find_station find_sinkfd scan_dstid
handle_request-stale_example =
    handle_request-stale 10 11 2 moved server question refl refl refl refl
