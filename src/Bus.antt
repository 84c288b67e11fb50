-- ===== src/Bus.antt =====
-- src/apix.c: the message bus. The kernel's lists are sequences, `list_add` puts an entry in front.
-- A handler returns the new bus. `time(0)` is an argument, `now`, the second in which the handler
-- runs. What `ops.send` is called with is kept in `sent`, in the order of the calls.
pub mod Sending
pub mod Stations
pub mod Requests
pub mod Responses
pub mod Topics
pub mod RoundTrip
pub mod Parse
pub mod Sinks
pub mod Poll
mod Examples
use extlib.Common.{
  ℕ, zero, suc, ◌+◌, ◌-◌, ◌<◌, Bool, true, false, ◌&&◌, Option, none, some, List, [], ◌∷◌, ◌++◌,
  ltb, leb, ◌==◌, if◌then◌else◌, length, get_or, take, overwrite, Outcome, ok, fault, ◌>>=◌, Bytes,
}
use extlib.Text.{codes, same_text, starts, scan_dstid}
use extlib.Srrp.{Packet, subscribe_leader, unsubscribe_leader}
use extlib.Atbuf.{Atbuf}

-- `API_REQUEST_ST_NONE` and `API_REQUEST_ST_WAIT_RESPONSE`
pub data State : Type 0 where
  fresh waiting : State

-- `struct api_request`
pub record Request : Type 0 where
  pub pac : Packet
  pub state : State
  pub ts_create : ℕ
  pub ts_send : ℕ
  pub fd : ℕ
  pub crc16 : ℕ

-- `struct api_response`
pub record Response : Type 0 where
  pub pac : Packet
  pub fd : ℕ

-- `struct api_station`
pub record Station : Type 0 where
  pub sttid : ℕ
  pub ts_alive : ℕ
  pub fd : ℕ

-- `struct api_topic_msg`
pub record TopicMsg : Type 0 where
  pub pac : Packet
  pub fd : ℕ

-- `struct api_topic`; `fds` are the first `nfds` entries of the array.
pub record Topic : Type 0 where
  pub header : Bytes
  pub fds : List ℕ

-- `struct sinkfd`; `can_send` says that its sink has a `send` operation.
pub record SinkFd : Type 0 where
  pub fd : ℕ
  pub listen : Bool
  pub rxbuf : Atbuf
  pub ts_poll_recv : ℕ × ℕ
  pub can_send : Bool

-- `struct apibus`
pub record Bus : Type 0 where
  pub requests : List Request
  pub responses : List Response
  pub stations : List Station
  pub topic_msgs : List TopicMsg
  pub topics : List Topic
  pub sinkfds : List SinkFd
  pub poll_cnt : ℕ
  pub idle_usec : ℕ
  pub sent : List (ℕ × Bytes)

abbrev pub empty_bus : Bus
empty_bus = record {
  requests = [];
  responses = [];
  stations = [];
  topic_msgs = [];
  topics = [];
  sinkfds = [];
  poll_cnt = 0;
  idle_usec = 0;
  sent = [];
}

-- in seconds
abbrev pub request_timeout : ℕ
request_timeout = 3

abbrev pub station_alive_timeout : ℕ
station_alive_timeout = 600

-- `find_sinkfd_in_apibus`
unfoldable pub find_sinkfd : List SinkFd → ℕ → Option SinkFd
find_sinkfd [] fd = none
find_sinkfd (s ∷ ss) fd = if s.fd == fd then some s else find_sinkfd ss fd

-- `apibus_send`; its callers here ignore the result.
pub send : Bus → ℕ → Bytes → Bus
send bus fd buf = elim (find_sinkfd bus.sinkfds fd) [
  | none ↦ bus
  | some s ↦ if s.can_send then record bus { sent = bus.sent ++ ((fd, buf) ∷ []) } else bus
]

unfoldable pub find_station : List Station → ℕ → Option Station
find_station [] sttid = none
find_station (s ∷ ss) sttid = if s.sttid == sttid then some s else find_station ss sttid

-- `find_station` and `ts_alive = now` on what it finds
pub touch : ℕ → ℕ → List Station → List Station
touch now sttid [] = []
touch now sttid (s ∷ ss) =
    if s.sttid == sttid then record s { ts_alive = now } ∷ ss else s ∷ touch now sttid ss

unfoldable pub add_station : ℕ → Request → List Station → List Station
add_station now req stations =
    record { sttid = req.pac.srcid; ts_alive = now; fd = req.fd } ∷ stations

pub clear_unalive : ℕ → List Station → List Station
clear_unalive now [] = []
clear_unalive now (s ∷ ss) =
    let rest = clear_unalive now ss in
    if ltb (s.ts_alive + station_alive_timeout) now then rest else s ∷ rest

abbrev pub find_dst : Bus → Bytes → Option Station
find_dst bus header = elim (scan_dstid header) [
  | none ↦ none
  | some dstid ↦ find_station bus.stations dstid
]
