-- ===== src/Bus/Responses.antt =====
-- `handle_response` of src/apix.c: a response goes to the first request that it answers.
pub mod Deliver
pub mod Laws
pub mod Single
pub mod Calm
use extlib.Common.{ℕ, Bool, ◌&&◌, Option, none, some, List, [], ◌∷◌, ◌==◌, if◌then◌else◌, take}
use extlib.Text.{same_text, scan_dstid}
use extlib.Bus.{Bus, Request, Response, send, find_station, touch}

-- the test of `handle_response` on a request
unfoldable pub answers : Response → Request → Bool
answers resp req =
    (req.crc16 == resp.pac.reqcrc16)
    && (same_text req.pac.header resp.pac.header && (req.pac.srcid == resp.pac.srcid))

-- The first request that `resp` answers, and the requests without it.
pub take_answered : Response → List Request → Option Request × List Request
take_answered resp [] = (none, [])
take_answered resp (r ∷ rs) =
    let (found, rest) = take_answered resp rs in
    if answers resp r then (some r, rs) else (found, r ∷ rest)

-- The inner loop of `handle_response`: the request is answered and deleted.
pub deliver : Response → Bus → Bus
deliver resp bus =
    let (found, rest) = take_answered resp bus.requests in
    elim found [
      | none ↦ bus
      | some req ↦ record (send bus req.fd (take resp.pac.len resp.pac.raw)) { requests = rest }
    ]

-- The station that the header names is seen alive. (An unknown one is only logged.)
pub note_station : ℕ → Response → Bus → Bus
note_station now resp bus = elim (scan_dstid resp.pac.header) [
  | none ↦ bus
  | some dstid ↦ record bus { stations = touch now dstid bus.stations }
]

deliver_all : ℕ → List Response → Bus → Bus
unfolding note_station
deliver_all now [] bus = bus
deliver_all now (r ∷ rs) bus = deliver_all now rs (note_station now r (deliver r bus))

pub handle_response : ℕ → Bus → Bus
handle_response now bus = record (deliver_all now bus.responses bus) { responses = [] }
