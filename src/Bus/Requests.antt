-- ===== src/Bus/Requests.antt =====
-- `handle_request` of src/apix.c: new requests are forwarded to their station, waiting ones time out.
pub mod Ways
pub mod Known
pub mod Laws
pub mod Table
pub mod Forward
pub mod Stale
use extlib.Common.{ℕ, ◌+◌, Option, none, some, List, [], ◌∷◌, ltb, if◌then◌else◌, take}
use extlib.Text.{codes, scan_dstid}
use extlib.Bus.{
  Bus, Request, Station, fresh, waiting, find_station, find_dst, touch, add_station, send,
  request_timeout,
}

-- The source of a new request is registered, or seen alive.
unfoldable pub note_source : ℕ → Request → Bus → Bus
note_source now req bus = record bus {
  stations = elim (find_station bus.stations req.pac.srcid) [
    | none ↦ add_station now req bus.stations
    | some s ↦ touch now req.pac.srcid bus.stations
  ];
}

-- One round of `handle_request`. The request is deleted where the result has none.
pub serve : ℕ → Request → Bus → Option Request × Bus
serve now req bus = elim req.state [
  | waiting ↦
      if ltb now (req.ts_send + request_timeout)
      then (some req, bus)
      else (none, send bus req.fd (codes "request timeout"))
  | fresh ↦
      let noted = note_source now req bus in
      elim (find_dst noted req.pac.header) [
        | none ↦ (none, send noted req.fd (codes "STATION NOT FOUND"))
        | some dst ↦ (
          some (record req { state = waiting; ts_send = now }),
          send noted dst.fd (take req.pac.len req.pac.raw),
        )
      ]
]

abbrev pub keep : {A : Type 0} → Option A → List A → List A
keep none xs = xs
keep (some x) xs = x ∷ xs

pub serve_all : ℕ → List Request → Bus → List Request × Bus
serve_all now [] bus = ([], bus)
serve_all now (r ∷ rs) bus =
    let (kept, bus') = serve now r bus in
    let (rest, bus'') = serve_all now rs bus' in (keep kept rest, bus'')

pub handle_request : ℕ → Bus → Bus
handle_request now bus = let (rs, b) = serve_all now bus.requests bus in record b { requests = rs }
