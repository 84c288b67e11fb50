-- ===== src/Bus/RoundTrip.antt =====
-- A request and its response through the two handlers.
use extlib.Common.{ℕ, ◌≡◌, refl, some, [], ◌∷◌, ◌++◌, append_assoc, take}
use extlib.Bus.{Bus, Request, Response, fresh, Station, find_dst}
use extlib.Bus.Sending.{Reachable}
use extlib.Bus.Requests.{note_source, handle_request}
use extlib.Bus.Requests.Ways.{forwarded, sinkfds-note_source}
use extlib.Bus.Requests.Forward.{after_request, handle_request-passes}
use extlib.Bus.Responses.{handle_response}
use extlib.Bus.Responses.Deliver.{IsReply}
use extlib.Bus.Responses.Single.{handle_response-replies}

-- what arrives between the two handlers
abbrev pub arrives : Response → Bus → Bus
arrives resp bus = record bus { responses = resp ∷ [] }

-- A new request, alone on the bus, goes whole to the station that its header names; when a reply
-- to it arrives, that goes whole to the request's sender; then the bus has neither any more, and
-- has sent nothing else.
pub request-response :
    (now later : ℕ) (r : Request) (resp : Response) (bus : Bus) (dst : Station)
    → bus.requests ≡ r ∷ []
    → r.state ≡ fresh
    → find_dst (note_source now r bus) r.pac.header ≡ some dst
    → Reachable bus.sinkfds dst.fd
    → Reachable bus.sinkfds r.fd
    → IsReply resp r
    → let b = handle_response later (arrives resp (handle_request now bus)) in
      (b.requests ≡ [])
      × (b.responses ≡ [])
      × (b.sent
          ≡ bus.sent
            ++ ((dst.fd, take r.pac.len r.pac.raw) ∷ (r.fd, take resp.pac.len resp.pac.raw) ∷ []))
request-response now later r resp bus dst one s e to_dst to_src reply =
    let q = forwarded now r in
    let b = arrives resp (after_request now r dst bus) in
    let same : IsReply resp q = record {
      checksum = reply.checksum;
      header = reply.header;
      source = reply.source;
    } in
    let (ss, done) =
      handle_response-replies later resp q b refl refl same
        (rw (sinkfds-note_source now r bus) to_src) in
    rw (handle_request-passes now r bus dst one s e to_dst, done)
      (refl, refl, append_assoc bus.sent ((dst.fd, take r.pac.len r.pac.raw) ∷ []) _)
