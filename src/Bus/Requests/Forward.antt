-- ===== src/Bus/Requests/Forward.antt =====
-- `handle_request` on one new request whose station is known.
use extlib.Common.{ℕ, ◌+◌, ◌<◌, ◌≡◌, some, [], ◌∷◌, ◌++◌, arith, take}
use extlib.Bus.{Bus, Request, fresh, waiting, Station, find_dst, send, request_timeout}
use extlib.Bus.Sending.{Reachable, send-Reachable}
use extlib.Bus.Requests.{note_source, serve, serve_all, handle_request}
use extlib.Bus.Requests.Ways.{forwarded}

pub serve-passes :
    (now : ℕ) (r : Request) (bus : Bus) (dst : Station)
    → r.state ≡ fresh
    → find_dst (note_source now r bus) r.pac.header ≡ some dst
    → serve now r bus
      ≡ (some (forwarded now r), send (note_source now r bus) dst.fd (take r.pac.len r.pac.raw))
unfolding serve
serve-passes now r bus dst s e = ground arith

-- the bus with `r` passed on to `dst`
abbrev pub after_request : ℕ → Request → Station → Bus → Bus
after_request now r dst bus = record (note_source now r bus) {
  requests = forwarded now r ∷ [];
  sent = bus.sent ++ ((dst.fd, take r.pac.len r.pac.raw) ∷ []);
}

-- A lone new request is passed on whole to the station that its header names, and waits.
pub handle_request-passes :
    (now : ℕ) (r : Request) (bus : Bus) (dst : Station)
    → bus.requests ≡ r ∷ []
    → r.state ≡ fresh
    → find_dst (note_source now r bus) r.pac.header ≡ some dst
    → Reachable bus.sinkfds dst.fd
    → handle_request now bus ≡ after_request now r dst bus
unfolding handle_request serve_all note_source
handle_request-passes now r bus dst one s e h = ground (
  arith,
  serve-passes now r bus dst s e,
  send-Reachable (note_source now r bus) dst.fd (take r.pac.len r.pac.raw) h,
)

-- A lone request that waits and has time left goes on waiting.
pub handle_request_waiting :
    (now : ℕ) (q : Request) (bus : Bus)
    → bus.requests ≡ q ∷ []
    → q.state ≡ waiting
    → now < q.ts_send + request_timeout
    → handle_request now bus ≡ record bus { requests = q ∷ [] }
unfolding handle_request serve_all serve
handle_request_waiting now q bus one w early = ground (arith, one, w)
