-- ===== src/Bus/Requests/Stale.antt =====
-- A station keeps the descriptor of its first request.
use extlib.Common.{ℕ, ◌≡◌, refl, ap, ◌∙◌, Option, none, some, List, [], ◌∷◌, arith, take}
use extlib.Text.{scan_dstid}
use extlib.Bus.{Bus, Request, Station, fresh, find_sinkfd, find_station, find_dst, send}
use extlib.Bus.Requests.{note_source, serve_all, handle_request, keep}
use extlib.Bus.Requests.Forward.{serve-passes}
use extlib.Bus.Requests.Ways.{forwarded, sinkfds-serve_all, sinkfds-note_source, sent-note_source}
use extlib.Bus.Requests.Known.{FoundWith, note_source-FoundWith, serve_all-FoundWith}

lost :
    (bus : Bus) (fd : ℕ) (buf : List ℕ) → find_sinkfd bus.sinkfds fd ≡ none → send bus fd buf ≡ bus
unfolding send
lost bus fd buf e = ground arith

-- A lone new request to a station whose descriptor is gone is sent nowhere.
handle_request-lost :
    (now k fd : ℕ) (ask : Request) (bus : Bus)
    → bus.requests ≡ ask ∷ []
    → FoundWith k fd bus.stations
    → find_sinkfd bus.sinkfds fd ≡ none
    → ask.state ≡ fresh
    → scan_dstid ask.pac.header ≡ some k
    → handle_request now bus
      ≡ record (note_source now ask bus) { requests = forwarded now ask ∷ [] }
unfolding handle_request serve_all
handle_request-lost now k fd ask bus one known gone new names =
    let (t, e, f) = note_source-FoundWith now k fd ask bus known in
    let dst : find_dst (note_source now ask bus) ask.pac.header ≡ some t = rw (names, find_dst) e in
    let nowhere = lost (note_source now ask bus) t.fd (take ask.pac.len ask.pac.raw) (
      ap (λ ss. find_sinkfd ss t.fd) (sinkfds-note_source now ask bus)
      ∙ ap (find_sinkfd bus.sinkfds) f
      ∙ gone) in
    let served =
      serve-passes now ask bus t new dst ∙ ap (λ b. (some (forwarded now ask), b)) nowhere in
    ap (λ rs. let (left, b) = serve_all now rs bus in record b { requests = left }) one
    ∙ ap (λ (o : Option Request × Bus). record (o.1) { requests = keep o.0 [] }) served

-- Whatever requests the bus serves, from whatever descriptors, a station that it knows keeps the
-- descriptor of its first request. Where that one is gone, the next request to the station is sent
-- nowhere, though it goes on waiting for an answer.
pub handle_request-stale :
    (now later k : ℕ) (bus : Bus) (s : Station) (ask : Request)
    → find_station bus.stations k ≡ some s
    → find_sinkfd bus.sinkfds s.fd ≡ none
    → ask.state ≡ fresh
    → scan_dstid ask.pac.header ≡ some k
    → let c = handle_request now bus in
      let d = handle_request later (record c { requests = ask ∷ [] }) in
      ((t : Station) × (find_station c.stations k ≡ some t) × (t.fd ≡ s.fd))
      × (d.requests ≡ forwarded later ask ∷ [])
      × (d.sent ≡ c.sent)
unfolding handle_request
handle_request-stale now later k bus s ask known gone new names =
    let c = handle_request now bus in
    let found = serve_all-FoundWith now k s.fd bus.requests bus (s, known, refl) in
    let same = sinkfds-serve_all now bus.requests bus in
    let q = record c { requests = ask ∷ [] } in
    let e =
      handle_request-lost later k s.fd ask q refl found (ap (λ ss. find_sinkfd ss s.fd) same ∙ gone)
        new names in
    (
      found,
      ap (λ (b : Bus). b.requests) e,
      ap (λ (b : Bus). b.sent) e ∙ sent-note_source later ask q,
    )
