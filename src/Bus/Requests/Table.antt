-- ===== src/Bus/Requests/Table.antt =====
-- `handle_request` and the station table.
use mathlib.Core.Path.{subst}
use extlib.Common.{ℕ, ◌≡◌, refl, sym, ap, ◌∙◌, Option, none, some, List, [], ◌∷◌, arith}
use extlib.Bus.{Bus, Request, Station, find_station, touch, add_station}
use extlib.Bus.Sending.{stations-send, topic_msgs-send}
use extlib.Bus.Stations.{Distinct, touch-Distinct, find_station-touch}
use extlib.Bus.Requests.{note_source, serve, serve_all, handle_request}
use extlib.Bus.Requests.Ways.{waits, expires, fails, passes, serve-Served}

note_source-found :
    (now : ℕ) (r : Request) (bus : Bus) (o : Option Station)
    → find_station bus.stations r.pac.srcid ≡ o
    → (note_source now r bus).stations ≡ elim o [
      | none ↦ add_station now r bus.stations
      | some s ↦ touch now r.pac.srcid bus.stations
    ]
unfolding note_source
note_source-found now r bus none e = ground arith
note_source-found now r bus (some s) e = ground arith

note_source-Distinct :
    (now : ℕ) (r : Request) (bus : Bus)
    → Distinct bus.stations
    → Distinct (note_source now r bus).stations
unfolding add_station
note_source-Distinct now r bus h = by_found (find_station bus.stations r.pac.srcid) refl
  where
    by_found :
        (o : Option Station)
        → find_station bus.stations r.pac.srcid ≡ o
        → Distinct (note_source now r bus).stations
    by_found none e = subst Distinct (sym (note_source-found now r bus none e)) (e, h)
    by_found (some s) e =
        subst Distinct (sym (note_source-found now r bus (some s) e))
          (touch-Distinct now r.pac.srcid bus.stations h)

serve-Distinct :
    (now : ℕ) (r : Request) (bus : Bus)
    → Distinct bus.stations
    → Distinct (serve now r bus).1.stations
serve-Distinct now r bus h =
    let noted = note_source-Distinct now r bus h in
    elim (serve-Served now r bus) [
      | waits s l e ↦ subst Distinct (sym (ap (λ o. o.1.stations) e)) h
      | expires s l e ↦ subst Distinct (sym (ap (λ o. o.1.stations) e ∙ stations-send bus _ _)) h
      | fails s n e ↦
          subst Distinct
            (sym (ap (λ o. o.1.stations) e ∙ stations-send (note_source now r bus) _ _)) noted
      | passes dst s n e ↦
          subst Distinct
            (sym (ap (λ o. o.1.stations) e ∙ stations-send (note_source now r bus) _ _)) noted
    ]

serve_all-Distinct :
    (now : ℕ) (rs : List Request) (bus : Bus)
    → Distinct bus.stations
    → Distinct (serve_all now rs bus).1.stations
unfolding serve_all
serve_all-Distinct now [] bus h = h
serve_all-Distinct now (r ∷ rs) bus h =
    serve_all-Distinct now rs (serve now r bus).1 (serve-Distinct now r bus h)

-- `handle_request` registers new sources without ever giving two stations one id.
pub handle_request-Distinct :
    (now : ℕ) (bus : Bus) → Distinct bus.stations → Distinct (handle_request now bus).stations
unfolding handle_request
handle_request-Distinct now bus h = serve_all-Distinct now bus.requests bus h

-- The source of a request is in the table, seen `now`, as soon as the request is looked at.
pub note_source-seen :
    (now : ℕ) (r : Request) (bus : Bus)
    → (s : Station) × (find_station (note_source now r bus).stations r.pac.srcid ≡ some s)
      × (s.ts_alive ≡ now)
unfolding find_station add_station
note_source-seen now r bus = by_found (find_station bus.stations r.pac.srcid) refl
  where
    by_found :
        (o : Option Station)
        → find_station bus.stations r.pac.srcid ≡ o
        → (s : Station) × (find_station (note_source now r bus).stations r.pac.srcid ≡ some s)
          × (s.ts_alive ≡ now)
    by_found none e = (
      record { sttid = r.pac.srcid; ts_alive = now; fd = r.fd },
      ground (arith, note_source-found now r bus none e),
      refl,
    )
    by_found (some s) e = (
      record s { ts_alive = now },
      ap (λ t. find_station t r.pac.srcid) (note_source-found now r bus (some s) e)
          ∙ find_station-touch now r.pac.srcid bus.stations s e,
      refl,
    )

topic_msgs-serve :
    (now : ℕ) (r : Request) (bus : Bus) → (serve now r bus).1.topic_msgs ≡ bus.topic_msgs
unfolding note_source
topic_msgs-serve now r bus = elim (serve-Served now r bus) [
  | waits s l e ↦ ap (λ o. o.1.topic_msgs) e
  | expires s l e ↦ ap (λ o. o.1.topic_msgs) e ∙ topic_msgs-send bus _ _
  | fails s n e ↦ ap (λ o. o.1.topic_msgs) e ∙ topic_msgs-send (note_source now r bus) _ _
  | passes dst s n e ↦ ap (λ o. o.1.topic_msgs) e ∙ topic_msgs-send (note_source now r bus) _ _
]

topic_msgs-serve_all :
    (now : ℕ) (rs : List Request) (bus : Bus) → (serve_all now rs bus).1.topic_msgs ≡ bus.topic_msgs
unfolding serve_all
topic_msgs-serve_all now [] bus = refl
topic_msgs-serve_all now (r ∷ rs) bus =
    topic_msgs-serve_all now rs (serve now r bus).1 ∙ topic_msgs-serve now r bus

-- `handle_request` leaves the queue of topic messages alone.
pub topic_msgs-handle_request :
    (now : ℕ) (bus : Bus) → (handle_request now bus).topic_msgs ≡ bus.topic_msgs
unfolding handle_request
topic_msgs-handle_request now bus = topic_msgs-serve_all now bus.requests bus
