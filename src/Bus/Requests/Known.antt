-- ===== src/Bus/Requests/Known.antt =====
-- A station that is known stays known while `handle_request` of src/apix.c serves requests, with its
-- descriptor.
use mathlib.Core.Path.{subst}
use extlib.Common.{
  ℕ, ◌≡◌, refl, sym, ap, Bool-cases, inl, inr, Option, none, some, List, [], ◌∷◌, arith, ◌==◌,
  Bytes,
}
use extlib.Text.{scan_dstid}
use extlib.Bus.{Bus, Request, Station, find_station, touch, add_station, find_dst, send}
use extlib.Bus.Requests.{note_source, serve, serve_all}
use extlib.Bus.Sending.{stations-send}
use extlib.Bus.Requests.Ways.{waits, expires, fails, passes, serve-Served}

-- Station `k` is found with the descriptor `fd`.
abbrev pub FoundWith : ℕ → ℕ → List Station → Type 0
FoundWith k fd ss = (t : Station) × (find_station ss k ≡ some t) × (t.fd ≡ fd)

touch-FoundWith :
    (now id k fd : ℕ) (ss : List Station) → FoundWith k fd ss → FoundWith k fd (touch now id ss)
unfolding touch find_station
touch-FoundWith now id k fd [] (t, e, f) = (t, e, f)
touch-FoundWith now id k fd (s ∷ ss) (t, e, f) = elim (Bool-cases (s.sttid == id)) [
  | inl hit ↦ elim (Bool-cases (s.sttid == k)) [
    | inl here ↦ (record s { ts_alive = now }, ground arith, ground arith)
    | inr other ↦ (t, ground arith, f)
  ]
  | inr miss ↦ elim (Bool-cases (s.sttid == k)) [
    | inl here ↦ (s, ground arith, ground arith)
    | inr other ↦
        let (u, g, h) = touch-FoundWith now id k fd ss (t, ground arith, f) in (u, ground arith, h)
  ]
]

pub note_source-FoundWith :
    (now k fd : ℕ) (r : Request) (bus : Bus)
    → FoundWith k fd bus.stations
    → FoundWith k fd (note_source now r bus).stations
unfolding note_source add_station find_station
note_source-FoundWith now k fd r bus (t, e, f) =
    by_source (find_station bus.stations r.pac.srcid) refl
  where
    by_source :
        (o : Option Station)
        → find_station bus.stations r.pac.srcid ≡ o
        → FoundWith k fd (note_source now r bus).stations
    by_source none g = elim (Bool-cases (r.pac.srcid == k)) [
      | inl same ↦ absurd (ground (arith, e, g, same))
      | inr other ↦ (t, ground arith, f)
    ]
    by_source (some s) g =
        let (u, h, l) = touch-FoundWith now r.pac.srcid k fd bus.stations (t, e, f) in
        (u, ground (arith, g, h), l)

-- What holds of the table holds of it where a message was sent.
pub sent-FoundWith :
    (k fd : ℕ) (bus : Bus) (to : ℕ) (buf : List ℕ)
    → FoundWith k fd bus.stations
    → FoundWith k fd (send bus to buf).stations
sent-FoundWith k fd bus to buf h = subst (FoundWith k fd) (sym (stations-send bus to buf)) h

pub serve-FoundWith :
    (now k fd : ℕ) (r : Request) (bus : Bus)
    → FoundWith k fd bus.stations
    → FoundWith k fd (serve now r bus).1.stations
serve-FoundWith now k fd r bus h = elim (serve-Served now r bus) [
  | waits s l e ↦ subst (FoundWith k fd) (sym (ap (λ o. o.1.stations) e)) h
  | expires s l e ↦
      subst (FoundWith k fd) (sym (ap (λ o. o.1.stations) e)) (sent-FoundWith k fd bus _ _ h)
  | fails s n e ↦
      subst (FoundWith k fd) (sym (ap (λ o. o.1.stations) e))
        (sent-FoundWith k fd (note_source now r bus) _ _ (note_source-FoundWith now k fd r bus h))
  | passes dst s n e ↦
      subst (FoundWith k fd) (sym (ap (λ o. o.1.stations) e))
        (sent-FoundWith k fd (note_source now r bus) _ _ (note_source-FoundWith now k fd r bus h))
]

pub serve_all-FoundWith :
    (now k fd : ℕ) (rs : List Request) (bus : Bus)
    → FoundWith k fd bus.stations
    → FoundWith k fd (serve_all now rs bus).1.stations
unfolding serve_all
serve_all-FoundWith now k fd [] bus h = h
serve_all-FoundWith now k fd (r ∷ rs) bus h =
    serve_all-FoundWith now k fd rs (serve now r bus).1 (serve-FoundWith now k fd r bus h)

-- The header names a station that has the descriptor `fd`.
abbrev pub NamesWith : Bytes → ℕ → Bus → Type 0
NamesWith header fd bus = (t : Station) × (find_dst bus header ≡ some t) × (t.fd ≡ fd)

-- What keeps each station with its descriptor keeps the one that a header names.
pub NamesWith-kept :
    (header : Bytes) (fd : ℕ) (bus b : Bus)
    → ((k : ℕ) → FoundWith k fd bus.stations → FoundWith k fd b.stations)
    → NamesWith header fd bus
    → NamesWith header fd b
NamesWith-kept header fd bus b keeps (t, e, f) = by_name (scan_dstid header) refl
  where
    by_name : (o : Option ℕ) → scan_dstid header ≡ o → NamesWith header fd b
    by_name none g = absurd (ground (arith, e, g))
    by_name (some k) g =
        let (u, h, l) = keeps k (t, ground (arith, e, g), f) in (u, rw (g, find_dst) h, l)
