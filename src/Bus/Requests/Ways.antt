-- ===== src/Bus/Requests/Ways.antt =====
-- The ways through one round of the loop of `handle_request` of src/apix.c, and what every round
-- leaves alone.
use mathlib.Core.Path.{subst}
use extlib.Common.{
  ℕ, ◌+◌, ◌≤◌, ◌<◌, ◌≡◌, refl, sym, ap, ◌∙◌, inl, inr, Option, none, some, List, [], ◌∷◌, arith,
  ltb, In, Bool-cases, take, Bytes,
}
use extlib.Text.{codes}
use extlib.Bus.{Bus, Request, State, fresh, waiting, Station, find_dst, send, request_timeout}
use extlib.Bus.Sending.{In-send, sinkfds-send}
use extlib.Bus.Requests.{note_source, serve, serve_all}

-- A new request on its way to its station.
abbrev pub forwarded : ℕ → Request → Request
forwarded now r = record r { state = waiting; ts_send = now }

abbrev pub timed_out : Request → Bus → Bus
timed_out r bus = send bus r.fd (codes "request timeout")

abbrev pub not_found : ℕ → Request → Bus → Bus
not_found now r bus = send (note_source now r bus) r.fd (codes "STATION NOT FOUND")

abbrev pub passed_on : ℕ → Request → Station → Bus → Bus
passed_on now r dst bus = send (note_source now r bus) dst.fd (take r.pac.len r.pac.raw)

-- the four ways through one round of the loop
pub data Served (now : ℕ) (r : Request) (bus : Bus) (out : Option Request × Bus) : Type 0 where
  waits :
      r.state ≡ waiting
      → now < r.ts_send + request_timeout
      → out ≡ (some r, bus)
      → Served now r bus out
  expires :
      r.state ≡ waiting
      → r.ts_send + request_timeout ≤ now
      → out ≡ (none, timed_out r bus)
      → Served now r bus out
  fails :
      r.state ≡ fresh
      → find_dst (note_source now r bus) r.pac.header ≡ none
      → out ≡ (none, not_found now r bus)
      → Served now r bus out
  passes :
      (dst : Station)
      → r.state ≡ fresh
      → find_dst (note_source now r bus) r.pac.header ≡ some dst
      → out ≡ (some (forwarded now r), passed_on now r dst bus)
      → Served now r bus out

pub serve-Served : (now : ℕ) (r : Request) (bus : Bus) → Served now r bus (serve now r bus)
unfolding serve
serve-Served now r bus = by_state r.state refl
  where
    by_dst :
        (o : Option Station)
        → r.state ≡ fresh
        → find_dst (note_source now r bus) r.pac.header ≡ o
        → Served now r bus (serve now r bus)
    by_dst none s e = fails s e (ground arith)
    by_dst (some dst) s e = passes dst s e (ground arith)

    by_state : (s : State) → r.state ≡ s → Served now r bus (serve now r bus)
    by_state waiting s = elim (Bool-cases (ltb now (r.ts_send + request_timeout))) [
      | inl early ↦ waits s (ground arith) (ground arith)
      | inr late ↦ expires s (ground arith) (ground arith)
    ]
    by_state fresh s = by_dst (find_dst (note_source now r bus) r.pac.header) s refl

pub sent-note_source : (now : ℕ) (r : Request) (bus : Bus) → (note_source now r bus).sent ≡ bus.sent
unfolding note_source
sent-note_source now r bus = refl

pub sinkfds-note_source :
    (now : ℕ) (r : Request) (bus : Bus) → (note_source now r bus).sinkfds ≡ bus.sinkfds
unfolding note_source
sinkfds-note_source now r bus = refl

In-note_send :
    (now : ℕ) (r : Request) (bus : Bus) (fd : ℕ) (buf : Bytes) (m : ℕ × Bytes)
    → In m bus.sent
    → In m (send (note_source now r bus) fd buf).sent
In-note_send now r bus fd buf m h =
    In-send (note_source now r bus) fd buf m (rw (sent-note_source now r bus) h)

pub sinkfds-serve : (now : ℕ) (r : Request) (bus : Bus) → (serve now r bus).1.sinkfds ≡ bus.sinkfds
sinkfds-serve now r bus = elim (serve-Served now r bus) [
  | waits s l e ↦ ap (λ o. o.1.sinkfds) e
  | expires s l e ↦ ap (λ o. o.1.sinkfds) e ∙ sinkfds-send bus _ _
  | fails s n e ↦
      ap (λ o. o.1.sinkfds) e
      ∙ sinkfds-send (note_source now r bus) _ _
      ∙ sinkfds-note_source now r bus
  | passes dst s n e ↦
      ap (λ o. o.1.sinkfds) e
      ∙ sinkfds-send (note_source now r bus) _ _
      ∙ sinkfds-note_source now r bus
]

In-serve :
    (now : ℕ) (r : Request) (bus : Bus) (m : ℕ × Bytes)
    → In m bus.sent
    → In m (serve now r bus).1.sent
In-serve now r bus m h = elim (serve-Served now r bus) [
  | waits s l e ↦ subst (λ o. In m o.1.sent) (sym e) h
  | expires s l e ↦ subst (λ o. In m o.1.sent) (sym e) (In-send bus _ _ m h)
  | fails s n e ↦ subst (λ o. In m o.1.sent) (sym e) (In-note_send now r bus _ _ m h)
  | passes dst s n e ↦ subst (λ o. In m o.1.sent) (sym e) (In-note_send now r bus _ _ m h)
]

pub In-serve_all :
    (now : ℕ) (rs : List Request) (bus : Bus) (m : ℕ × Bytes)
    → In m bus.sent
    → In m (serve_all now rs bus).1.sent
unfolding serve_all
In-serve_all now [] bus m h = h
In-serve_all now (r ∷ rs) bus m h =
    In-serve_all now rs (serve now r bus).1 m (In-serve now r bus m h)

pub sinkfds-serve_all :
    (now : ℕ) (rs : List Request) (bus : Bus) → (serve_all now rs bus).1.sinkfds ≡ bus.sinkfds
unfolding serve_all
sinkfds-serve_all now [] bus = refl
sinkfds-serve_all now (r ∷ rs) bus =
    sinkfds-serve_all now rs (serve now r bus).1 ∙ sinkfds-serve now r bus
