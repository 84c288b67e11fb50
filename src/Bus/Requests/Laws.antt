-- ===== src/Bus/Requests/Laws.antt =====
-- What `handle_request` does with each request: none gets lost.
use mathlib.Core.Path.{subst}
use extlib.Common.{
  ℕ, ◌+◌, ◌≤◌, ◌<◌, ◌≡◌, refl, sym, ap, ◌∙◌, ◌⊎◌, inl, inr, Option, none, some, List, [], ◌∷◌,
  arith, All, In, In-append_last, take, Bytes,
}
use extlib.Text.{codes}
use extlib.Bus.{Bus, Request, fresh, waiting, Station, find_dst, send, request_timeout}
use extlib.Bus.Sending.{Reachable, send-Reachable, sinkfds-send}
use extlib.Bus.Requests.{note_source, serve, keep, serve_all, handle_request}
use extlib.Bus.Requests.Ways.{
  forwarded, waits, expires, fails, passes, serve-Served, sinkfds-note_source, sinkfds-serve,
  In-serve_all, sinkfds-serve_all,
}
use extlib.Bus.Requests.Known.{
  NamesWith, NamesWith-kept, sent-FoundWith, note_source-FoundWith, serve-FoundWith,
  serve_all-FoundWith,
}

-- It has time left and goes on waiting.
abbrev pub StillWaits : ℕ → Request → List Request → Type 0
StillWaits now r rs = (r.state ≡ waiting) × (now < r.ts_send + request_timeout) × In r rs

-- It was new, and waits now; its bytes went to the station that its header names, if that can be
-- reached.
abbrev pub PassedOn : ℕ → Request → List Request → Bus → Type 0
PassedOn now r rs b =
    (r.state ≡ fresh)
    × In (forwarded now r) rs
    × ((dst : Station) × (find_dst b r.pac.header ≡ some dst)
        × (Reachable b.sinkfds dst.fd → In (dst.fd, take r.pac.len r.pac.raw) b.sent))

-- It waited for too long, and its sender is told.
abbrev pub TimedOut : ℕ → Request → Bus → Type 0
TimedOut now r b =
    (r.state ≡ waiting)
    × (r.ts_send + request_timeout ≤ now)
    × In (r.fd, codes "request timeout") b.sent

-- It was new, its header named no station of the bus, and its sender is told.
abbrev pub NotFound : Request → Bus → Bus → Type 0
NotFound r bus b =
    (r.state ≡ fresh)
    × (find_dst bus r.pac.header ≡ none)
    × In (r.fd, codes "STATION NOT FOUND") b.sent

-- What has become of a request of `bus`, where `rs` are left and `b` is the bus.
abbrev pub Settled : ℕ → Request → Bus → List Request → Bus → Type 0
Settled now r bus rs b =
    StillWaits now r rs ⊎ PassedOn now r rs b ⊎ TimedOut now r b ⊎ NotFound r bus b

In-keep : {A : Type 0} (a : A) (o : Option A) (xs : List A) → In a xs → In a (keep o xs)
In-keep a none xs h = h
In-keep a (some x) xs h = inr h

In-send_self :
    (bus : Bus) (fd : ℕ) (buf : Bytes)
    → Reachable bus.sinkfds fd
    → In (fd, buf) (send bus fd buf).sent
In-send_self bus fd buf h = rw (send-Reachable bus fd buf h) (In-append_last (fd, buf) bus.sent)

-- No station for the header later, so none before.
not_named :
    (header : Bytes) (bus b : Bus)
    → ((fd : ℕ) → NamesWith header fd bus → NamesWith header fd b)
    → find_dst b header ≡ none
    → find_dst bus header ≡ none
not_named header bus b keeps n = by_dst (find_dst bus header) refl
  where
    by_dst : (o : Option Station) → find_dst bus header ≡ o → find_dst bus header ≡ none
    by_dst none e = e
    by_dst (some t) e = let (u, f, g) = keeps t.fd (t, e, refl) in absurd (ground (arith, n, f))

-- The first request is settled, whatever is served behind it.
serve-Settled :
    (now : ℕ) (r : Request) (rs : List Request) (bus : Bus)
    → Reachable bus.sinkfds r.fd
    → Settled now r bus (serve_all now (r ∷ rs) bus).0 (serve_all now (r ∷ rs) bus).1
unfolding serve_all
serve-Settled now r rs bus h = elim (serve-Served now r bus) [
  | waits s l e ↦ rw e (inl (s, l, inl refl))
  | expires s l e ↦ rw e (inr (inr (inl (s, l, told bus rs r (codes "request timeout") h))))
  | fails s n e ↦ rw e (
      inr (
        inr (
          inr (
            s,
            not_named r.pac.header bus noted known n,
            told noted rs r (codes "STATION NOT FOUND") (rw (sinkfds-note_source now r bus) h),
          ))))
  | passes dst s n e ↦ rw e (inr (inl (s, inl refl, delivered dst n)))
]
  where
    noted : Bus
    noted = note_source now r bus

    known : (fd : ℕ) → NamesWith r.pac.header fd bus → NamesWith r.pac.header fd noted
    known fd = NamesWith-kept r.pac.header fd bus noted (λ k. note_source-FoundWith now k fd r bus)

    told :
        (b : Bus) (rs : List Request) (r : Request) (buf : Bytes)
        → Reachable b.sinkfds r.fd
        → In (r.fd, buf) (serve_all now rs (send b r.fd buf)).1.sent
    told b rs r buf h = In-serve_all now rs _ (r.fd, buf) (In-send_self b r.fd buf h)

    delivered :
        (dst : Station)
        → find_dst noted r.pac.header ≡ some dst
        → let b = (serve_all now rs (send noted dst.fd (take r.pac.len r.pac.raw))).1 in
          (t : Station) × (find_dst b r.pac.header ≡ some t)
          × (Reachable b.sinkfds t.fd → In (t.fd, take r.pac.len r.pac.raw) b.sent)
    delivered dst n =
        let bytes = take r.pac.len r.pac.raw in
        let c = send noted dst.fd bytes in
        let b = (serve_all now rs c).1 in
        let (t, e, f) =
          NamesWith-kept r.pac.header dst.fd noted b
            (λ k w.
              (serve_all-FoundWith now k dst.fd rs c
                (sent-FoundWith k dst.fd noted dst.fd bytes w)))
            (dst, n, refl) in
        let same = sinkfds-serve_all now rs c ∙ sinkfds-send noted dst.fd bytes in
        (
          t,
          e,
          λ reach.
              subst (λ fd. In (fd, bytes) b.sent) (sym f)
                (In-serve_all now rs c (dst.fd, bytes)
                  (In-send_self noted dst.fd bytes (
                    subst (λ ss. Reachable ss dst.fd) same
                      (subst (λ fd. Reachable b.sinkfds fd) f reach)))),
        )

-- It is settled also where others are served before it.
Settled-behind :
    (now : ℕ) (q r : Request) (rs : List Request) (bus b : Bus)
    → Settled now r (serve now q bus).1 rs b
    → Settled now r bus (keep (serve now q bus).0 rs) b
Settled-behind now q r rs bus b (inl (s, l, i)) = inl (s, l, In-keep r _ rs i)
Settled-behind now q r rs bus b (inr (inl (s, i, d))) =
    inr (inl (s, In-keep (forwarded now r) _ rs i, d))
Settled-behind now q r rs bus b (inr (inr (inl h))) = inr (inr (inl h))
Settled-behind now q r rs bus b (inr (inr (inr (s, n, i)))) =
    let c = (serve now q bus).1 in
    let keeps : (fd : ℕ) → NamesWith r.pac.header fd bus → NamesWith r.pac.header fd c =
      λ fd. NamesWith-kept r.pac.header fd bus c (λ k. serve-FoundWith now k fd q bus) in
    inr (inr (inr (s, not_named r.pac.header bus c keeps n, i)))

serve_all-Settled :
    (now : ℕ) (r : Request) (rs : List Request) (bus : Bus)
    → Reachable bus.sinkfds r.fd
    → In r rs
    → Settled now r bus (serve_all now rs bus).0 (serve_all now rs bus).1
unfolding serve_all
serve_all-Settled now r [] bus h i = absurd i
serve_all-Settled now r (q ∷ rs) bus h (inl e) = rw e (serve-Settled now q rs bus (rw e at h))
serve_all-Settled now r (q ∷ rs) bus h (inr i) =
    let b = (serve now q bus).1 in
    Settled-behind now q r (serve_all now rs b).0 bus (serve_all now rs b).1
      (serve_all-Settled now r rs b (rw (sinkfds-serve now q bus) h) i)

-- No request gets lost: each request whose sender can be reached has, after `handle_request`, time
-- left and still waits; or it was new and waits now, and its bytes went to the station that its header
-- names, if that can be reached; or its time is over and its sender has been told so; or it was new,
-- its header named no station of the bus, and its sender has been told so.
pub handle_request-Settled :
    (now : ℕ) (bus : Bus) (r : Request)
    → In r bus.requests
    → Reachable bus.sinkfds r.fd
    → let b = handle_request now bus in Settled now r bus b.requests b
unfolding handle_request
handle_request-Settled now bus r i h = serve_all-Settled now r bus.requests bus h i

-- the four ways again, for what is kept
serve_all-waiting :
    (now : ℕ) (rs : List Request) (bus : Bus)
    → All (λ q. q.state ≡ waiting) (serve_all now rs bus).0
unfolding serve_all
serve_all-waiting now [] bus = tt
serve_all-waiting now (r ∷ rs) bus =
    let ih = serve_all-waiting now rs (serve now r bus).1 in
    elim (serve-Served now r bus) [
      | waits s l e ↦ rw (ap (λ o. o.0) e) (s, ih)
      | expires s l e ↦ rw (ap (λ o. o.0) e) ih
      | fails s n e ↦ rw (ap (λ o. o.0) e) ih
      | passes dst s n e ↦ rw (ap (λ o. o.0) e) (refl, ih)
    ]

-- After `handle_request` every request that is left waits for its response.
pub handle_request-waiting :
    (now : ℕ) (bus : Bus) → All (λ q. q.state ≡ waiting) (handle_request now bus).requests
unfolding handle_request
handle_request-waiting now bus = serve_all-waiting now bus.requests bus
