-- ===== src/Bus/Responses/Deliver.antt =====
-- One response in `handle_response` of src/apix.c: which request it answers, and what is sent.
use extlib.Common.{
  ℕ, suc, ◌≡◌, refl, sym, ap, ◌∙◌, true, false, Option, none, some, List, [], ◌∷◌, ◌++◌, arith,
  length, All, Bool-cases, inl, inr, ◌⊎◌, take,
}
use extlib.Text.{same_text→eq, same_text_refl, scan_dstid}
use extlib.Bus.{Bus, Request, Response, Station, touch}
use extlib.Bus.Sending.{Reachable, send-Reachable, send-cases}
use extlib.Bus.Responses.{answers, take_answered, deliver, note_station}

-- The response that a station gives to a request: it names the request's checksum, header and source.
pub record IsReply (resp : Response) (r : Request) : Type 0 where
  pub checksum : resp.pac.reqcrc16 ≡ r.crc16
  pub header : resp.pac.header ≡ r.pac.header
  pub source : resp.pac.srcid ≡ r.pac.srcid

pub reply-answers : (resp : Response) (r : Request) → IsReply resp r → answers resp r ≡ true
unfolding answers
reply-answers resp r h =
    rw (h.checksum, h.header, h.source) (ground (arith, same_text_refl r.pac.header))

-- `note_station` changes the stations only.
pub note_station_stations :
    (now : ℕ) (resp : Response) (b : Bus)
    → (ss : List Station) × (note_station now resp b ≡ record b { stations = ss })
unfolding note_station
note_station_stations now resp b = by_dst (scan_dstid resp.pac.header) refl
  where
    by_dst :
        (o : Option ℕ)
        → scan_dstid resp.pac.header ≡ o
        → (ss : List Station) × (note_station now resp b ≡ record b { stations = ss })
    by_dst none e = (b.stations, ground arith)
    by_dst (some d) e = (touch now d b.stations, ground arith)

take_answered-hit :
    (resp : Response) (xs : List Request) (r : Request) (ys : List Request)
    → All (λ x. answers resp x ≡ false) xs
    → answers resp r ≡ true
    → take_answered resp (xs ++ (r ∷ ys)) ≡ (some r, xs ++ ys)
unfolding take_answered
take_answered-hit resp [] r ys h e = rw e
take_answered-hit resp (x ∷ xs) r ys (n, h) e = rw (n, take_answered-hit resp xs r ys h e)

take_answered-miss :
    (resp : Response) (xs : List Request)
    → All (λ x. answers resp x ≡ false) xs
    → take_answered resp xs ≡ (none, xs)
unfolding take_answered
take_answered-miss resp [] h = refl
take_answered-miss resp (x ∷ xs) (n, h) = rw (n, take_answered-miss resp xs h)

pub deliver-found :
    (resp : Response) (bus : Bus) (r : Request) (rest : List Request)
    → take_answered resp bus.requests ≡ (some r, rest)
    → Reachable bus.sinkfds r.fd
    → deliver resp bus ≡ record bus {
      requests = rest;
      sent = bus.sent ++ ((r.fd, take resp.pac.len resp.pac.raw) ∷ []);
    }
unfolding deliver
deliver-found resp bus r rest e q =
    ground (arith, send-Reachable bus r.fd (take resp.pac.len resp.pac.raw) q)

pub deliver-missed :
    (resp : Response) (bus : Bus)
    → take_answered resp bus.requests ≡ (none, bus.requests)
    → deliver resp bus ≡ bus
unfolding deliver
deliver-missed resp bus e = ground arith

-- the same where the sender may be out of reach
pub deliver_any :
    (resp : Response) (bus : Bus) (r : Request) (rest : List Request)
    → take_answered resp bus.requests ≡ (some r, rest)
    → (deliver resp bus ≡ record bus { requests = rest })
      ⊎ (deliver resp bus ≡ record bus {
        requests = rest;
        sent = bus.sent ++ ((r.fd, take resp.pac.len resp.pac.raw) ∷ []);
      })
unfolding deliver
deliver_any resp bus r rest e = ground (arith, send-cases bus r.fd (take resp.pac.len resp.pac.raw))

-- A response goes, whole, to the sender of the first request that it answers, that request is
-- deleted, and nothing else of the bus changes.
pub deliver_first :
    (resp : Response) (bus : Bus) (xs : List Request) (r : Request) (ys : List Request)
    → bus.requests ≡ xs ++ (r ∷ ys)
    → All (λ x. answers resp x ≡ false) xs
    → answers resp r ≡ true
    → Reachable bus.sinkfds r.fd
    → deliver resp bus ≡ record bus {
      requests = xs ++ ys;
      sent = bus.sent ++ ((r.fd, take resp.pac.len resp.pac.raw) ∷ []);
    }
deliver_first resp bus xs r ys e h a reach =
    deliver-found resp bus r (xs ++ ys)
      (ap (take_answered resp) e ∙ take_answered-hit resp xs r ys h a) reach

-- A response that answers no request changes nothing.
pub deliver_none :
    (resp : Response) (bus : Bus)
    → All (λ x. answers resp x ≡ false) bus.requests
    → deliver resp bus ≡ bus
deliver_none resp bus h = deliver-missed resp bus (take_answered-miss resp bus.requests h)

-- what is found is one of the requests, and the rest are the others
pub data Taken (P : Request → Type 0) (rs : List Request) (out : Option Request × List Request)
    : Type 0 where
  nothing : out ≡ (none, rs) → Taken P rs out
  one :
      (r : Request) (rest : List Request)
      → out ≡ (some r, rest)
      → P r
      → All P rest
      → length rs ≡ suc (length rest)
      → Taken P rs out

pub take_answered-Taken :
    (P : Request → Type 0) (resp : Response) (rs : List Request)
    → All P rs
    → Taken P rs (take_answered resp rs)
unfolding take_answered
take_answered-Taken P resp [] h = nothing refl
take_answered-Taken P resp (x ∷ xs) (p, h) = elim (Bool-cases (answers resp x)) [
  | inl hit ↦ rw hit (one x xs refl p h refl)
  | inr miss ↦ elim (take_answered-Taken P resp xs h) [
    | nothing e ↦ rw (miss, e) (nothing refl)
    | one r rest e q k n ↦ rw (miss, e) (one r (x ∷ rest) refl q (p, k) (ap suc n))
  ]
]

pub answers-IsReply : (resp : Response) (r : Request) → answers resp r ≡ true → IsReply resp r
unfolding answers
answers-IsReply resp r e = record {
  checksum = ground (arith, e);
  header = sym (same_text→eq r.pac.header resp.pac.header (ground (arith, e)));
  source = ground (arith, e);
}

-- What the test refuses is no reply.
pub no_answer : (resp : Response) (r : Request) → answers resp r ≡ false → IsReply resp r → ⊥
no_answer resp r e h = ground (arith, e, reply-answers resp r h)

pub All-no_answer :
    (resp : Response) (rs : List Request)
    → All (λ r. answers resp r ≡ false) rs
    → All (λ r. IsReply resp r → ⊥) rs
All-no_answer resp [] h = tt
All-no_answer resp (r ∷ rs) (e, h) = (no_answer resp r e, All-no_answer resp rs h)

-- the first request that a response answers, if there is one
pub data FirstAnswered (resp : Response) (rs : List Request) : Type 0 where
  unanswered : All (λ r. answers resp r ≡ false) rs → FirstAnswered resp rs
  first :
      (xs : List Request) (r : Request) (ys : List Request)
      → rs ≡ xs ++ (r ∷ ys)
      → All (λ x. answers resp x ≡ false) xs
      → answers resp r ≡ true
      → FirstAnswered resp rs

pub first_answered : (resp : Response) (rs : List Request) → FirstAnswered resp rs
first_answered resp [] = unanswered tt
first_answered resp (r ∷ rs) = elim (Bool-cases (answers resp r)) [
  | inl hit ↦ first [] r rs refl tt hit
  | inr miss ↦ elim (first_answered resp rs) [
    | unanswered h ↦ unanswered (miss, h)
    | first xs x ys e h a ↦ first (r ∷ xs) x ys (ap (λ q. r ∷ q) e) (miss, h) a
  ]
]
