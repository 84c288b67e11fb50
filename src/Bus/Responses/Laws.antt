-- ===== src/Bus/Responses/Laws.antt =====
-- What `handle_response` does: a response reaches the sender of the request that it answers, once.
use mathlib.Core.Path.{subst}
use extlib.Common.{
  ℕ, ◌+◌, ◌≡◌, refl, sym, ap, ◌∙◌, Option, none, some, List, [], ◌∷◌, ◌++◌, append-nil,
  append_assoc, arith, length, length-append, All, take, Bytes,
}
use extlib.Text.{scan_dstid}
use extlib.Bus.{Bus, Request, Response, touch}
use extlib.Bus.Sending.{Reachable}
use extlib.Bus.Responses.{deliver, note_station, deliver_all, handle_response}
use extlib.Bus.Responses.Deliver.{
  IsReply, answers-IsReply, All-no_answer, note_station_stations, nothing, one, take_answered-Taken,
  deliver-missed, deliver-found, deliver_first, deliver_none, unanswered, first, first_answered,
}

-- requests and messages sent, together
abbrev traffic : Bus → ℕ
traffic bus = length bus.sent + length bus.requests

-- every request can be answered
abbrev pub Answerable : Bus → Type 0
Answerable bus = All (λ r. Reachable bus.sinkfds r.fd) bus.requests

abbrev Balanced : Bus → Bus → Type 0
Balanced bus b = Answerable b × (traffic b ≡ traffic bus)

deliver-Balanced : (resp : Response) (bus : Bus) → Answerable bus → Balanced bus (deliver resp bus)
deliver-Balanced resp bus h =
    elim (take_answered-Taken (λ r. Reachable bus.sinkfds r.fd) resp bus.requests h) [
      | nothing e ↦ subst (Balanced bus) (sym (deliver-missed resp bus e)) (h, refl)
      | one r rest e q k n ↦
          subst (Balanced bus) (sym (deliver-found resp bus r rest e q))
            (k, omega (arith, length-append bus.sent ((r.fd, take resp.pac.len resp.pac.raw) ∷ [])))
    ]

-- what `note_station` leaves alone
note_station-Balanced :
    (now : ℕ) (resp : Response) (bus b : Bus)
    → Balanced bus b
    → Balanced bus (note_station now resp b)
unfolding note_station
note_station-Balanced now resp bus b h = by_dst (scan_dstid resp.pac.header) refl
  where
    by_dst :
        (o : Option ℕ) → scan_dstid resp.pac.header ≡ o → Balanced bus (note_station now resp b)
    by_dst none e =
        let k : note_station now resp b ≡ b = ground arith in subst (Balanced bus) (sym k) h
    by_dst (some d) e =
        let k : note_station now resp b ≡ record b { stations = touch now d b.stations } =
          ground arith in
        subst (Balanced bus) (sym k) h

deliver_all-Balanced :
    (now : ℕ) (rs : List Response) (bus : Bus)
    → Answerable bus
    → Balanced bus (deliver_all now rs bus)
unfolding deliver_all
deliver_all-Balanced now [] bus h = (h, refl)
deliver_all-Balanced now (r ∷ rs) bus h =
    let step = note_station-Balanced now r bus (deliver r bus) (deliver-Balanced r bus h) in
    let ih = deliver_all-Balanced now rs (note_station now r (deliver r bus)) step.0 in
    (ih.0, ih.1 ∙ step.1)

-- How responses are used up, one after the other: each goes, whole, to the sender of the first
-- request that it is the reply to, which is left out from then on, or to nobody, where it is the
-- reply to none.
pub data Answered : List Response → List Request → List (ℕ × Bytes) → List Request → Type 0 where
  done : {rs : List Request} → Answered [] rs [] rs
  ignored :
      {resp : Response} {resps : List Response} {rs rest : List Request} {out : List (ℕ × Bytes)}
      → All (λ r. IsReply resp r → ⊥) rs
      → Answered resps rs out rest
      → Answered (resp ∷ resps) rs out rest
  replied :
      {resp : Response} {resps : List Response} {rs rest : List Request} {out : List (ℕ × Bytes)}
      (xs : List Request) (r : Request) (ys : List Request)
      → rs ≡ xs ++ (r ∷ ys)
      → All (λ x. IsReply resp x → ⊥) xs
      → IsReply resp r
      → Answered resps (xs ++ ys) out rest
      → Answered (resp ∷ resps) rs ((r.fd, take resp.pac.len resp.pac.raw) ∷ out) rest

-- the messages that were sent, and whom they answered
abbrev Sends : List Response → Bus → Bus → Type 0
Sends resps bus b =
    (out : List (ℕ × Bytes)) × Answered resps bus.requests out b.requests
    × (b.sent ≡ bus.sent ++ out)

-- what `note_station` leaves alone, behind what `deliver` does
requests-noted :
    (now : ℕ) (resp : Response) (b : Bus)
    → ((note_station now resp b).requests ≡ b.requests) × ((note_station now resp b).sent ≡ b.sent)
requests-noted now resp b =
    let (ss, e) = note_station_stations now resp b in
    (ap (λ (c : Bus). c.requests) e, ap (λ (c : Bus). c.sent) e)

All-middle :
    (P : Request → Type 0) (xs : List Request) (r : Request) (ys : List Request)
    → All P (xs ++ (r ∷ ys))
    → P r
All-middle P [] r ys (p, h) = p
All-middle P (x ∷ xs) r ys (q, h) = All-middle P xs r ys h

deliver_all-Sends :
    (now : ℕ) (resps : List Response) (bus : Bus)
    → Answerable bus
    → Sends resps bus (deliver_all now resps bus)
unfolding deliver_all
deliver_all-Sends now [] bus h = ([], done, sym (append-nil bus.sent))
deliver_all-Sends now (resp ∷ resps) bus h =
    let c = deliver resp bus in
    let d = note_station now resp c in
    let rest = (deliver_all now resps d).requests in
    let (n, m) = requests-noted now resp c in
    let kept = (note_station-Balanced now resp bus c (deliver-Balanced resp bus h)).0 in
    let (out, a, s) = deliver_all-Sends now resps d kept in
    elim (first_answered resp bus.requests) [
      | unanswered none_of ↦
          let e = deliver_none resp bus none_of in
          (
            out,
            ignored (All-no_answer resp bus.requests none_of)
                (subst (λ rs. Answered resps rs out rest) (n ∙ ap (λ (b : Bus). b.requests) e) a),
            s ∙ ap (λ t. t ++ out) (m ∙ ap (λ (b : Bus). b.sent) e),
          )
      | first xs r ys split others hit ↦
          let message : ℕ × Bytes = (r.fd, take resp.pac.len resp.pac.raw) in
          let e =
            deliver_first resp bus xs r ys split others hit
              (All-middle _ xs r ys (subst (All _) split h)) in
          (
            message ∷ out,
            replied xs r ys split (All-no_answer resp xs others) (answers-IsReply resp r hit)
                (subst (λ rs. Answered resps rs out rest) (n ∙ ap (λ (b : Bus). b.requests) e) a),
            s
                ∙ ap (λ t. t ++ out) (m ∙ ap (λ (b : Bus). b.sent) e)
                ∙ append_assoc bus.sent (message ∷ []) out,
          )
    ]

-- Where every pending request can be answered, `handle_response` uses the responses one after the
-- other: each goes whole to the sender of the first request left that it is the reply to, by the
-- checksum, the header and the source, and that request is deleted; one that is the reply to none
-- is sent to nobody. Nothing else is sent and no other request is deleted, so that as many messages
-- are sent as requests are deleted, and no response is left.
pub handle_response-traffic :
    (now : ℕ) (bus : Bus)
    → Answerable bus
    → let b = handle_response now bus in
      ((out : List (ℕ × Bytes)) × Answered bus.responses bus.requests out b.requests
        × (b.sent ≡ bus.sent ++ out))
      × (length b.sent + length b.requests ≡ length bus.sent + length bus.requests)
      × (b.responses ≡ [])
unfolding handle_response
handle_response-traffic now bus h = (
  deliver_all-Sends now bus.responses bus h,
  (deliver_all-Balanced now bus.responses bus h).1,
  refl,
)
