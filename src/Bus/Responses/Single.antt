-- ===== src/Bus/Responses/Single.antt =====
-- `handle_response` on one response to the only request.
use extlib.Common.{ℕ, ◌≡◌, ap, ◌∙◌, List, [], ◌∷◌, ◌++◌, take}
use extlib.Bus.{Bus, Request, Response, Station}
use extlib.Bus.Sending.{Reachable}
use extlib.Bus.Responses.{deliver, deliver_all, handle_response}
use extlib.Bus.Responses.Deliver.{IsReply, reply-answers, note_station_stations, deliver_first}

-- A reply to the only request is sent whole to that request's sender, and nothing is left to do.
pub handle_response-replies :
    (now : ℕ) (resp : Response) (r : Request) (bus : Bus)
    → bus.responses ≡ resp ∷ []
    → bus.requests ≡ r ∷ []
    → IsReply resp r
    → Reachable bus.sinkfds r.fd
    → (ss : List Station) × (handle_response now bus ≡ record bus {
      requests = [];
      responses = [];
      stations = ss;
      sent = bus.sent ++ ((r.fd, take resp.pac.len resp.pac.raw) ∷ []);
    })
unfolding handle_response deliver_all
handle_response-replies now resp r bus one only reply h =
    let e = deliver_first resp bus [] r [] only tt (reply-answers resp r reply) h in
    let (ss, k) = note_station_stations now resp (deliver resp bus) in
    (
      ss,
      ap (λ rs. record (deliver_all now rs bus) { responses = [] }) one
          ∙ ap (λ (b : Bus). record b { responses = [] }) k
          ∙ ap (λ (b : Bus). record b { responses = []; stations = ss }) e,
    )
