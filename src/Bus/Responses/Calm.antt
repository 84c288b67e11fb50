-- ===== src/Bus/Responses/Calm.antt =====
-- `handle_response` on a bus without new requests and topic messages.
use mathlib.Core.Path.{subst}
use extlib.Common.{ℕ, ◌≡◌, refl, sym, inl, inr, Option, none, some, List, [], ◌∷◌, arith, All}
use extlib.Text.{scan_dstid}
use extlib.Bus.{Bus, Response, waiting, touch}
use extlib.Bus.Stations.{Distinct, touch-Distinct}
use extlib.Bus.Responses.{deliver, note_station, deliver_all, handle_response}
use extlib.Bus.Responses.Deliver.{nothing, one, take_answered-Taken, deliver-missed, deliver_any}

-- Every request waits, no two stations have one id, and no topic message is queued.
abbrev pub Calm : Bus → Type 0
Calm bus = All (λ r. r.state ≡ waiting) bus.requests × Distinct bus.stations × (bus.topic_msgs ≡ [])

deliver-Calm : (resp : Response) (bus : Bus) → Calm bus → Calm (deliver resp bus)
deliver-Calm resp bus (w, d, t) =
    elim (take_answered-Taken (λ r. r.state ≡ waiting) resp bus.requests w) [
      | nothing e ↦ subst Calm (sym (deliver-missed resp bus e)) (w, d, t)
      | one r rest e q k n ↦ elim (deliver_any resp bus r rest e) [
        | inl f ↦ subst Calm (sym f) (k, d, t)
        | inr f ↦ subst Calm (sym f) (k, d, t)
      ]
    ]

note_station-Calm :
    (now : ℕ) (resp : Response) (bus : Bus) → Calm bus → Calm (note_station now resp bus)
unfolding note_station
note_station-Calm now resp bus (w, d, t) = by_dst (scan_dstid resp.pac.header) refl
  where
    by_dst : (o : Option ℕ) → scan_dstid resp.pac.header ≡ o → Calm (note_station now resp bus)
    by_dst none e =
        let k : note_station now resp bus ≡ bus = ground arith in subst Calm (sym k) (w, d, t)
    by_dst (some id) e =
        let k : note_station now resp bus ≡ record bus { stations = touch now id bus.stations } =
          ground arith in
        subst Calm (sym k) (w, touch-Distinct now id bus.stations d, t)

deliver_all-Calm :
    (now : ℕ) (rs : List Response) (bus : Bus) → Calm bus → Calm (deliver_all now rs bus)
unfolding deliver_all
deliver_all-Calm now [] bus h = h
deliver_all-Calm now (r ∷ rs) bus h =
    deliver_all-Calm now rs (note_station now r (deliver r bus))
      (note_station-Calm now r (deliver r bus) (deliver-Calm r bus h))

pub handle_response-Calm :
    (now : ℕ) (bus : Bus)
    → Calm bus
    → Calm (handle_response now bus) × ((handle_response now bus).responses ≡ [])
unfolding handle_response
handle_response-Calm now bus h = (deliver_all-Calm now bus.responses bus h, refl)

-- Without a response there is nothing to do.
pub handle_response_idle :
    (now : ℕ) (bus : Bus)
    → bus.responses ≡ []
    → handle_response now bus ≡ record bus { responses = [] }
unfolding handle_response deliver_all
handle_response_idle now bus e = ground (arith, e)
