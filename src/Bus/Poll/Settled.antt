-- ===== src/Bus/Poll/Settled.antt =====
-- What the handlers leave behind, together.
use extlib.Common.{ℕ, ◌+◌, ◌≤◌, ◌≡◌, refl, ◌∙◌, [], All, ok}
use extlib.Bus.{Bus, waiting, clear_unalive, station_alive_timeout}
use extlib.Bus.Stations.{Distinct, clear_unalive-Distinct, clear_unalive-alive}
use extlib.Bus.Requests.{handle_request}
use extlib.Bus.Requests.Laws.{handle_request-waiting}
use extlib.Bus.Requests.Table.{handle_request-Distinct, topic_msgs-handle_request}
use extlib.Bus.Responses.{handle_response}
use extlib.Bus.Responses.Calm.{Calm, handle_response-Calm}
use extlib.Bus.Topics.Laws.{handle_topic_msg_idle}
use extlib.Bus.Poll.{handle_messages}

handle_request-Calm :
    (now : ℕ) (bus : Bus)
    → Distinct bus.stations
    → bus.topic_msgs ≡ []
    → Calm (handle_request now bus)
handle_request-Calm now bus h e = (
  handle_request-waiting now bus,
  handle_request-Distinct now bus h,
  topic_msgs-handle_request now bus ∙ e,
)

-- Where no topic message is queued, the handlers come to an end; then every request waits, no
-- response is left, no two stations have one id, and each has been alive within the time-out.
pub handle_messages-settled :
    (now : ℕ) (bus : Bus)
    → Distinct bus.stations
    → bus.topic_msgs ≡ []
    → (b : Bus) × (handle_messages now bus ≡ ok b)
      × All (λ r. r.state ≡ waiting) b.requests
      × (b.responses ≡ [])
      × Distinct b.stations
      × All (λ s. now ≤ s.ts_alive + station_alive_timeout) b.stations
unfolding handle_messages
handle_messages-settled now bus h e =
    let r = handle_response now (handle_request now bus) in
    let done =
      handle_response-Calm now (handle_request now bus) (handle_request-Calm now bus h e) in
    (
      record r { topic_msgs = []; stations = clear_unalive now r.stations },
      rw (handle_topic_msg_idle r done.0.2) refl,
      done.0.0,
      done.1,
      clear_unalive-Distinct now r.stations done.0.1,
      clear_unalive-alive now r.stations,
    )
