-- ===== src/Bus/Parse/Kinds.antt =====
-- The three queues of src/apix.c after packets have come in, told by the leaders of the packets alone.
use extlib.Common.{
  ℕ, ◌≡◌, refl, ap, ◌∙◌, Bool, List, [], ◌∷◌, ◌++◌, append_assoc, arith, ◌==◌, ◌||◌, if◌then◌else◌,
}
use extlib.Crc16.{crc16}
use extlib.Crc16.Laws.{crc16_crc-append}
use extlib.Srrp.{
  Packet, request_leader, response_leader, subscribe_leader, unsubscribe_leader, publish_leader,
}
use extlib.Bus.{Bus, Request, Response, TopicMsg, fresh}
use extlib.Bus.Parse.{request_of, enqueue}

abbrev pub is_request : ℕ → Bool
is_request leader = leader == request_leader

abbrev pub is_response : ℕ → Bool
is_response leader = leader == response_leader

abbrev pub is_topic_msg : ℕ → Bool
is_topic_msg leader =
    (leader == subscribe_leader) || ((leader == unsubscribe_leader) || (leader == publish_leader))

-- a new request, with the checksum of the header and the data, one behind the other
abbrev pub new_request : ℕ → ℕ → Packet → Request
new_request now fd pac = record {
  pac = pac;
  state = fresh;
  ts_create = now;
  ts_send = 0;
  fd = fd;
  crc16 = crc16 (pac.header ++ pac.data_text);
}

abbrev pub new_response : ℕ → Packet → Response
new_response fd pac = record { pac = pac; fd = fd }

abbrev pub new_topic_msg : ℕ → Packet → TopicMsg
new_topic_msg fd pac = record { pac = pac; fd = fd }

abbrev pub one_if : {A : Type 0} → Bool → A → List A
one_if test a = if test then a ∷ [] else []

-- An entry for each packet whose leader is of the kind, the last packet first.
abbrev pub entries : {A : Type 0} → (ℕ → Bool) → (Packet → A) → List Packet → List A
entries kind make [] = []
entries kind make (pac ∷ pacs) = entries kind make pacs ++ one_if (kind pac.leader) (make pac)

-- the bus with an entry for each packet in the queue of its kind, in front of the older ones
abbrev pub received : ℕ → ℕ → List Packet → Bus → Bus
received now fd pacs bus = record bus {
  requests = entries is_request (new_request now fd) pacs ++ bus.requests;
  responses = entries is_response (new_response fd) pacs ++ bus.responses;
  topic_msgs = entries is_topic_msg (new_topic_msg fd) pacs ++ bus.topic_msgs;
}

-- the packets into their queues, one after the other
abbrev pub enqueue_all : ℕ → ℕ → List Packet → Bus → Bus
enqueue_all now fd [] bus = bus
enqueue_all now fd (pac ∷ pacs) bus = enqueue_all now fd pacs (enqueue now fd pac bus)

request_of-eq : (now fd : ℕ) (pac : Packet) → request_of now fd pac ≡ new_request now fd pac
unfolding crc16
request_of-eq now fd pac =
    ap (λ c. record (request_of now fd pac) { crc16 = c })
      (crc16_crc-append 0 pac.header pac.data_text)

abbrev added : ℕ → ℕ → Packet → Bus → Bus
added now fd pac bus = record bus {
  requests = one_if (is_request pac.leader) (new_request now fd pac) ++ bus.requests;
  responses = one_if (is_response pac.leader) (new_response fd pac) ++ bus.responses;
  topic_msgs = one_if (is_topic_msg pac.leader) (new_topic_msg fd pac) ++ bus.topic_msgs;
}

enqueue-added :
    (now fd : ℕ) (pac : Packet) (bus : Bus) → enqueue now fd pac bus ≡ added now fd pac bus
unfolding enqueue
enqueue-added now fd pac bus = ground (arith, request_of-eq now fd pac)

pub enqueue_all-received :
    (now fd : ℕ) (pacs : List Packet) (bus : Bus)
    → enqueue_all now fd pacs bus ≡ received now fd pacs bus
enqueue_all-received now fd [] bus = refl
enqueue_all-received now fd (pac ∷ pacs) bus =
    enqueue_all-received now fd pacs (enqueue now fd pac bus)
    ∙ ap (received now fd pacs) (enqueue-added now fd pac bus)
    ∙ grouped
  where
    grouped : received now fd pacs (added now fd pac bus) ≡ received now fd (pac ∷ pacs) bus
    grouped =
        rw
          (
            append_assoc (entries is_request (new_request now fd) pacs)
                (one_if (is_request pac.leader) (new_request now fd pac)) bus.requests,
            append_assoc (entries is_response (new_response fd) pacs)
                (one_if (is_response pac.leader) (new_response fd pac)) bus.responses,
            append_assoc (entries is_topic_msg (new_topic_msg fd) pacs)
                (one_if (is_topic_msg pac.leader) (new_topic_msg fd pac)) bus.topic_msgs,
          )
          refl
