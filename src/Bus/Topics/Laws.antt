-- ===== src/Bus/Topics/Laws.antt =====
-- What the topic handlers do: who gets a published message, and when a subscription fails.
use mathlib.Core.Path.{subst}
use extlib.Common.{
  ℕ, ◌≡◌, refl, sym, ap, ◌∙◌, ◌⊎◌, inl, inr, Option, none, some, List, [], ◌∷◌, ◌++◌, append-nil,
  append_assoc, arith, ◌==◌, if◌then◌else◌, All, In, Bool-cases, take, Outcome, ok, fault, Bytes,
}
use extlib.Text.{codes, starts}
use extlib.Srrp.{subscribe_leader, unsubscribe_leader}
use extlib.Bus.{Bus, Topic, TopicMsg, send}
use extlib.Bus.Sending.{Reachable, send-Reachable, topics-send}
use extlib.Bus.Topics.{
  subscribe, leave, unsubscribe, find_topic, send_all, publish, dispatch, dispatch_all,
  handle_topic_msg,
}

-- one message for each of `fds`, in order
abbrev pub copies : List ℕ → Bytes → List (ℕ × Bytes)
copies [] buf = []
copies (fd ∷ fds) buf = (fd, buf) ∷ copies fds buf

send_all-copies :
    (fds : List ℕ) (buf : Bytes) (bus : Bus)
    → All (Reachable bus.sinkfds) fds
    → send_all fds buf bus ≡ record bus { sent = bus.sent ++ copies fds buf }
unfolding send_all
send_all-copies [] buf bus h = λ i. record bus { sent = sym (append-nil bus.sent) i }
send_all-copies (fd ∷ fds) buf bus (h, hs) =
    let next = record bus { sent = bus.sent ++ ((fd, buf) ∷ []) } in
    ap (send_all fds buf) (send-Reachable bus fd buf h)
    ∙ send_all-copies fds buf next hs
    ∙ (λ i. record bus { sent = append_assoc bus.sent ((fd, buf) ∷ []) (copies fds buf) i })

-- A published message goes whole, once and in order, to each subscriber of the topic that is found,
-- and nothing else of the bus changes.
pub publish-copies :
    (m : TopicMsg) (bus : Bus) (t : Topic)
    → find_topic m.pac.header bus.topics ≡ some t
    → All (Reachable bus.sinkfds) t.fds
    → publish m bus ≡ record bus { sent = bus.sent ++ copies t.fds (take m.pac.len m.pac.raw) }
unfolding publish
publish-copies m bus t e h = ground (arith, send_all-copies t.fds (take m.pac.len m.pac.raw) bus h)

-- the bus after the first subscription
abbrev subscribed : TopicMsg → Bus → Bus
subscribed sub bus = record bus {
  topics = record { header = sub.pac.header; fds = sub.fd ∷ [] } ∷ [];
  sent = bus.sent ++ ((sub.fd, codes "Sub OK") ∷ []);
}

subscribe-first :
    (sub : TopicMsg) (bus : Bus)
    → bus.topics ≡ []
    → Reachable bus.sinkfds sub.fd
    → subscribe sub bus ≡ ok (subscribed sub bus)
unfolding subscribe
subscribe-first sub bus empty h =
    let topics : List Topic = record { header = sub.pac.header; fds = sub.fd ∷ [] } ∷ [] in
    ground (arith, send-Reachable (record bus { topics = topics }) sub.fd (codes "Sub OK") h)

published :
    (m sub : TopicMsg) (bus : Bus)
    → Reachable bus.sinkfds sub.fd
    → (publish m (subscribed sub bus)).sent
      ≡ bus.sent
        ++ ((sub.fd, codes "Sub OK")
            ∷ (if starts m.pac.header sub.pac.header
                then (sub.fd, take m.pac.len m.pac.raw) ∷ []
                else []))
unfolding publish find_topic send_all
published m sub bus h = elim (Bool-cases (starts m.pac.header sub.pac.header)) [
  | inl hit ↦
      let buf = take m.pac.len m.pac.raw in
      ground (
        arith,
        send-Reachable (subscribed sub bus) sub.fd buf h,
        append_assoc bus.sent ((sub.fd, codes "Sub OK") ∷ []) ((sub.fd, buf) ∷ []),
      )
  | inr miss ↦ ground arith
]

-- On a bus without topics, a subscriber that can be reached is told so, and a message published
-- after that reaches it exactly if the message's header is a beginning of the one subscribed to.
pub subscribe-publish :
    (sub m : TopicMsg) (bus : Bus)
    → bus.topics ≡ []
    → Reachable bus.sinkfds sub.fd
    → (b : Bus) × (subscribe sub bus ≡ ok b)
      × ((publish m b).sent
          ≡ bus.sent
            ++ ((sub.fd, codes "Sub OK")
                ∷ (if starts m.pac.header sub.pac.header
                    then (sub.fd, take m.pac.len m.pac.raw) ∷ []
                    else [])))
subscribe-publish sub m bus empty h =
    let b = subscribed sub bus in (b, subscribe-first sub bus empty h, published m sub bus h)

-- A bus with a topic.
abbrev pub HasTopic : Bus → Type 0
HasTopic bus = (t : Topic) × (ts : List Topic) × (bus.topics ≡ t ∷ ts)

-- A step either faults or leaves a bus that still has a topic.
abbrev FaultsOrKeeps : Outcome Bus → Type 0
FaultsOrKeeps r = (r ≡ fault) ⊎ ((b : Bus) × (r ≡ ok b) × HasTopic b)

leave-HasTopic :
    (header : Bytes) (fd : ℕ) (t : Topic) (ts us : List Topic)
    → leave header fd (t ∷ ts) ≡ some us
    → (t' : Topic) × (ts' : List Topic) × (us ≡ t' ∷ ts')
unfolding leave
leave-HasTopic header fd t ts [] e = absurd (ground arith)
leave-HasTopic header fd t ts (u ∷ us) e = (u, us, refl)

HasTopic-send : (bus : Bus) (fd : ℕ) (buf : Bytes) → HasTopic bus → HasTopic (send bus fd buf)
HasTopic-send bus fd buf (t, ts, e) = (t, ts, topics-send bus fd buf ∙ e)

HasTopic-send_all :
    (fds : List ℕ) (buf : Bytes) (bus : Bus) → HasTopic bus → HasTopic (send_all fds buf bus)
unfolding send_all
HasTopic-send_all [] buf bus h = h
HasTopic-send_all (fd ∷ fds) buf bus h =
    HasTopic-send_all fds buf (send bus fd buf) (HasTopic-send bus fd buf h)

unsubscribe-FaultsOrKeeps :
    (m : TopicMsg) (bus : Bus) → HasTopic bus → FaultsOrKeeps (unsubscribe m bus)
unfolding unsubscribe
unsubscribe-FaultsOrKeeps m bus (t, ts, e) = by_left (leave m.pac.header m.fd bus.topics) refl
  where
    by_left :
        (o : Option (List Topic))
        → leave m.pac.header m.fd bus.topics ≡ o
        → FaultsOrKeeps (unsubscribe m bus)
    by_left none k = inl (ground arith)
    by_left (some us) k = inr (
      send (record bus { topics = us }) m.fd (codes "Unsub OK"),
      ground arith,
      HasTopic-send (record bus { topics = us }) m.fd (codes "Unsub OK")
          (leave-HasTopic m.pac.header m.fd t ts us (rw (← e) k)),
    )

HasTopic-publish : (m : TopicMsg) (bus : Bus) → HasTopic bus → HasTopic (publish m bus)
unfolding publish
HasTopic-publish m bus h = by_found (find_topic m.pac.header bus.topics) refl
  where
    by_found :
        (o : Option Topic) → find_topic m.pac.header bus.topics ≡ o → HasTopic (publish m bus)
    by_found none k = let e : publish m bus ≡ bus = ground arith in subst HasTopic (sym e) h
    by_found (some t) k =
        let buf = take m.pac.len m.pac.raw in
        let e : publish m bus ≡ send_all t.fds buf bus = ground arith in
        subst HasTopic (sym e) (HasTopic-send_all t.fds buf bus h)

dispatch-FaultsOrKeeps : (m : TopicMsg) (bus : Bus) → HasTopic bus → FaultsOrKeeps (dispatch m bus)
unfolding dispatch subscribe
dispatch-FaultsOrKeeps m bus h = elim (Bool-cases (m.pac.leader == subscribe_leader)) [
  | inl joining ↦ inl (let e = h.2 in ground arith)
  | inr other ↦ elim (Bool-cases (m.pac.leader == unsubscribe_leader)) [
    | inl leaving ↦ rw (other, leaving) (unsubscribe-FaultsOrKeeps m bus h)
    | inr publishing ↦ rw (other, publishing) (inr (publish m bus, refl, HasTopic-publish m bus h))
  ]
]

-- Once the bus has a topic, a queue with a subscription in it faults, whatever stands before it.
pub dispatch_all-fault :
    (m : TopicMsg) (ms : List TopicMsg) (bus : Bus)
    → In m ms
    → m.pac.leader ≡ subscribe_leader
    → HasTopic bus
    → dispatch_all ms bus ≡ fault
unfolding dispatch_all dispatch subscribe
dispatch_all-fault m [] bus i joining h = absurd i
dispatch_all-fault m (x ∷ ms) bus (inl e) joining (t, ts, h) =
    let k : x.pac.leader ≡ subscribe_leader = ap (λ y. y.pac.leader) (sym e) ∙ joining in
    ground arith
dispatch_all-fault m (x ∷ ms) bus (inr there) joining h = elim (dispatch-FaultsOrKeeps x bus h) [
  | inl e ↦ ground arith
  | inr kept ↦
      let e = kept.1 in
      let rest = dispatch_all-fault m ms kept.0 there joining kept.2 in ground arith
]

-- Without a topic message there is nothing to do.
pub handle_topic_msg_idle :
    (bus : Bus) → bus.topic_msgs ≡ [] → handle_topic_msg bus ≡ ok (record bus { topic_msgs = [] })
unfolding handle_topic_msg dispatch_all
handle_topic_msg_idle bus e = ground arith
