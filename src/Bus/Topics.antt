-- ===== src/Bus/Topics.antt =====
-- `handle_topic_msg` of src/apix.c and the three handlers below it.
pub mod Laws
use extlib.Common.{
  ℕ, zero, suc, ◌+◌, ◌-◌, Option, none, some, List, [], ◌∷◌, ◌++◌, ltb, leb, ◌==◌, if◌then◌else◌,
  length, get_or, take, overwrite, Outcome, ok, fault, ◌>>=◌, Bytes,
}
use extlib.Text.{codes, same_text, starts}
use extlib.Srrp.{subscribe_leader, unsubscribe_leader}
use extlib.Bus.{Bus, Topic, TopicMsg, send}

-- `topic_sub_handler`. Its loop reads `topic->header` while `topic` is NULL, so a round of it is a
-- fault; without a topic there is no round, and a new topic is made. (A header is shorter than the
-- 128 bytes of a packet's field and fits the 256 of the topic's.)
pub subscribe : TopicMsg → Bus → Outcome Bus
subscribe tmsg bus = elim bus.topics [
  | [] ↦
      let topic : Topic = record { header = tmsg.pac.header; fds = tmsg.fd ∷ [] } in
      ok (send (record bus { topics = topic ∷ [] }) tmsg.fd (codes "Sub OK"))
  | t ∷ ts ↦ fault
]

-- The loop of `topic_unsub_handler` over the array: an entry that is `fd` is overwritten by the last
-- one, and the count falls. The first argument bounds the rounds left.
remove_fd : ℕ → ℕ → ℕ → List ℕ → List ℕ
remove_fd zero i fd fds = fds
remove_fd (suc k) i fd fds =
    let last = length fds - 1 in
    let next =
      if get_or fds i 0 == fd then take last (overwrite fds i (get_or fds last 0 ∷ [])) else fds in
    let rest = remove_fd k (i + 1) fd next in if ltb i (length fds) then rest else fds

-- The first topic with the header loses `fd`; `none` where no topic has the header.
pub leave : Bytes → ℕ → List Topic → Option (List Topic)
unfolding remove_fd
leave header fd [] = none
leave header fd (t ∷ ts) =
    let rest = leave header fd ts in
    if same_text t.header header
    then some (record t { fds = remove_fd (length t.fds) 0 fd t.fds } ∷ ts)
    else elim rest [ none ↦ none | some us ↦ some (t ∷ us) ]

-- `topic_unsub_handler`. Where its loop finds no topic, its cursor ends at the head of the list,
-- which is no topic, and the fields read through it lie elsewhere.
pub unsubscribe : TopicMsg → Bus → Outcome Bus
unsubscribe tmsg bus = elim (leave tmsg.pac.header tmsg.fd bus.topics) [
  | none ↦ fault
  | some topics ↦ ok (send (record bus { topics = topics }) tmsg.fd (codes "Unsub OK"))
]

-- `find_topic`: the header is compared in the length of the message's header only.
unfoldable pub find_topic : Bytes → List Topic → Option Topic
find_topic header [] = none
find_topic header (t ∷ ts) = if starts header t.header then some t else find_topic header ts

pub send_all : List ℕ → Bytes → Bus → Bus
send_all [] buf bus = bus
send_all (fd ∷ fds) buf bus = send_all fds buf (send bus fd buf)

-- `topic_pub_handler`
pub publish : TopicMsg → Bus → Bus
publish tmsg bus = elim (find_topic tmsg.pac.header bus.topics) [
  | none ↦ bus
  | some t ↦ send_all t.fds (take tmsg.pac.len tmsg.pac.raw) bus
]

-- One round of `handle_topic_msg`.
pub dispatch : TopicMsg → Bus → Outcome Bus
dispatch tmsg bus =
    if tmsg.pac.leader == subscribe_leader
    then subscribe tmsg bus
    else if tmsg.pac.leader == unsubscribe_leader
    then unsubscribe tmsg bus
    else ok (publish tmsg bus)

pub dispatch_all : List TopicMsg → Bus → Outcome Bus
dispatch_all [] bus = ok bus
dispatch_all (m ∷ ms) bus = do b ← dispatch m bus; dispatch_all ms b

pub handle_topic_msg : Bus → Outcome Bus
handle_topic_msg bus = do b ← dispatch_all bus.topic_msgs bus; ok (record b { topic_msgs = [] })
