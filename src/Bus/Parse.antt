-- ===== src/Bus/Parse.antt =====
-- `parse_packet` of src/apix.c: the packets in the buffer of a descriptor go into the queues.
pub mod Ends
pub mod Kinds
pub mod Accept
mod Examples
use extlib.Common.{
  ℕ, zero, suc, ◌+◌, ◌-◌, Bool, true, false, Option, none, some, List, [], ◌∷◌, ◌||◌, ltb, ◌==◌,
  if◌then◌else◌, drop, get_or, Outcome, ok, fault, ◌>>=◌, ◌>>◌, assert, Bytes,
}
use extlib.Atbuf.{Atbuf, used, read_advance}
use extlib.Crc16.{crc16, crc16_crc}
use extlib.Srrp.{
  Packet, request_leader, response_leader, subscribe_leader, unsubscribe_leader, publish_leader,
}
use extlib.Srrp.Read.{read_one_packet}
use extlib.Srrp.Next.{next_packet_offset}
use extlib.Bus.{Bus, Request, Response, TopicMsg, SinkFd, fresh}

-- `PARSE_PACKET_TIMEOUT`, in seconds
abbrev pub parse_packet_timeout : ℕ
parse_packet_timeout = 1

-- the memory from `atbuf_read_pos` on, and the byte in front of it
abbrev pub unread_memory : Atbuf → Bytes
unread_memory b = drop b.offset_out b.rawbuf

abbrev pub byte_before_unread : Atbuf → Option ℕ
byte_before_unread b =
    if b.offset_out == 0 then none else some (get_or b.rawbuf (b.offset_out - 1) 0)

-- the request that a packet read from `fd` becomes
abbrev pub request_of : ℕ → ℕ → Packet → Request
request_of now fd pac = record {
  pac = pac;
  state = fresh;
  ts_create = now;
  ts_send = 0;
  fd = fd;
  crc16 = crc16_crc (crc16 pac.header) pac.data_text;
}

-- the queue that the packet's leader stands for
pub enqueue : ℕ → ℕ → Packet → Bus → Bus
enqueue now fd pac bus =
    if pac.leader == request_leader
    then record bus { requests = request_of now fd pac ∷ bus.requests }
    else if pac.leader == response_leader
    then record bus { responses = record { pac = pac; fd = fd } ∷ bus.responses }
    else if (pac.leader == subscribe_leader)
        || ((pac.leader == unsubscribe_leader) || (pac.leader == publish_leader))
    then record bus { topic_msgs = record { pac = pac; fd = fd } ∷ bus.topic_msgs }
    else bus

-- What cannot be a packet is skipped: all of it, or up to what looks like the next packet.
skip : SinkFd → Option ℕ → Outcome SinkFd
skip s none = do (_, b) ← read_advance s.rxbuf (used s.rxbuf); ok (record s { rxbuf = b })
skip s (some zero) = do (_, b) ← read_advance s.rxbuf (used s.rxbuf); ok (record s { rxbuf = b })
skip s (some (suc i)) = do
  assert (ltb (suc i) (used s.rxbuf))
  (_, b) ← read_advance s.rxbuf (suc i)
  ok (record s { rxbuf = b })

-- The branch without a packet, for a while in the hope of more bytes.
give_up : ℕ → SinkFd → Outcome SinkFd
unfolding skip
give_up now s = if ltb now (s.ts_poll_recv.0 + parse_packet_timeout) then ok s else do
  offset ← next_packet_offset (byte_before_unread s.rxbuf) (unread_memory s.rxbuf)
  skip s offset

-- why the loop stopped
pub data End : Type 0 where
  emptied broke out_of_rounds : End

-- The loop, with a bound for its rounds.
parse_loop : ℕ → ℕ → SinkFd → Bus → Outcome (End × SinkFd × Bus)
unfolding give_up enqueue
parse_loop zero now s bus = ok (out_of_rounds, s, bus)
parse_loop (suc k) now s bus = elim (used s.rxbuf == 0) [
  | true ↦ ok (emptied, s, bus)
  | false ↦ read_one_packet (unread_memory s.rxbuf) >>= λ found. elim found [
    | none ↦ give_up now s >>= λ s'. ok (broke, s', bus)
    | some pac ↦ read_advance s.rxbuf pac.len >>= λ (_, b).
        parse_loop k now (record s { rxbuf = b }) (enqueue now s.fd pac bus)
  ]
]

-- A round takes at least one byte, so there are fewer rounds than bytes and one.
pub parse_packet : ℕ → SinkFd → Bus → Outcome (End × SinkFd × Bus)
unfolding parse_loop
parse_packet now s bus = parse_loop (suc (used s.rxbuf)) now s bus
