-- ===== src/Bus/Poll/Request.antt =====
-- A request through one call of `apibus_poll`.
use mathlib.Core.Path.{subst}
use extlib.Common.{
  ℕ, ◌≡◌, refl, ap, ◌∙◌, some, List, [], ◌∷◌, ◌++◌, arith, take, take_all, Outcome, ok, ◌>>=◌, Rc,
}
use extlib.Atbuf.{Atbuf}
use extlib.Atbuf.Inv.{IsValid, contents}
use extlib.Srrp.{Packet, request_leader}
use extlib.Bus.{Bus, Request, Station, SinkFd, fresh, find_dst, clear_unalive}
use extlib.Bus.Sending.{Reachable}
use extlib.Bus.Requests.{note_source}
use extlib.Bus.Requests.Ways.{forwarded}
use extlib.Bus.Requests.Forward.{after_request, handle_request-passes}
use extlib.Bus.Responses.Calm.{handle_response_idle}
use extlib.Bus.Topics.Laws.{handle_topic_msg_idle}
use extlib.Bus.Parse.{request_of}
use extlib.Bus.Parse.Accept.{enqueue-request}
use extlib.Bus.Poll.{handle_messages, poll_each, apibus_poll}
use extlib.Bus.Poll.Parsed.{HoldsPacket, parsed, apibus_poll-parsed, Reachable-Replaces}

-- the handlers on a bus with one new request and nothing else
handle_messages-passes :
    (now : ℕ) (r : Request) (bus : Bus) (dst : Station)
    → bus.requests ≡ r ∷ []
    → bus.responses ≡ []
    → bus.topic_msgs ≡ []
    → r.state ≡ fresh
    → find_dst (note_source now r bus) r.pac.header ≡ some dst
    → Reachable bus.sinkfds dst.fd
    → let c = after_request now r dst bus in
      handle_messages now bus
      ≡ ok (record c { responses = []; topic_msgs = []; stations = clear_unalive now c.stations })
unfolding handle_messages note_source
handle_messages-passes now r bus dst one no_responses no_msgs s e h =
    let c = after_request now r dst bus in
    let p = handle_request-passes now r bus dst one s e h in
    let q = handle_response_idle now c no_responses in
    let t = handle_topic_msg_idle (record c { responses = [] }) no_msgs in rw (p, q, t) refl

-- A bus where a request `pac` is all that there is to read, in the buffer of `client`.
pub record HoldsRequest (bus : Bus) (xs : List SinkFd) (client : SinkFd) (ys : List SinkFd)
    (pac : Packet) : Type 0 where
  pub no_requests : bus.requests ≡ []
  pub no_responses : bus.responses ≡ []
  pub no_topic_msgs : bus.topic_msgs ≡ []
  pub packet : HoldsPacket bus xs client ys pac
  pub request : pac.leader ≡ request_leader

-- One call of `apibus_poll` takes a request that is all that there is to read out of its buffer,
-- passes its bytes on to the station that its header names, and keeps it waiting with the time of
-- that; it sends nothing else.
pub apibus_poll-passes :
    {K : Type 0} (poll : K → Bus → Outcome (Rc × K × Bus)) (poll_ts : ℕ × ℕ) (now : ℕ)
    (sinks ks : List K) (bus b : Bus) (xs : List SinkFd) (client : SinkFd) (ys : List SinkFd)
    (pac : Packet) (dst : Station)
    → poll_each poll sinks (record bus { poll_cnt = 0 }) ≡ ok (ks, b)
    → HoldsRequest b xs client ys pac
    → find_dst (note_source now (request_of now client.fd pac) b) pac.header ≡ some dst
    → Reachable b.sinkfds dst.fd
    → (buf : Atbuf) × (c : Bus) × (apibus_poll poll poll_ts now sinks bus ≡ ok (ks, c))
      × (c.requests ≡ forwarded now (request_of now client.fd pac) ∷ [])
      × (c.responses ≡ [])
      × (c.topic_msgs ≡ [])
      × (c.sinkfds ≡ xs ++ (record client { rxbuf = buf } ∷ ys))
      × (contents buf ≡ [])
      × IsValid buf
      × (c.sent ≡ b.sent ++ ((dst.fd, pac.raw) ∷ []))
unfolding note_source
apibus_poll-passes poll poll_ts now sinks ks bus b xs client ys pac dst polled h known reach =
    let (us, cnt, buf, left, v, drained) =
      apibus_poll-parsed poll poll_ts now sinks ks bus b xs client ys pac polled h.packet in
    let r = request_of now client.fd pac in
    let start = record b { poll_cnt = cnt } in
    let q : Bus = record start {
      requests = r ∷ [];
      sinkfds = xs ++ (record client { rxbuf = buf } ∷ ys);
      idle_usec = us;
    } in
    let queued : record (parsed now xs client buf ys pac start) { idle_usec = us } ≡ q =
      ap
        (λ (c : Bus). record c {
          sinkfds = xs ++ (record client { rxbuf = buf } ∷ ys);
          idle_usec = us;
        })
        (enqueue-request now client.fd pac start h.request)
      ∙ ap (λ rs. record q { requests = r ∷ rs }) h.no_requests in
    let there =
      Reachable-Replaces xs client (record client { rxbuf = buf }) ys dst.fd (refl, refl)
        (subst (λ ss. Reachable ss dst.fd) h.packet.descriptors reach) in
    let handled =
      handle_messages-passes now r q dst refl h.no_responses h.no_topic_msgs refl known there in
    let counted = h.packet.readable.counted in
    let whole : take pac.len pac.raw ≡ pac.raw = take_all pac.len pac.raw (omega arith) in
    let done = after_request now r dst q in
    (
      buf,
      record done { responses = []; topic_msgs = []; stations = clear_unalive now done.stations },
      left
          ∙ ap (λ c. handle_messages now c >>= λ d. ok (ks, d)) queued
          ∙ ap (λ (o : Outcome Bus). o >>= λ d. ok (ks, d)) handled,
      refl,
      refl,
      refl,
      refl,
      drained,
      v,
      ap (λ w. b.sent ++ ((dst.fd, w) ∷ [])) whole,
    )
