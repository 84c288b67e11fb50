-- ===== src/Bus/Poll/Response.antt =====
-- A response through one call of `apibus_poll`.
use mathlib.Core.Path.{subst}
use extlib.Common.{
  ℕ, ◌+◌, ◌<◌, ◌≡◌, refl, ap, ◌∙◌, List, [], ◌∷◌, ◌++◌, arith, take, take_all, Outcome, ok, ◌>>=◌,
  Rc,
}
use extlib.Atbuf.{Atbuf}
use extlib.Atbuf.Inv.{IsValid, contents}
use extlib.Srrp.{Packet, response_leader}
use extlib.Bus.{Bus, Request, Response, Station, SinkFd, waiting, request_timeout, clear_unalive}
use extlib.Bus.Sending.{Reachable}
use extlib.Bus.Requests.Forward.{handle_request_waiting}
use extlib.Bus.Responses.Deliver.{IsReply}
use extlib.Bus.Responses.Single.{handle_response-replies}
use extlib.Bus.Topics.Laws.{handle_topic_msg_idle}
use extlib.Bus.Parse.Accept.{enqueue-response}
use extlib.Bus.Poll.{handle_messages, poll_each, apibus_poll}
use extlib.Bus.Poll.Parsed.{HoldsPacket, parsed, apibus_poll-parsed, Reachable-Replaces}

-- the handlers on a bus with a request that waits and a response to it
handle_messages-answers :
    (now : ℕ) (q : Request) (resp : Response) (bus : Bus)
    → bus.requests ≡ q ∷ []
    → q.state ≡ waiting
    → now < q.ts_send + request_timeout
    → bus.responses ≡ resp ∷ []
    → bus.topic_msgs ≡ []
    → IsReply resp q
    → Reachable bus.sinkfds q.fd
    → (ss : List Station) × (handle_messages now bus
        ≡ ok (record bus {
          requests = [];
          responses = [];
          topic_msgs = [];
          stations = ss;
          sent = bus.sent ++ ((q.fd, take resp.pac.len resp.pac.raw) ∷ []);
        }))
unfolding handle_messages
handle_messages-answers now q resp bus one w early arrived no_msgs reply h =
    let p = handle_request_waiting now q bus one w early in
    let (ss, d) =
      handle_response-replies now resp q (record bus { requests = q ∷ [] }) arrived refl reply h in
    let c = record bus {
      requests = [];
      responses = [];
      stations = ss;
      sent = bus.sent ++ ((q.fd, take resp.pac.len resp.pac.raw) ∷ []);
    } in
    let t = handle_topic_msg_idle c no_msgs in (clear_unalive now ss, rw (p, d, t) refl)

-- A bus where `q` waits with time left, and the reply `pac` to it is all that there is to read, in the
-- buffer of `server`.
pub record HoldsReply (now : ℕ) (bus : Bus) (xs : List SinkFd) (server : SinkFd) (ys : List SinkFd)
    (pac : Packet) (q : Request) : Type 0 where
  pub one_request : bus.requests ≡ q ∷ []
  pub waits : q.state ≡ waiting
  pub in_time : now < q.ts_send + request_timeout
  pub no_responses : bus.responses ≡ []
  pub no_topic_msgs : bus.topic_msgs ≡ []
  pub packet : HoldsPacket bus xs server ys pac
  pub response : pac.leader ≡ response_leader
  pub reply : IsReply (record { pac = pac; fd = server.fd }) q

-- One call of `apibus_poll` takes the reply to a request that waits, where it is all that there is to
-- read, out of its buffer, passes its bytes on to the sender of the request, and deletes both; it
-- sends nothing else.
pub apibus_poll-answers :
    {K : Type 0} (poll : K → Bus → Outcome (Rc × K × Bus)) (poll_ts : ℕ × ℕ) (now : ℕ)
    (sinks ks : List K) (bus b : Bus) (xs : List SinkFd) (server : SinkFd) (ys : List SinkFd)
    (pac : Packet) (q : Request)
    → poll_each poll sinks (record bus { poll_cnt = 0 }) ≡ ok (ks, b)
    → HoldsReply now b xs server ys pac q
    → Reachable b.sinkfds q.fd
    → (buf : Atbuf) × (c : Bus) × (apibus_poll poll poll_ts now sinks bus ≡ ok (ks, c))
      × (c.requests ≡ [])
      × (c.responses ≡ [])
      × (c.topic_msgs ≡ [])
      × (c.sinkfds ≡ xs ++ (record server { rxbuf = buf } ∷ ys))
      × (contents buf ≡ [])
      × IsValid buf
      × (c.sent ≡ b.sent ++ ((q.fd, pac.raw) ∷ []))
apibus_poll-answers poll poll_ts now sinks ks bus b xs server ys pac q polled h reach =
    let (us, cnt, buf, left, v, drained) =
      apibus_poll-parsed poll poll_ts now sinks ks bus b xs server ys pac polled h.packet in
    let resp : Response = record { pac = pac; fd = server.fd } in
    let start = record b { poll_cnt = cnt } in
    let here : Bus = record start {
      responses = resp ∷ [];
      sinkfds = xs ++ (record server { rxbuf = buf } ∷ ys);
      idle_usec = us;
    } in
    let queued : record (parsed now xs server buf ys pac start) { idle_usec = us } ≡ here =
      ap
        (λ (c : Bus). record c {
          sinkfds = xs ++ (record server { rxbuf = buf } ∷ ys);
          idle_usec = us;
        })
        (enqueue-response now server.fd pac start h.response)
      ∙ ap (λ rs. record here { responses = resp ∷ rs }) h.no_responses in
    let there =
      Reachable-Replaces xs server (record server { rxbuf = buf }) ys q.fd (refl, refl)
        (subst (λ ss. Reachable ss q.fd) h.packet.descriptors reach) in
    let (ss, handled) =
      handle_messages-answers now q resp here h.one_request h.waits h.in_time refl h.no_topic_msgs
        h.reply there in
    let counted = h.packet.readable.counted in
    let whole : take pac.len pac.raw ≡ pac.raw = take_all pac.len pac.raw (omega arith) in
    (
      buf,
      record here {
        requests = [];
        responses = [];
        topic_msgs = [];
        stations = ss;
        sent = b.sent ++ ((q.fd, take pac.len pac.raw) ∷ []);
      },
      left
          ∙ ap (λ c. handle_messages now c >>= λ d. ok (ks, d)) queued
          ∙ ap (λ (o : Outcome Bus). o >>= λ d. ok (ks, d)) handled,
      refl,
      refl,
      refl,
      refl,
      drained,
      v,
      ap (λ w. b.sent ++ ((q.fd, w) ∷ [])) whole,
    )
