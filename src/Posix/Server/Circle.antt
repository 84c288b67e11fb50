-- ===== src/Posix/Server/Circle.antt =====
-- A request and its response through two calls of `apibus_poll`, from socket to socket.
use mathlib.Core.Path.{subst}
use extlib.Common.{
  ℕ, ◌+◌, ◌<◌, ◌≡◌, refl, sym, ap, ◌∙◌, false, some, List, [], ◌∷◌, ◌++◌, arith, ◌==◌, length, All,
  ok,
}
use extlib.Atbuf.{Atbuf}
use extlib.Atbuf.Inv.{IsValid, contents}
use extlib.Srrp.{Packet, request_leader, response_leader}
use extlib.Srrp.Read.Length.{IsReadable}
use extlib.Bus.{Bus, Request, Station, SinkFd, find_sinkfd, find_dst, request_timeout, waiting}
use extlib.Bus.Sending.{Reachable}
use extlib.Bus.Requests.{note_source}
use extlib.Bus.Requests.Ways.{forwarded}
use extlib.Bus.Responses.Deliver.{IsReply}
use extlib.Bus.Parse.{request_of}
use extlib.Bus.Parse.Ends.{used-contents}
use extlib.Bus.Poll.{apibus_poll}
use extlib.Bus.Poll.Parsed.{IsDrained, Replaces, Reachable-Replaces}
use extlib.Bus.Poll.Request.{HoldsRequest, apibus_poll-passes}
use extlib.Bus.Poll.Response.{HoldsReply, apibus_poll-answers}
use extlib.Posix.Ops.{System, LiveSink, poll_sink}
use extlib.Posix.Server.{Brings}
use extlib.Posix.Server.Replaced.{All-replaced, find_sinkfd-other}
use extlib.Posix.Server.Turn.{AllDrained, received, turned, Turn, Brings-Turn}

-- Nothing to do but the requests, and nothing to read.
pub record Holds (bus : Bus) (requests : List Request) : Type 0 where
  pub pending : bus.requests ≡ requests
  pub no_responses : bus.responses ≡ []
  pub no_topic_msgs : bus.topic_msgs ≡ []
  pub drained : AllDrained bus

-- `c` has the descriptors of `bus`, with `client` in another state.
pub record SameBut (client : SinkFd) (bus c : Bus) : Type 0 where
  pub found :
      (fd : ℕ) → (client.fd == fd) ≡ false → find_sinkfd c.sinkfds fd ≡ find_sinkfd bus.sinkfds fd
  pub reached : (fd : ℕ) → Reachable bus.sinkfds fd → Reachable c.sinkfds fd

replaced-SameBut :
    (xs : List SinkFd) (client t : SinkFd) (ys : List SinkFd) (bus c : Bus)
    → bus.sinkfds ≡ xs ++ (client ∷ ys)
    → Replaces t client
    → c.sinkfds ≡ xs ++ (t ∷ ys)
    → SameBut client bus c
replaced-SameBut xs client t ys bus c e r f = record {
  found = λ fd k.
      ap (λ ss. find_sinkfd ss fd) f
      ∙ find_sinkfd-other xs client t ys fd r.0 k
      ∙ ap (λ ss. find_sinkfd ss fd) (sym e);
  reached = λ fd k.
      subst (λ ss. Reachable ss fd) (sym f)
        (Reachable-Replaces xs client t ys fd r (subst (λ ss. Reachable ss fd) e k));
}

replaced-drained :
    (sys : System) (lives : List LiveSink) (bus c : Bus) (s : SinkFd) (pac : Packet) (buf : Atbuf)
    (t : Turn sys lives bus s pac)
    → c.sinkfds ≡ t.xs ++ (record (received sys s t.buf) { rxbuf = buf } ∷ t.ys)
    → IsValid buf
    → contents buf ≡ []
    → AllDrained c
replaced-drained sys lives bus c s pac buf t e v k =
    let last = record (received sys s t.buf) { rxbuf = buf } in
    let empty : IsDrained last = ground (arith, used-contents buf v, ap length k) in
    subst (All IsDrained) (sym e)
      (All-replaced IsDrained t.xs last t.ys t.holds.before_drained empty t.holds.behind_drained)

-- One call with a request to read.
pub apibus_poll-takes_request :
    (sys : System) (ts : ℕ × ℕ) (now : ℕ) (lives : List LiveSink) (bus : Bus) (client : SinkFd)
    (req : Packet) (dst : Station)
    → Holds bus []
    → IsReadable req
    → req.leader ≡ request_leader
    → Brings sys lives bus client req.raw
    → find_dst (note_source now (request_of now client.fd req) bus) req.header ≡ some dst
    → Reachable bus.sinkfds dst.fd
    → (c : Bus) × (apibus_poll (poll_sink sys) ts now lives bus ≡ ok (lives, c))
      × Holds c (forwarded now (request_of now client.fd req) ∷ [])
      × SameBut client bus c
      × (c.sent ≡ bus.sent ++ ((dst.fd, req.raw) ∷ []))
unfolding note_source
apibus_poll-takes_request sys ts now lives bus client req dst rest r leader arrives known reach =
    let t = Brings-Turn sys lives bus client req rest.drained r arrives in
    let s = received sys client t.buf in
    let b = turned sys t.xs client t.buf t.ys bus in
    let turn : SameBut client bus b =
      replaced-SameBut t.xs client s t.ys bus b t.first.split (refl, refl) refl in
    let holds : HoldsRequest b t.xs s t.ys req = record {
      no_requests = rest.pending;
      no_responses = rest.no_responses;
      no_topic_msgs = rest.no_topic_msgs;
      packet = t.holds;
      request = leader;
    } in
    let (buf, c, e, pending, no_responses, no_topic_msgs, descriptors, empty, v, sent) =
      apibus_poll-passes (poll_sink sys) ts now lives lives bus b t.xs s t.ys req dst t.polled holds
        known (turn.reached dst.fd reach) in
    (
      c,
      e,
      record {
        pending = pending;
        no_responses = no_responses;
        no_topic_msgs = no_topic_msgs;
        drained = replaced-drained sys lives bus c client req buf t descriptors v empty;
      },
      replaced-SameBut t.xs client _ t.ys bus c t.first.split (refl, refl) descriptors,
      sent,
    )

-- One call with the reply to the request that waits.
pub apibus_poll-takes_reply :
    (sys : System) (ts : ℕ × ℕ) (now : ℕ) (lives : List LiveSink) (bus : Bus) (server : SinkFd)
    (resp : Packet) (q : Request)
    → Holds bus (q ∷ [])
    → q.state ≡ waiting
    → now < q.ts_send + request_timeout
    → IsReadable resp
    → resp.leader ≡ response_leader
    → IsReply (record { pac = resp; fd = server.fd }) q
    → Brings sys lives bus server resp.raw
    → Reachable bus.sinkfds q.fd
    → (d : Bus) × (apibus_poll (poll_sink sys) ts now lives bus ≡ ok (lives, d))
      × Holds d []
      × (d.sent ≡ bus.sent ++ ((q.fd, resp.raw) ∷ []))
apibus_poll-takes_reply sys ts now lives bus server resp q h w early r leader reply arrives reach =
    let t = Brings-Turn sys lives bus server resp h.drained r arrives in
    let s = received sys server t.buf in
    let b = turned sys t.xs server t.buf t.ys bus in
    let turn : SameBut server bus b =
      replaced-SameBut t.xs server s t.ys bus b t.first.split (refl, refl) refl in
    let holds : HoldsReply now b t.xs s t.ys resp q = record {
      one_request = h.pending;
      waits = w;
      in_time = early;
      no_responses = h.no_responses;
      no_topic_msgs = h.no_topic_msgs;
      packet = t.holds;
      response = leader;
      reply = reply;
    } in
    let (buf, d, e, pending, no_responses, no_topic_msgs, descriptors, empty, v, sent) =
      apibus_poll-answers (poll_sink sys) ts now lives lives bus b t.xs s t.ys resp q t.polled holds
        (turn.reached q.fd reach) in
    (
      d,
      e,
      record {
        pending = pending;
        no_responses = no_responses;
        no_topic_msgs = no_topic_msgs;
        drained = replaced-drained sys lives bus d server resp buf t descriptors v empty;
      },
      sent,
    )
