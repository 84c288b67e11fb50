-- ===== src/Posix/Server/Serves.antt =====
-- The bus serves a request: the writers of src/srrp.c, the sockets of src/apix-posix.c and two calls of
-- `apibus_poll`.
use extlib.Common.{
  ℕ, ◌+◌, ◌<◌, ◌≡◌, refl, ap, ◌∙◌, false, some, List, [], ◌∷◌, ◌++◌, append_assoc, arith, ◌==◌, ok,
  Bytes,
}
use extlib.Crc16.{crc16, crc16_crc}
use extlib.Crc16.Laws.{AreBytes, crc16_crc-xmodem}
use extlib.Srrp.{Packet}
use extlib.Srrp.Write.{write_request, write_response}
use extlib.Srrp.RoundTrip.{IsMessage, FitRequest, request_packet, write_request-IsReadable}
use extlib.Srrp.RoundTrip.Response.{FitResponse, response_packet, write_response-IsResponse}
use extlib.Bus.{Bus, Station, SinkFd, find_dst, request_timeout}
use extlib.Bus.Sending.{Reachable}
use extlib.Bus.Requests.{note_source}
use extlib.Bus.Requests.Ways.{forwarded}
use extlib.Bus.Responses.Deliver.{IsReply}
use extlib.Bus.Parse.{request_of}
use extlib.Bus.Poll.{apibus_poll}
use extlib.Posix.Ops.{System, LiveSink, poll_sink}
use extlib.Posix.Server.{Brings}
use extlib.Posix.Server.Turn.{Brings-other_bus}
use extlib.Posix.Server.Circle.{Holds, apibus_poll-takes_request, apibus_poll-takes_reply}

-- the checksum by which a response names its request
abbrev pub request_crc : Bytes → Bytes → ℕ
request_crc header text = crc16_crc (crc16 (b'/' ∷ header)) (b'{' ∷ text)

-- What a client asks and a station answers: texts that a packet can carry.
pub record Talk (srcid : ℕ) (header text answer : Bytes) : Type 0 where
  pub source_fits : srcid < 65536
  pub asked : IsMessage header text
  pub answered : IsMessage header answer
  pub asked_fits : FitRequest header text
  pub answered_fits : FitResponse header answer
  pub header_bytes : AreBytes header
  pub text_bytes : AreBytes text

-- the two packets
abbrev pub asks : ℕ → Bytes → Bytes → Packet
asks srcid header text = request_packet srcid header text

abbrev pub replies : ℕ → Bytes → Bytes → Bytes → Packet
replies srcid header text answer = response_packet srcid (request_crc header text) header answer

request_crc-below :
    (srcid : ℕ) (header text answer : Bytes)
    → Talk srcid header text answer
    → request_crc header text < 65536
unfolding crc16
request_crc-below srcid header text answer h =
    let path = crc16_crc-xmodem 0 (b'/' ∷ header) (omega arith) (omega arith, h.header_bytes) in
    let whole =
      crc16_crc-xmodem (crc16 (b'/' ∷ header)) (b'{' ∷ text) path.1 (omega arith, h.text_bytes) in
    whole.1

-- A client's request and its station's answer, each all that there is to receive when its turn comes.
pub record Exchange (sys sys' : System) (lives : List LiveSink) (bus : Bus) (client server : SinkFd)
    (req resp : Packet) : Type 0 where
  pub at_rest : Holds bus []
  pub request_arrives : Brings sys lives bus client req.raw
  pub reply_arrives : Brings sys' lives bus server resp.raw
  pub two_sockets : (client.fd == server.fd) ≡ false
  pub to_client : Reachable bus.sinkfds client.fd
  pub to_server : Reachable bus.sinkfds server.fd

-- A client writes a request with `srrp_write_request`, and the station that its header names, known to
-- the bus by the descriptor `server`, writes the answer with `srrp_write_response` and the request's
-- checksum. Where the request is all that one call of `apibus_poll` can receive from the sockets, and
-- the answer all that a second call can, within the time for an answer, then both calls return, the
-- two of them send the request to the station and the answer to the client, byte for byte, and
-- nothing else, and the bus is left with no request, response or message and with empty buffers.
pub apibus_poll-serves :
    (sys sys' : System) (ts ts' : ℕ × ℕ) (now later : ℕ) (lives : List LiveSink) (bus : Bus)
    (client server : SinkFd) (dst : Station) (srcid : ℕ) (header text answer : Bytes)
    → Talk srcid header text answer
    → Exchange sys sys' lives bus client server
        (asks srcid header text)
        (replies srcid header text answer)
    → find_dst
        (note_source now (request_of now client.fd (asks srcid header text)) bus)
        (b'/' ∷ header)
      ≡ some dst
    → dst.fd ≡ server.fd
    → later < now + request_timeout
    → (req : Packet) × (resp : Packet) × (c : Bus) × (d : Bus) × (write_request srcid
          (b'/' ∷ header)
          (b'{' ∷ text)
        ≡ ok req)
      × (write_response srcid (request_crc header text) (b'/' ∷ header) (b'{' ∷ answer) ≡ ok resp)
      × (apibus_poll (poll_sink sys) ts now lives bus ≡ ok (lives, c))
      × (apibus_poll (poll_sink sys') ts' later lives c ≡ ok (lives, d))
      × Holds d []
      × (d.sent ≡ bus.sent ++ ((server.fd, req.raw) ∷ (client.fd, resp.raw) ∷ []))
apibus_poll-serves sys sys' ts ts' now later lives bus client server dst srcid header text answer
      talk h known by_server early =
    let req = asks srcid header text in
    let resp = replies srcid header text answer in
    let (written, readable, leader) =
      write_request-IsReadable srcid header text talk.asked talk.source_fits talk.asked_fits in
    let (rewritten, r) =
      write_response-IsResponse srcid (request_crc header text) header answer talk.answered
        talk.source_fits (request_crc-below srcid header text answer talk) talk.answered_fits in
    let (c, first, pending, same, sent) =
      apibus_poll-takes_request sys ts now lives bus client req dst h.at_rest readable leader
        h.request_arrives known (rw by_server h.to_server) in
    let q = forwarded now (request_of now client.fd req) in
    let reply : IsReply (record { pac = resp; fd = server.fd }) q = record {
      checksum = r.checksum;
      header = r.path;
      source = r.source;
    } in
    let found = same.found server.fd h.two_sockets ∙ h.reply_arrives.one_ready.found in
    let (d, second, done, sent') =
      apibus_poll-takes_reply sys' ts' later lives c server resp q pending refl early r.readable
        r.leader reply (Brings-other_bus sys' lives bus c server resp.raw found h.reply_arrives)
        (same.reached client.fd h.to_client) in
    (
      req,
      resp,
      c,
      d,
      written,
      rewritten,
      first,
      second,
      done,
      sent'
          ∙ ap (λ b. b ++ ((client.fd, resp.raw) ∷ []))
              (sent ∙ ap (λ fd. bus.sent ++ ((fd, req.raw) ∷ [])) by_server)
          ∙ append_assoc bus.sent ((server.fd, req.raw) ∷ []) ((client.fd, resp.raw) ∷ []),
    )
