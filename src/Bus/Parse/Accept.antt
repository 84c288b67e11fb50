-- ===== src/Bus/Parse/Accept.antt =====
-- `parse_packet` on a buffer that holds whole packets.
use extlib.Common.{
  ℕ, zero, suc, ◌<◌, ◌≡◌, refl, ap, ◌∙◌, true, false, List, [], ◌∷◌, ◌++◌, append_assoc, arith,
  ◌==◌, length, length-append, drop, drop-append, All, ok, Bytes,
}
use extlib.Atbuf.{Atbuf, used}
use extlib.Atbuf.Inv.{IsValid, contents}
use extlib.Atbuf.Read.{read_advance-leaves, unread_memory-eq}
use extlib.Srrp.{Packet, request_leader, response_leader}
use extlib.Srrp.Read.{read_one_packet}
use extlib.Srrp.Read.Length.{IsReadable}
use extlib.Bus.{Bus, SinkFd}
use extlib.Bus.Parse.{unread_memory, request_of, enqueue, emptied, parse_loop, parse_packet}
use extlib.Bus.Parse.Ends.{used-contents}
use extlib.Bus.Parse.Kinds.{enqueue_all, received, enqueue_all-received}

-- the bytes of the packets, one behind the other
abbrev pub stream : List Packet → Bytes
stream [] = []
stream (pac ∷ pacs) = pac.raw ++ stream pacs

-- The loop has emptied the buffer and queued `pacs`.
abbrev Queues : ℕ → ℕ → SinkFd → Bus → List Packet → Type 0
Queues k now s bus pacs =
    (b : Atbuf) × (parse_loop k now s bus
      ≡ ok (emptied, record s { rxbuf = b }, enqueue_all now s.fd pacs bus))
    × IsValid b
    × (contents b ≡ [])

parse_loop-Queues :
    (k now : ℕ) (s : SinkFd) (bus : Bus) (pacs : List Packet)
    → IsValid s.rxbuf
    → contents s.rxbuf ≡ stream pacs
    → All IsReadable pacs
    → length (contents s.rxbuf) < k
    → Queues k now s bus pacs
unfolding parse_loop
parse_loop-Queues zero now s bus pacs v e h l = absurd (omega (arith, l))
parse_loop-Queues (suc k) now s bus [] v e h l =
    let u : (used s.rxbuf == 0) ≡ true = ground (arith, used-contents s.rxbuf v, ap length e) in
    (s.rxbuf, rw (u, parse_loop) refl, v, e)
parse_loop-Queues (suc k) now s bus (pac ∷ pacs) v e (r, h) l =
    let n = ap length e ∙ length-append pac.raw (stream pacs) in
    let some_bytes = r.some_bytes in
    let counted = r.counted in
    let fits = r.len_fits in
    let u : (used s.rxbuf == 0) ≡ false = ground (arith, used-contents s.rxbuf v, n) in
    let tail = drop (suc s.rxbuf.offset_in) s.rxbuf.rawbuf in
    let there : unread_memory s.rxbuf ≡ pac.raw ++ (stream pacs ++ (0 ∷ tail)) =
      unread_memory-eq v
      ∙ ap (λ t. t ++ (0 ∷ tail)) e
      ∙ append_assoc pac.raw (stream pacs) (0 ∷ tail) in
    let read = ap read_one_packet there ∙ r.reads (stream pacs ++ (0 ∷ tail)) in
    let (m, c, a, w, kept) = read_advance-leaves pac.len v (omega arith) in
    let left : contents c ≡ stream pacs =
      kept
      ∙ ap (drop pac.len) e
      ∙ ap (λ n. drop n (pac.raw ++ stream pacs)) counted
      ∙ drop-append pac.raw (stream pacs) in
    let (b, f, x, y) =
      parse_loop-Queues k now (record s { rxbuf = c }) (enqueue now s.fd pac bus) pacs w left h
        (omega (arith, ap length left, n)) in
    (b, rw (u, read, a, parse_loop) f, x, y)

pub parse_packet-enqueue_all :
    (now : ℕ) (s : SinkFd) (bus : Bus) (pacs : List Packet)
    → IsValid s.rxbuf
    → contents s.rxbuf ≡ stream pacs
    → All IsReadable pacs
    → (b : Atbuf) × (parse_packet now s bus
        ≡ ok (emptied, record s { rxbuf = b }, enqueue_all now s.fd pacs bus))
      × IsValid b
      × (contents b ≡ [])
unfolding parse_packet
parse_packet-enqueue_all now s bus pacs v e h =
    parse_loop-Queues (suc (used s.rxbuf)) now s bus pacs v e h
      (omega (arith, used-contents s.rxbuf v))

-- From a buffer that holds whole packets and nothing else, `parse_packet` empties the buffer and
-- puts in front of the requests, the responses and the topic messages one entry for each packet
-- whose leader is of that kind, with the packet and the descriptor, the last packet first, and
-- changes nothing else of the bus. A request is new, has the time, and the checksum of its header
-- and data.
pub parse_packet-Queues :
    (now : ℕ) (s : SinkFd) (bus : Bus) (pacs : List Packet)
    → IsValid s.rxbuf
    → contents s.rxbuf ≡ stream pacs
    → All IsReadable pacs
    → (b : Atbuf) × (parse_packet now s bus
        ≡ ok (emptied, record s { rxbuf = b }, received now s.fd pacs bus))
      × IsValid b
      × (contents b ≡ [])
parse_packet-Queues now s bus pacs v e h =
    let (b, parsed, w, k) = parse_packet-enqueue_all now s bus pacs v e h in
    (
      b,
      parsed
          ∙ ap (λ c. ok (emptied, record s { rxbuf = b }, c))
              (enqueue_all-received now s.fd pacs bus),
      w,
      k,
    )

-- A request goes to the front of the requests.
pub enqueue-request :
    (now fd : ℕ) (pac : Packet) (bus : Bus)
    → pac.leader ≡ request_leader
    → enqueue now fd pac bus ≡ record bus { requests = request_of now fd pac ∷ bus.requests }
unfolding enqueue
enqueue-request now fd pac bus e = ground (arith, e)

-- A response goes to the front of the responses.
pub enqueue-response :
    (now fd : ℕ) (pac : Packet) (bus : Bus)
    → pac.leader ≡ response_leader
    → enqueue now fd pac bus
      ≡ record bus { responses = record { pac = pac; fd = fd } ∷ bus.responses }
unfolding enqueue
enqueue-response now fd pac bus e = ground (arith, e)
