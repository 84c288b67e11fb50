-- ===== src/Bus/Poll/Parsed.antt =====
-- A packet through the loop of `apibus_poll` over the descriptors.
use extlib.Common.{
  ℕ, ◌≡◌, refl, sym, ap, ◌∙◌, true, false, some, List, [], ◌∷◌, ◌++◌, append-nil, arith, ◌==◌,
  length, Bool-cases, inl, inr, All, Outcome, ok, ◌>>=◌, Rc,
}
use extlib.Atbuf.{Atbuf, used}
use extlib.Atbuf.Inv.{IsValid, contents}
use extlib.Srrp.{Packet}
use extlib.Srrp.Read.Length.{IsReadable}
use extlib.Bus.{Bus, SinkFd, find_sinkfd}
use extlib.Bus.Sending.{Reachable}
use extlib.Bus.Parse.{End, parse_packet, enqueue}
use extlib.Bus.Parse.Ends.{used-contents}
use extlib.Bus.Parse.Accept.{parse_packet-enqueue_all}
use extlib.Bus.Poll.Idle.{back_off_time}
use extlib.Bus.Poll.{
  count_active, handle_messages, parse_all, parse_sinkfds, poll_each, apibus_poll,
}

-- nothing to read
abbrev pub IsDrained : SinkFd → Type 0
IsDrained s = (used s.rxbuf == 0) ≡ true

parse_all_drained :
    (now : ℕ) (ss : List SinkFd) (bus : Bus)
    → All IsDrained ss
    → parse_all now ss bus ≡ ok (ss, bus)
unfolding parse_all
parse_all_drained now [] bus h = refl
parse_all_drained now (s ∷ ss) bus (e, h) = ground (arith, parse_all_drained now ss bus h)

-- `pac` is all that there is to read, in the buffer of `s`.
parse_all_one :
    (now : ℕ) (xs : List SinkFd) (s t : SinkFd) (ys : List SinkFd) (bus b : Bus) (e : End)
    → All IsDrained xs
    → (used s.rxbuf == 0) ≡ false
    → parse_packet now s bus ≡ ok (e, t, b)
    → All IsDrained ys
    → parse_all now (xs ++ (s ∷ ys)) bus ≡ ok (xs ++ (t ∷ ys), b)
unfolding parse_all
parse_all_one now [] s t ys bus b e hx u p hy = ground (arith, parse_all_drained now ys b hy)
parse_all_one now (x ∷ xs) s t ys bus b e (d, hx) u p hy =
    ground (arith, parse_all_one now xs s t ys bus b e hx u p hy)

-- another state of the same descriptor
abbrev pub Replaces : SinkFd → SinkFd → Type 0
Replaces t s = (t.fd ≡ s.fd) × (t.can_send ≡ s.can_send)

find_sinkfd-Replaces :
    (xs : List SinkFd) (s t : SinkFd) (ys : List SinkFd) (fd : ℕ) (x : SinkFd)
    → Replaces t s
    → find_sinkfd (xs ++ (s ∷ ys)) fd ≡ some x
    → (y : SinkFd) × (find_sinkfd (xs ++ (t ∷ ys)) fd ≡ some y) × (y.can_send ≡ x.can_send)
unfolding find_sinkfd
find_sinkfd-Replaces [] s t ys fd x (same, can) e = elim (Bool-cases (s.fd == fd)) [
  | inl h ↦ (t, ground arith, ground arith)
  | inr h ↦ (x, ground arith, refl)
]
find_sinkfd-Replaces (z ∷ zs) s t ys fd x r e = elim (Bool-cases (z.fd == fd)) [
  | inl h ↦ (z, ground arith, ground arith)
  | inr h ↦
      let (y, f, k) = find_sinkfd-Replaces zs s t ys fd x r (ground arith) in (y, ground arith, k)
]

pub Reachable-Replaces :
    (xs : List SinkFd) (s t : SinkFd) (ys : List SinkFd) (fd : ℕ)
    → Replaces t s
    → Reachable (xs ++ (s ∷ ys)) fd
    → Reachable (xs ++ (t ∷ ys)) fd
Reachable-Replaces xs s t ys fd r (x, e, k) =
    let (y, f, l) = find_sinkfd-Replaces xs s t ys fd x r e in (y, f, l ∙ k)

-- A bus where `pac` is all that there is to read, in the buffer of `client`.
pub record HoldsPacket (bus : Bus) (xs : List SinkFd) (client : SinkFd) (ys : List SinkFd)
    (pac : Packet) : Type 0 where
  pub descriptors : bus.sinkfds ≡ xs ++ (client ∷ ys)
  pub before_drained : All IsDrained xs
  pub behind_drained : All IsDrained ys
  pub valid : IsValid client.rxbuf
  pub holds : contents client.rxbuf ≡ pac.raw
  pub readable : IsReadable pac

abbrev put_back : List SinkFd × Bus → Outcome Bus
put_back (ss, c) = ok (record c { sinkfds = ss })

-- the bus with the packet in its queue and out of the buffer
abbrev pub parsed : ℕ → List SinkFd → SinkFd → Atbuf → List SinkFd → Packet → Bus → Bus
parsed now xs client b ys pac bus = record (enqueue now client.fd pac bus) {
  sinkfds = xs ++ (record client { rxbuf = b } ∷ ys);
}

parse_sinkfds-parsed :
    (now cnt : ℕ) (bus : Bus) (xs : List SinkFd) (client : SinkFd) (ys : List SinkFd) (pac : Packet)
    → HoldsPacket bus xs client ys pac
    → let start = record bus { poll_cnt = cnt } in
      (b : Atbuf) × (parse_sinkfds now start ≡ ok (parsed now xs client b ys pac start))
      × IsValid b
      × (contents b ≡ [])
unfolding parse_sinkfds
parse_sinkfds-parsed now cnt bus xs client ys pac h =
    let start = record bus { poll_cnt = cnt } in
    let r = h.readable in
    let (b, e, v, k) =
      parse_packet-enqueue_all now client start (pac ∷ []) h.valid
        (h.holds ∙ sym (append-nil pac.raw)) (r, tt) in
    let u : (used client.rxbuf == 0) ≡ false =
      let n = used-contents client.rxbuf h.valid in
      let m = ap length h.holds in
      let counted = r.counted in let some_bytes = r.some_bytes in ground arith in
    let p = parse_all_one now xs client _ ys start _ _ h.before_drained u e h.behind_drained in
    (
      b,
      ap (λ ss. parse_all now ss start >>= put_back) h.descriptors
          ∙ ap (λ (o : Outcome (List SinkFd × Bus)). o >>= put_back) p,
      v,
      k,
    )

-- What `apibus_poll` leaves to the handlers: the packet in its queue, the counts, and an empty buffer.
pub apibus_poll-parsed :
    {K : Type 0} (poll : K → Bus → Outcome (Rc × K × Bus)) (poll_ts : ℕ × ℕ) (now : ℕ)
    (sinks ks : List K) (bus b : Bus) (xs : List SinkFd) (client : SinkFd) (ys : List SinkFd)
    (pac : Packet)
    → poll_each poll sinks (record bus { poll_cnt = 0 }) ≡ ok (ks, b)
    → HoldsPacket b xs client ys pac
    → (us : ℕ) × (cnt : ℕ) × (buf : Atbuf) × (apibus_poll poll poll_ts now sinks bus ≡ (
        handle_messages now
          (record (parsed now xs client buf ys pac (record b { poll_cnt = cnt })) {
            idle_usec = us;
          })
        >>= λ d. ok (ks, d)))
      × IsValid buf
      × (contents buf ≡ [])
unfolding apibus_poll
apibus_poll-parsed poll poll_ts now sinks ks bus b xs client ys pac polled h =
    let cnt = count_active poll_ts b.sinkfds in
    let (buf, parses, v, drained) = parse_sinkfds-parsed now cnt b xs client ys pac h in
    let (us, slept) =
      back_off_time (parsed now xs client buf ys pac (record b { poll_cnt = cnt })) in
    (us, cnt, buf, rw (polled, parses, slept) refl, v, drained)
