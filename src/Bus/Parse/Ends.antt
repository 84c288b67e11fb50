-- ===== src/Bus/Parse/Ends.antt =====
-- `parse_packet` comes to an end, and leaves a valid buffer.
use extlib.Common.{
  ℕ, zero, suc, ◌+◌, ◌^◌, ◌<◌, ◌≤◌, ◌≡◌, ◌≢◌, refl, ap, inl, inr, Bool, true, false, Option, none,
  some, arith, ltb, ◌==◌, length, drop, length-drop, Outcome, ok, abort, fault, ◌>>=◌, Bool-cases,
  Bytes,
}
use extlib.Text.{text_at}
use extlib.Text.Search.{length-text_at}
use extlib.Atbuf.{Atbuf, used, read_advance}
use extlib.Atbuf.Inv.{IsValid, contents}
use extlib.Atbuf.Read.{length-contents, read_advance-leaves, unread_memory-eq}
use extlib.Srrp.{Packet}
use extlib.Srrp.Read.{read_one_packet}
use extlib.Srrp.Read.Length.{GivesSound, read_one_packet-GivesSound}
use extlib.Srrp.Next.Found.{GivesPlace, next_packet_offset-GivesPlace}
use extlib.Bus.{Bus, SinkFd}
use extlib.Bus.Parse.{
  parse_packet_timeout, unread_memory, byte_before_unread, enqueue, skip, give_up, End, broke,
  out_of_rounds, parse_loop, parse_packet,
}

-- If the call comes back, its buffer is valid; no assertion fails.
abbrev KeepsValid : Outcome SinkFd → Type 0
KeepsValid (ok s) = IsValid s.rxbuf
KeepsValid abort = ⊥
KeepsValid fault = Unit

pub used-contents : (b : Atbuf) → IsValid b → used b ≡ length (contents b)
used-contents b v = omega (arith, length-contents b, v.bounds)

advanced-KeepsValid :
    (s : SinkFd) (n : ℕ)
    → IsValid s.rxbuf
    → n ≤ 2 ^ 63
    → KeepsValid (read_advance s.rxbuf n >>= λ (_, b). ok (record s { rxbuf = b }))
advanced-KeepsValid s n v h = let (k, c, e, w, kept) = read_advance-leaves n v h in rw e w

-- what is skipped lies in the buffer
text_inside : (b : Atbuf) → IsValid b → length (text_at (unread_memory b)) ≤ length (contents b)
text_inside b v =
    rw (unread_memory-eq v) (length-text_at (contents b) (drop (suc b.offset_in) b.rawbuf))

skip-KeepsValid :
    (s : SinkFd) (o : Option ℕ)
    → IsValid s.rxbuf
    → GivesPlace (byte_before_unread s.rxbuf) (unread_memory s.rxbuf) (ok o)
    → KeepsValid (skip s o)
unfolding skip
skip-KeepsValid s none v p = advanced-KeepsValid s (used s.rxbuf) v (omega (arith, v.bounds))
skip-KeepsValid s (some zero) v p = advanced-KeepsValid s (used s.rxbuf) v (omega (arith, v.bounds))
skip-KeepsValid s (some (suc i)) v p =
    let inside = p.inside in
    let t = text_inside s.rxbuf v in
    let u = used-contents s.rxbuf v in
    let below : ltb (suc i) (used s.rxbuf) ≡ true = ground arith in
    rw below (advanced-KeepsValid s (suc i) v (omega (arith, v.bounds)))

skip_found-KeepsValid :
    (s : SinkFd) (r : Outcome (Option ℕ))
    → IsValid s.rxbuf
    → GivesPlace (byte_before_unread s.rxbuf) (unread_memory s.rxbuf) r
    → KeepsValid (r >>= skip s)
skip_found-KeepsValid s (ok o) v p = skip-KeepsValid s o v p
skip_found-KeepsValid s abort v p = p
skip_found-KeepsValid s fault v p = tt

give_up-KeepsValid : (now : ℕ) (s : SinkFd) → IsValid s.rxbuf → KeepsValid (give_up now s)
unfolding give_up
give_up-KeepsValid now s v =
    let mem = unread_memory s.rxbuf in
    let place = next_packet_offset-GivesPlace (byte_before_unread s.rxbuf) mem in
    elim (Bool-cases (ltb now (s.ts_poll_recv.0 + parse_packet_timeout))) [
      | inl e ↦ rw e v
      | inr e ↦ rw e (skip_found-KeepsValid s _ v place)
    ]

-- The loop has stopped by its test or its `break`, and its buffer is valid; no assertion fails.
abbrev pub HasEnded : Outcome (End × SinkFd × Bus) → Type 0
HasEnded (ok (e, s, b)) = (e ≢ out_of_rounds) × IsValid s.rxbuf
HasEnded abort = ⊥
HasEnded fault = Unit

broke-HasEnded :
    (bus : Bus) (r : Outcome SinkFd) → KeepsValid r → HasEnded (r >>= λ s'. ok (broke, s', bus))
broke-HasEnded bus (ok s) v = (λ e. cc, v)
broke-HasEnded bus abort v = v
broke-HasEnded bus fault v = tt

parse_loop-HasEnded :
    (k now : ℕ) (s : SinkFd) (bus : Bus)
    → IsValid s.rxbuf
    → length (contents s.rxbuf) < k
    → HasEnded (parse_loop k now s bus)
unfolding parse_loop
parse_loop-HasEnded zero now s bus v h = absurd (omega (arith, h))
parse_loop-HasEnded (suc k) now s bus v h =
    by_test (used s.rxbuf == 0) refl (read_one_packet mem) refl (read_one_packet-GivesSound mem)
      λ c pac w l. parse_loop-HasEnded k now (record s { rxbuf = c }) (enqueue now s.fd pac bus) w l
  where
    mem : Bytes
    mem = unread_memory s.rxbuf

    by_test :
        (b : Bool)
        → (used s.rxbuf == 0) ≡ b
        → (r : Outcome (Option Packet)) → read_one_packet mem ≡ r
        → GivesSound r
        → ((c : Atbuf) (pac : Packet)
            → IsValid c
            → length (contents c) < k
            → HasEnded (parse_loop k now (record s { rxbuf = c }) (enqueue now s.fd pac bus)))
        → HasEnded (parse_loop (suc k) now s bus)
    by_test true e r f g ih = rw (e, parse_loop) ((λ x. cc), v)
    by_test false e abort f g ih = absurd g
    by_test false e fault f g ih = rw (e, f, parse_loop) tt
    by_test false e (ok none) f g ih =
        rw (e, f, parse_loop) (broke-HasEnded bus _ (give_up-KeepsValid now s v))
    by_test false e (ok (some pac)) f g ih =
        let small = g.len_fits in
        let whole = g.parts in
        let (n, c, a, w, kept) = read_advance-leaves pac.len v (omega arith) in
        let u = used-contents s.rxbuf v in
        let less : length (contents c) < k =
          ground (arith, u, ap length kept, length-drop pac.len (contents s.rxbuf)) in
        rw (e, f, a, parse_loop) (ih c pac w less)

-- On a valid buffer, whatever it holds, a run of `parse_packet` that does not fault comes to an end by
-- its test or its `break` and leaves a valid buffer, and its assertion never fails.
pub parse_packet-HasEnded :
    (now : ℕ) (s : SinkFd) (bus : Bus) → IsValid s.rxbuf → HasEnded (parse_packet now s bus)
unfolding parse_packet
parse_packet-HasEnded now s bus v =
    parse_loop-HasEnded (suc (used s.rxbuf)) now s bus v (omega (arith, used-contents s.rxbuf v))
