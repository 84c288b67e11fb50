-- ===== src/Posix/Receive.antt =====
-- `unix_poll` of src/apix-posix.c on the one descriptor that has bytes.
use extlib.Common.{
  ℕ, ◌+◌, ◌-◌, ◌≤◌, ◌<◌, ◌≡◌, refl, ap, ◌∙◌, true, false, Bool, some, List, [], ◌∷◌, ◌++◌, arith,
  if◌then◌else◌, length, take, take_all, All, copy-ok, Outcome, ok, abort, fault, ◌>>=◌, Rc,
  success, Bytes,
}
use extlib.Atbuf.{Atbuf, spare}
use extlib.Atbuf.Inv.{IsValid, contents}
use extlib.Atbuf.Tidy.{spare-eq, tidied, tidied-IsValid, contents-tidied}
use extlib.Atbuf.Write.{
  extended, extended-InBounds, write_advance-ok, write_advance-abort, filled, filled-InBounds,
  contents-filled,
}
use extlib.Bus.{Bus, SinkFd, find_sinkfd}
use extlib.Posix.{
  PosixSink, Calls, Ready, ready, receive, update_sinkfd, accept_one, recv_one, poll_members,
  unix_poll,
}

pub receive-appends :
    {b : Atbuf} (bytes : Bytes)
    → IsValid b
    → b.offset_in + length bytes < b.size
    → (c : Atbuf) × (receive b bytes ≡ ok c) × (contents c ≡ contents b ++ bytes) × IsValid c
unfolding receive
receive-appends {b} bytes v room =
    let n = length bytes in
    let w = filled-InBounds bytes n v.bounds in
    let x = extended-InBounds n w room in
    let whole : take n bytes ≡ bytes = take_all n bytes (omega arith) in
    (
      tidied (extended (filled b bytes n) n),
      rw
          (
            copy-ok b.rawbuf b.offset_in bytes 0 n (omega arith) (omega (arith, v.bounds)),
            write_advance-ok n w room,
          )
          refl,
      contents-tidied x
          ∙ contents-filled bytes n v.bounds room (omega arith)
          ∙ ap (λ t. contents b ++ t) whole,
      tidied-IsValid x,
    )

receive-abort :
    {b : Atbuf} (bytes : Bytes)
    → IsValid b
    → b.offset_in + length bytes ≡ b.size
    → receive b bytes ≡ abort
unfolding receive
receive-abort {b} bytes v full =
    let n = length bytes in
    rw
      (
        copy-ok b.rawbuf b.offset_in bytes 0 n (omega arith) (omega (arith, v.bounds)),
        write_advance-abort n (filled-InBounds bytes n v.bounds) (omega (arith, v.bounds))
            (omega arith),
      )
      refl

-- `select` finds the descriptor of `s` alone, no listening one, and `recv` gives the bytes `c ∷ cs`
-- there, no more than it was asked for.
pub record OneReady (select : List ℕ → ℕ → Ready) (calls : Calls) (sink : PosixSink) (bus : Bus)
    (isset : ℕ → Bool) (xs : List ℕ) (s : SinkFd) (ys : List ℕ) (c : ℕ) (cs : Bytes) : Type 0 where
  pub answers : select sink.fds sink.nfds ≡ ready 1 isset
  pub members : sink.members ≡ xs ++ (s.fd ∷ ys)
  pub others : All (λ x. isset x ≡ false) xs
  pub this : isset s.fd ≡ true
  pub found : find_sinkfd bus.sinkfds s.fd ≡ some s
  pub plain : s.listen ≡ false
  pub got : calls.recv s.fd (spare s.rxbuf) ≡ some (c ∷ cs)
  pub asked : length (c ∷ cs) ≤ s.rxbuf.size - s.rxbuf.offset_in
  pub valid : IsValid s.rxbuf

pub poll_members_skip :
    (calls : Calls) (isset : ℕ → Bool) (xs ys : List ℕ) (sink : PosixSink) (bus : Bus)
    → All (λ x. isset x ≡ false) xs
    → poll_members calls isset (xs ++ ys) 1 sink bus ≡ poll_members calls isset ys 1 sink bus
unfolding poll_members
poll_members_skip calls isset [] ys sink bus h = refl
poll_members_skip calls isset (x ∷ xs) ys sink bus (e, h) =
    rw (e, poll_members) (poll_members_skip calls isset xs ys sink bus h)

pub poll_members_done :
    (calls : Calls) (isset : ℕ → Bool) (xs : List ℕ) (sink : PosixSink) (bus : Bus)
    → poll_members calls isset xs 0 sink bus ≡ ok (sink, bus)
unfolding poll_members
poll_members_done calls isset [] sink bus = refl
poll_members_done calls isset (x ∷ xs) sink bus = refl

-- Where nothing is ready nothing happens.
pub unix_poll_idle :
    (select : List ℕ → ℕ → Ready) (calls : Calls) (sink : PosixSink) (bus : Bus) (isset : ℕ → Bool)
    → select sink.fds sink.nfds ≡ ready 0 isset
    → unix_poll select calls sink bus ≡ ok (success, sink, bus)
unfolding unix_poll
unix_poll_idle select calls sink bus isset e =
    rw (e, poll_members_done calls isset sink.members sink bus, unix_poll) refl

-- the bus with `buf` in place of the buffer of `s`
abbrev pub with_buffer : Calls → SinkFd → Atbuf → Bus → Bus
with_buffer calls s buf bus = record bus {
  sinkfds = update_sinkfd (record s { rxbuf = buf; ts_poll_recv = calls.now }) bus.sinkfds;
}

module _ (select : List ℕ → ℕ → Ready) (calls : Calls) (sink : PosixSink) (bus : Bus)
    (isset : ℕ → Bool) (xs : List ℕ) (s : SinkFd) (ys : List ℕ) (c : ℕ) (cs : Bytes)
    (h : OneReady select calls sink bus isset xs s ys c cs) where
  cut : take (spare s.rxbuf) (c ∷ cs) ≡ c ∷ cs
  cut =
      let a = h.asked in take_all (spare s.rxbuf) (c ∷ cs) (omega (arith, spare-eq h.valid.bounds))

  recv_one-result :
      (r : Outcome Atbuf)
      → receive s.rxbuf (c ∷ cs) ≡ r
      → recv_one calls s sink bus ≡ (r >>= λ buf. ok (sink, with_buffer calls s buf bus))
  unfolding recv_one
  recv_one-result r e = rw (h.got, cut, e, recv_one) refl

  members_result :
      (r : Outcome Atbuf)
      → receive s.rxbuf (c ∷ cs) ≡ r
      → poll_members calls isset sink.members 1 sink bus
        ≡ (r >>= λ buf. ok (sink, with_buffer calls s buf bus))
  unfolding poll_members
  members_result r e =
      ap (λ ms. poll_members calls isset ms 1 sink bus) h.members
      ∙ poll_members_skip calls isset xs (s.fd ∷ ys) sink bus h.others
      ∙ first
      ∙ ap
          (λ b. (if b then accept_one calls s.fd sink bus else recv_one calls s sink bus) >>= after)
          h.plain
      ∙ ap (λ o. o >>= after) (recv_one-result r e)
      ∙ last r
    where
      after : PosixSink × Bus → Outcome (PosixSink × Bus)
      after (k, b) = poll_members calls isset ys 0 k b

      first : poll_members calls isset (s.fd ∷ ys) 1 sink bus ≡ (
          (if s.listen then accept_one calls s.fd sink bus else recv_one calls s sink bus)
          >>= after)
      first = rw (h.this, h.found, poll_members) refl

      last :
          (r : Outcome Atbuf)
          → ((r >>= λ buf. ok (sink, with_buffer calls s buf bus)) >>= after)
            ≡ (r >>= λ buf. ok (sink, with_buffer calls s buf bus))
      last (ok buf) = poll_members_done calls isset ys sink (with_buffer calls s buf bus)
      last abort = refl
      last fault = refl

  poll-result :
      (r : Outcome Atbuf)
      → receive s.rxbuf (c ∷ cs) ≡ r
      → unix_poll select calls sink bus
        ≡ (r >>= λ buf. ok (success, sink, with_buffer calls s buf bus))
  unfolding unix_poll
  poll-result r e = rw (h.answers, members_result r e, unix_poll) (by_result r)
    where
      answer : PosixSink → Bus → Outcome (Rc × PosixSink × Bus)
      answer k b = ok (success, k, b)

      by_result :
          (r : Outcome Atbuf)
          → ((r >>= λ buf. ok (sink, with_buffer calls s buf bus)) >>= λ (k, b). answer k b)
            ≡ (r >>= λ buf. ok (success, sink, with_buffer calls s buf bus))
      by_result (ok buf) = refl
      by_result abort = refl
      by_result fault = refl

  -- Where one descriptor has bytes and they leave room for a NUL, `unix_poll` appends them to the
  -- buffer of that descriptor, notes the time, and changes nothing else.
  pub unix_poll-receives :
      s.rxbuf.offset_in + length (c ∷ cs) < s.rxbuf.size
      → (buf : Atbuf) × (unix_poll select calls sink bus
          ≡ ok (success, sink, with_buffer calls s buf bus))
        × (contents buf ≡ contents s.rxbuf ++ (c ∷ cs))
        × IsValid buf
  unix_poll-receives room =
      let (buf, e, k, w) = receive-appends (c ∷ cs) h.valid room in
      (buf, poll-result (ok buf) e, k, w)

  -- Where `recv` gives all the bytes that it was asked for, an assertion fails: a peer that sends as
  -- many bytes as the buffer has room for stops the program.
  pub unix_poll-abort :
      s.rxbuf.offset_in + length (c ∷ cs) ≡ s.rxbuf.size → unix_poll select calls sink bus ≡ abort
  unix_poll-abort full = poll-result abort (receive-abort (c ∷ cs) h.valid full)
