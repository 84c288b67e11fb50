-- ===== src/Posix/Several.antt =====
-- `unix_poll` of src/apix-posix.c where several connections have bytes.
mod Examples
use mathlib.Core.Path.{subst}
use mathlib.Core.Option.{some-injective}
use extlib.Common.{
  ℕ, zero, suc, ◌+◌, ◌-◌, ◌≤◌, ◌<◌, ◌≡◌, refl, sym, ap, ◌∙◌, inl, inr, true, false, Bool, ◌&&◌,
  Bool-cases, some, List, [], ◌∷◌, ◌++◌, append-nil, arith, ◌==◌, if◌then◌else◌, length, take,
  take_all, All, Outcome, ok, ◌>>=◌, Rc, success, Bytes,
}
use extlib.Atbuf.{Atbuf, spare}
use extlib.Atbuf.Inv.{IsValid, contents}
use extlib.Atbuf.Tidy.{spare-eq}
use extlib.Bus.{Bus, SinkFd, find_sinkfd}
use extlib.Posix.{
  PosixSink, Calls, Ready, ready, contains, update_sinkfd, accept_one, recv_one, poll_members,
  unix_poll,
}
use extlib.Posix.Lookup.{find_sinkfd-fd, find_sinkfd-update_self, find_sinkfd-update_other}
use extlib.Posix.Receive.{receive-appends, with_buffer, poll_members_done}

-- no member twice
abbrev pub DistinctMembers : List ℕ → Type 0
DistinctMembers [] = Unit
DistinctMembers (m ∷ ms) = (contains ms m ≡ false) × DistinctMembers ms

-- how many of the members are ready
abbrev pub count_ready : (ℕ → Bool) → List ℕ → ℕ
count_ready isset [] = 0
count_ready isset (m ∷ ms) = let rest = count_ready isset ms in if isset m then suc rest else rest

module _ (calls : Calls) (isset : ℕ → Bool) (bytes : ℕ → Bytes) where
  -- The connection `s` has its bytes to receive, and room for them and a NUL.
  pub record HasBytes (s : SinkFd) : Type 0 where
    pub plain : s.listen ≡ false
    pub valid : IsValid s.rxbuf
    pub first : ℕ
    pub rest : Bytes
    pub some_bytes : bytes s.fd ≡ first ∷ rest
    pub got : calls.recv s.fd (spare s.rxbuf) ≡ some (bytes s.fd)
    pub room : s.rxbuf.offset_in + length (bytes s.fd) < s.rxbuf.size

  -- Each member that is ready is a connection with bytes.
  abbrev pub AllHaveBytes : List ℕ → List SinkFd → Type 0
  AllHaveBytes ms ss =
      All (λ m. isset m ≡ true → (s : SinkFd) × (find_sinkfd ss m ≡ some s) × HasBytes s) ms

  -- what has arrived at `fd`
  abbrev pub arrived : List ℕ → ℕ → Bytes
  arrived ms fd = if isset fd && contains ms fd then bytes fd else []

  -- Every descriptor has what it had, and then what has arrived there.
  abbrev pub Delivered : List ℕ → List SinkFd → List SinkFd → Type 0
  Delivered ms ss ss' =
      (fd : ℕ) (s : SinkFd)
      → find_sinkfd ss fd ≡ some s
      → (s' : SinkFd) × (find_sinkfd ss' fd ≡ some s')
        × (contents s'.rxbuf ≡ contents s.rxbuf ++ arrived ms fd)

  recv_one-HasBytes :
      (s : SinkFd) (sink : PosixSink) (bus : Bus)
      → HasBytes s
      → (buf : Atbuf) × (recv_one calls s sink bus ≡ ok (sink, with_buffer calls s buf bus))
        × (contents buf ≡ contents s.rxbuf ++ bytes s.fd)
  unfolding recv_one
  recv_one-HasBytes s sink bus h =
      let room = subst (λ b. s.rxbuf.offset_in + length b < s.rxbuf.size) h.some_bytes h.room in
      let (buf, e, k, v) = receive-appends (h.first ∷ h.rest) h.valid room in
      let cut : take (spare s.rxbuf) (h.first ∷ h.rest) ≡ h.first ∷ h.rest =
        take_all (spare s.rxbuf) (h.first ∷ h.rest)
          (omega (arith, room, spare-eq h.valid.bounds)) in
      let got = h.got ∙ ap some h.some_bytes in
      (buf, rw (got, cut, e, recv_one) refl, k ∙ ap (λ b. contents s.rxbuf ++ b) (sym h.some_bytes))

  poll_members_unset :
      (m : ℕ) (ms : List ℕ) (n : ℕ) (sink : PosixSink) (bus : Bus)
      → isset m ≡ false
      → poll_members calls isset (m ∷ ms) n sink bus ≡ poll_members calls isset ms n sink bus
  unfolding poll_members
  poll_members_unset m ms zero sink bus e = sym (poll_members_done calls isset ms sink bus)
  poll_members_unset m ms (suc n) sink bus e =
      let more : (suc n == 0) ≡ false = ground arith in rw (more, e, poll_members) refl

  poll_members_set :
      (m : ℕ) (ms : List ℕ) (nr : ℕ) (sink : PosixSink) (bus b : Bus) (s : SinkFd)
      → (nr == 0) ≡ false
      → isset m ≡ true
      → find_sinkfd bus.sinkfds m ≡ some s
      → s.listen ≡ false
      → recv_one calls s sink bus ≡ ok (sink, b)
      → poll_members calls isset (m ∷ ms) nr sink bus ≡ poll_members calls isset ms (nr - 1) sink b
  unfolding poll_members
  poll_members_set m ms nr sink bus b s more i e plain r = first ∙ chosen ∙ ap (λ o. o >>= after) r
    where
      after : PosixSink × Bus → Outcome (PosixSink × Bus)
      after (k, c) = poll_members calls isset ms (nr - 1) k c

      first : poll_members calls isset (m ∷ ms) nr sink bus ≡ (
          (if s.listen then accept_one calls m sink bus else recv_one calls s sink bus) >>= after)
      first = rw (more, i, e, poll_members) refl

      chosen :
          ((if s.listen then accept_one calls m sink bus else recv_one calls s sink bus) >>= after)
          ≡ (recv_one calls s sink bus >>= after)
      chosen =
          ap (λ l. (if l then accept_one calls m sink bus else recv_one calls s sink bus) >>= after)
            plain

  -- The bytes of the other members are there still when one was served.
  AllHaveBytes-update :
      (ms : List ℕ) (t : SinkFd) (ss : List SinkFd)
      → contains ms t.fd ≡ false
      → AllHaveBytes ms ss
      → AllHaveBytes ms (update_sinkfd t ss)
  unfolding contains
  AllHaveBytes-update [] t ss out h = tt
  AllHaveBytes-update (m ∷ ms) t ss out (p, h) = (
    λ i. let (s, e, b) = p i in (s, find_sinkfd-update_other ss t m (ground (arith, out)) ∙ e, b),
    AllHaveBytes-update ms t ss (ground (arith, out)) h,
  )

  Delivered-unset :
      (m : ℕ) (ms : List ℕ) (ss ss' : List SinkFd)
      → isset m ≡ false
      → Delivered ms ss ss'
      → Delivered (m ∷ ms) ss ss'
  unfolding contains
  Delivered-unset m ms ss ss' i h fd s e =
      let (s', f, k) = h fd s e in
      let same : arrived ms fd ≡ arrived (m ∷ ms) fd = ground (arith, i) in
      (s', f, k ∙ ap (λ b. contents s.rxbuf ++ b) same)

  Delivered-set :
      (m : ℕ) (ms : List ℕ) (s t : SinkFd) (ss ss' : List SinkFd)
      → isset m ≡ true
      → contains ms m ≡ false
      → find_sinkfd ss m ≡ some s
      → t.fd ≡ m
      → contents t.rxbuf ≡ contents s.rxbuf ++ bytes m
      → Delivered ms (update_sinkfd t ss) ss'
      → Delivered (m ∷ ms) ss ss'
  unfolding contains
  Delivered-set m ms s t ss ss' i out found at_m held h fd x e = elim (Bool-cases (m == fd)) [
    | inl hit ↦
        let same : m ≡ fd = ground (arith, hit) in
        subst
          (λ f.
            (y : SinkFd) × (find_sinkfd ss' f ≡ some y)
            × (contents y.rxbuf ≡ contents x.rxbuf ++ arrived (m ∷ ms) f))
          same (here (subst (λ f. find_sinkfd ss f ≡ some x) (sym same) e))
    | inr miss ↦
        let other : (t.fd == fd) ≡ false = ground (arith, at_m, miss) in
        let (s', f, k) = h fd x (find_sinkfd-update_other ss t fd other ∙ e) in
        let same : arrived ms fd ≡ arrived (m ∷ ms) fd = ground (arith, miss) in
        (s', f, k ∙ ap (λ b. contents x.rxbuf ++ b) same)
  ]
    where
      here :
          find_sinkfd ss m ≡ some x
          → (y : SinkFd) × (find_sinkfd ss' m ≡ some y)
            × (contents y.rxbuf ≡ contents x.rxbuf ++ arrived (m ∷ ms) m)
      here e =
          let sx = some-injective s x (sym found ∙ e) in
          let self =
            subst (λ f. find_sinkfd (update_sinkfd t ss) f ≡ some t) at_m
              (find_sinkfd-update_self ss t s
                (subst (λ f. find_sinkfd ss f ≡ some s) (sym at_m) found)) in
          let (s', f, k) = h m t self in
          let no_more : arrived ms m ≡ [] = ground (arith, i, out) in
          let all_here : arrived (m ∷ ms) m ≡ bytes m = ground (arith, i) in
          (
            s',
            f,
            k
                ∙ ap (λ b. contents t.rxbuf ++ b) no_more
                ∙ append-nil (contents t.rxbuf)
                ∙ held
                ∙ ap (λ (y : SinkFd). contents y.rxbuf ++ bytes m) sx
                ∙ ap (λ b. contents x.rxbuf ++ b) (sym all_here),
          )

  poll_members-Delivered :
      (ms : List ℕ) (sink : PosixSink) (bus : Bus)
      → DistinctMembers ms
      → AllHaveBytes ms bus.sinkfds
      → (b : Bus) × (poll_members calls isset ms (count_ready isset ms) sink bus ≡ ok (sink, b))
        × Delivered ms bus.sinkfds b.sinkfds
  unfolding contains
  poll_members-Delivered [] sink bus d h = (
    bus,
    poll_members_done calls isset [] sink bus,
    λ fd s e.
        let nothing : arrived [] fd ≡ [] = ground arith in
        (s, e, sym (ap (λ b. contents s.rxbuf ++ b) nothing ∙ append-nil (contents s.rxbuf))),
  )
  poll_members-Delivered (m ∷ ms) sink bus (out, d) (p, h) = elim (Bool-cases (isset m)) [
    | inr unset ↦
        let (b, e, k) = poll_members-Delivered ms sink bus d h in
        let same : count_ready isset (m ∷ ms) ≡ count_ready isset ms = ground (arith, unset) in
        (
          b,
          ap (λ n. poll_members calls isset (m ∷ ms) n sink bus) same
              ∙ poll_members_unset m ms (count_ready isset ms) sink bus unset
              ∙ e,
          Delivered-unset m ms bus.sinkfds b.sinkfds unset k,
        )
    | inl set ↦
        let (s, found, has) = p set in
        let at_m = find_sinkfd-fd bus.sinkfds m s found in
        let (buf, r, held) = recv_one-HasBytes s sink bus has in
        let t : SinkFd = record s { rxbuf = buf; ts_poll_recv = calls.now } in
        let out' : contains ms t.fd ≡ false = ap (contains ms) at_m ∙ out in
        let (b, e, k) =
          poll_members-Delivered ms sink (with_buffer calls s buf bus) d
            (AllHaveBytes-update ms t bus.sinkfds out' h) in
        let nr = count_ready isset (m ∷ ms) in
        let more : (nr == 0) ≡ false = ground (arith, set) in
        let fewer : nr - 1 ≡ count_ready isset ms = ground (arith, set) in
        (
          b,
          poll_members_set m ms nr sink bus (with_buffer calls s buf bus) s more set found has.plain
                r
              ∙ ap (λ n. poll_members calls isset ms n sink (with_buffer calls s buf bus)) fewer
              ∙ e,
          Delivered-set m ms s t bus.sinkfds b.sinkfds set out found at_m
              (held ∙ ap (λ f. contents s.rxbuf ++ bytes f) at_m) k,
        )
  ]

  -- Where any number of connections have bytes, no one of them too many, and nothing else is ready, one
  -- call of `unix_poll` appends to each buffer the bytes of its own descriptor, and to the others
  -- nothing.
  pub unix_poll-Delivered :
      (select : List ℕ → ℕ → Ready) (sink : PosixSink) (bus : Bus)
      → select sink.fds sink.nfds ≡ ready (count_ready isset sink.members) isset
      → DistinctMembers sink.members
      → AllHaveBytes sink.members bus.sinkfds
      → (b : Bus) × (unix_poll select calls sink bus ≡ ok (success, sink, b))
        × Delivered sink.members bus.sinkfds b.sinkfds
  unfolding unix_poll
  unix_poll-Delivered select sink bus answers d h =
      let (b, e, k) = poll_members-Delivered sink.members sink bus d h in
      (b, rw (answers, e, unix_poll) refl, k)
