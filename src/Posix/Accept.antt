-- ===== src/Posix/Accept.antt =====
-- A client that connects to a listening socket of src/apix-posix.c and sends something.
mod Examples
use extlib.Common.{
  ℕ, suc, ◌+◌, ◌-◌, ◌≤◌, ◌<◌, ◌≡◌, refl, ap, ◌∙◌, true, false, Bool, some, List, [], ◌∷◌, ◌++◌,
  arith, ltb, lt→ltb, ◌==◌, if◌then◌else◌, length, All, Outcome, ok, fault, ◌>>=◌, Rc, success,
  Bytes,
}
use extlib.Atbuf.{Atbuf, default_size, spare}
use extlib.Atbuf.Inv.{IsValid, contents}
use extlib.Atbuf.New.{new-empty}
use extlib.Atbuf.Tidy.{spare-eq}
use extlib.Bus.{Bus, SinkFd, find_sinkfd}
use extlib.Posix.{
  PosixSink, Calls, Ready, ready, fd_setsize, with_fd, contains, sinkfd_new, join, accept_one,
  recv_one, poll_members, unix_poll, update_sinkfd,
}
use extlib.Posix.Receive.{
  OneReady, with_buffer, poll_members_skip, poll_members_done, unix_poll-receives,
}
use extlib.Posix.Select.{join-ok, joined, contains-with_fd_self}

-- the sink with a descriptor that `accept` gave
abbrev pub accepted : ℕ → PosixSink → PosixSink
accepted new_fd sink = record {
  members = new_fd ∷ sink.members;
  fds = with_fd sink.fds new_fd;
  nfds = if ltb sink.nfds (suc new_fd) then suc new_fd else sink.nfds;
}

-- an empty buffer of the default size
pub record IsUnused (buf : Atbuf) : Type 0 where
  pub valid : IsValid buf
  pub empty : contents buf ≡ []
  pub size : buf.size ≡ default_size
  pub start : buf.offset_in ≡ 0

join-IsUnused :
    (fd : ℕ) (listen : Bool) (sink : PosixSink) (bus : Bus)
    → (buf : Atbuf) × (join fd listen sink bus
        ≡ ok (record sink { members = fd ∷ sink.members }, joined fd listen bus buf))
      × IsUnused buf
unfolding join sinkfd_new
join-IsUnused fd listen sink bus =
    let (buf, e, v, k, n, o) = new-empty 0 (omega arith) in
    (buf, rw (e, join, sinkfd_new) refl, record { valid = v; empty = k; size = n; start = o })

-- `select` finds the listening descriptor of `s` alone, and `accept` gives `new_fd` there.
pub record OneConnects (select : List ℕ → ℕ → Ready) (calls : Calls) (sink : PosixSink) (bus : Bus)
    (s : SinkFd) (new_fd : ℕ) : Type 0 where
  pub isset : ℕ → Bool
  pub xs : List ℕ
  pub ys : List ℕ
  pub answers : select sink.fds sink.nfds ≡ ready 1 isset
  pub members : sink.members ≡ xs ++ (s.fd ∷ ys)
  pub others : All (λ x. isset x ≡ false) xs
  pub this : isset s.fd ≡ true
  pub found : find_sinkfd bus.sinkfds s.fd ≡ some s
  pub listens : s.listen ≡ true
  pub connects : calls.accept s.fd ≡ some new_fd

unix_poll-accepted :
    (select : List ℕ → ℕ → Ready) (calls : Calls) (sink : PosixSink) (bus : Bus) (s : SinkFd)
    (new_fd : ℕ)
    → OneConnects select calls sink bus s new_fd
    → new_fd < fd_setsize
    → (buf : Atbuf) × (unix_poll select calls sink bus
        ≡ ok (success, accepted new_fd sink, joined new_fd false bus buf))
      × IsUnused buf
unfolding unix_poll poll_members accept_one
unix_poll-accepted select calls sink bus s new_fd h fits =
    let (buf, e, u) = join-IsUnused new_fd false sink bus in
    let k = accepted new_fd sink in
    let b = joined new_fd false bus buf in
    let here : accept_one calls s.fd sink bus ≡ ok (k, b) =
      rw (h.connects, e, lt→ltb _ _ fits, accept_one) refl in
    let loop =
      ap (λ ms. poll_members calls h.isset ms 1 sink bus) h.members
      ∙ poll_members_skip calls h.isset h.xs (s.fd ∷ h.ys) sink bus h.others
      ∙ first h
      ∙ ap
          (λ c.
            (if c then accept_one calls s.fd sink bus else recv_one calls s sink bus) >>= after h)
          h.listens
      ∙ ap (λ o. o >>= after h) here
      ∙ poll_members_done calls h.isset h.ys k b in
    (buf, rw (h.answers, loop, unix_poll) refl, u)
  where
    after : OneConnects select calls sink bus s new_fd → PosixSink × Bus → Outcome (PosixSink × Bus)
    after h (k, b) = poll_members calls h.isset h.ys 0 k b

    first :
        (h : OneConnects select calls sink bus s new_fd)
        → poll_members calls h.isset (s.fd ∷ h.ys) 1 sink bus ≡ (
            (if s.listen then accept_one calls s.fd sink bus else recv_one calls s sink bus)
            >>= after h)
    first h = rw (h.this, h.found, poll_members) refl

-- A descriptor that an `fd_set` has no bit for is written outside it.
accept_one-fault :
    (calls : Calls) (fd new_fd : ℕ) (sink : PosixSink) (bus : Bus)
    → calls.accept fd ≡ some new_fd
    → fd_setsize ≤ new_fd
    → accept_one calls fd sink bus ≡ fault
unfolding accept_one
accept_one-fault calls fd new_fd sink bus e over =
    let (buf, j) = join-ok new_fd false sink bus in
    let no_bit : ltb new_fd fd_setsize ≡ false = ground arith in rw (e, j, no_bit, accept_one) refl

-- the descriptor that `accept` gave, as it is put on the bus
abbrev connected : ℕ → Atbuf → SinkFd
connected new_fd buf = record {
  fd = new_fd;
  listen = false;
  rxbuf = buf;
  ts_poll_recv = (0, 0);
  can_send = true;
}

-- The system has the bytes `c ∷ cs` at `fd` alone, and gives them to a `recv` that has room for them.
pub record OneSends (select : List ℕ → ℕ → Ready) (calls : Calls) (sink : PosixSink) (fd c : ℕ)
    (cs : Bytes) : Type 0 where
  pub isset : ℕ → Bool
  pub answers : select sink.fds sink.nfds ≡ ready 1 isset
  pub this : isset fd ≡ true
  pub gives : (size : ℕ) → length (c ∷ cs) ≤ size → calls.recv fd size ≡ some (c ∷ cs)

-- A client that connects, on a descriptor that an `fd_set` has a bit for, is added in front of the
-- members, and the next call of `unix_poll` is asked about it. When it sends fewer bytes than the
-- default size of a buffer, that call puts these and nothing else into its buffer. The other
-- descriptors of the bus stay as they are.
pub unix_poll-accepts :
    (select select' : List ℕ → ℕ → Ready) (calls calls' : Calls) (sink : PosixSink) (bus : Bus)
    (s : SinkFd) (new_fd c : ℕ) (cs : Bytes)
    → OneConnects select calls sink bus s new_fd
    → new_fd < fd_setsize
    → OneSends select' calls' (accepted new_fd sink) new_fd c cs
    → length (c ∷ cs) < default_size
    → let k = accepted new_fd sink in
      (b : Bus) × (b' : Bus) × (client : SinkFd) × (unix_poll select calls sink bus
        ≡ ok (success, k, b))
      × (unix_poll select' calls' k b ≡ ok (success, k, b'))
      × (b'.sinkfds ≡ client ∷ bus.sinkfds)
      × (client.fd ≡ new_fd)
      × (contents client.rxbuf ≡ c ∷ cs)
      × IsValid client.rxbuf
      × (new_fd < k.nfds)
      × (contains k.fds new_fd ≡ true)
unfolding find_sinkfd update_sinkfd
unix_poll-accepts select select' calls calls' sink bus s new_fd c cs h fits g short =
    let (buf, e, u) = unix_poll-accepted select calls sink bus s new_fd h fits in
    let b = joined new_fd false bus buf in
    let k = accepted new_fd sink in
    let room = spare-eq u.valid.bounds in
    let n = u.size in
    let o = u.start in
    let one : OneReady select' calls' k b g.isset [] (connected new_fd buf) sink.members c cs =
      record {
        answers = g.answers;
        members = refl;
        others = tt;
        this = g.this;
        found = ground arith;
        plain = refl;
        got = g.gives (spare buf) (omega (arith, short));
        asked = omega (arith, short);
        valid = u.valid;
      } in
    let (full, f, held, v) =
      unix_poll-receives select' calls' k b g.isset [] (connected new_fd buf) sink.members c cs one
        (omega (arith, short)) in
    (
      b,
      with_buffer calls' (connected new_fd buf) full b,
      record (connected new_fd buf) { rxbuf = full; ts_poll_recv = calls'.now },
      e,
      f,
      ground arith,
      refl,
      held ∙ ap (λ t. t ++ (c ∷ cs)) u.empty,
      v,
      ground arith,
      contains-with_fd_self sink.fds new_fd,
    )
