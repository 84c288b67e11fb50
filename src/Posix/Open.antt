-- ===== src/Posix/Open.antt =====
-- `unix_open`, `tcp_open` and `serial_open` of src/apix-posix.c with the system's answers, and
-- `apibus_enable_posix` and `apibus_disable_posix`.
use extlib.Common.{
  ℕ, suc, ◌≡◌, refl, true, false, Bool, ◌&&◌, Option, none, some, List, [], ◌∷◌, if◌then◌else◌,
  arith, ltb, lt→ltb, ◌<◌, length, take, drop, Outcome, ok, fault, ◌>>=◌, success, Bytes,
}
use extlib.Text.{codes, same_text}
use extlib.Bus.{Bus}
use extlib.Bus.Sinks.{Ops, Sink, name_size, find_sink, apibus_open, init, add_sink}
use extlib.Bus.Sinks.Names.{DistinctNames}
use extlib.Posix.{
  PosixSink, contains, fd_setsize, with_fd, open_sink, remove_member, remove_sinkfd, destroy,
  close_sink,
}
use extlib.Posix.Select.{join-ok, joined, contains-with_fd_self}
use extlib.Srrp.Next.{find_char}

-- What the system says to a new socket: the descriptor, and whether `bind` and `listen` succeed.
pub record Socket (Address : Type 0) : Type 0 where
  pub socket : Option ℕ
  pub bind : ℕ → Address → Bool
  pub listen : ℕ → Bool

-- the descriptor that listens at the address, if there is one
abbrev listening_at : {Address : Type 0} → Socket Address → Address → Option ℕ
listening_at sys address = elim sys.socket [
  | none ↦ none
  | some fd ↦ if sys.bind fd address && sys.listen fd then some fd else none
]

-- `sun_path` has room for 107 bytes and a NUL.
pub unix_open : Socket Bytes → Bytes → PosixSink → Bus → Outcome (Option ℕ × PosixSink × Bus)
unix_open sys addr sink bus = open_sink (listening_at sys (take 107 addr)) true sink bus

-- The address is what stands before the colon and what stands behind it; there has to be one, though
-- the socket comes first.
unfoldable pub tcp_open :
    Socket (Bytes × Bytes) → Bytes → PosixSink → Bus → Outcome (Option ℕ × PosixSink × Bus)
tcp_open sys addr sink bus = elim sys.socket [
  | none ↦ ok (none, sink, bus)
  | some fd ↦ elim (find_char 58 addr) [
    | none ↦ fault
    | some i ↦ open_sink (listening_at sys (take i addr, drop (suc i) addr)) true sink bus
  ]
]

pub serial_open :
    (Bytes → Option ℕ) → Bytes → PosixSink → Bus → Outcome (Option ℕ × PosixSink × Bus)
serial_open opens addr sink bus = open_sink (opens addr) false sink bus

-- A descriptor that was opened and then closed is no member any more, of the sink or of the bus, and
-- nothing else has changed there; but `select` is asked about it still.
pub close_sink-open_sink :
    (fd : ℕ) (listen : Bool) (sink : PosixSink) (bus : Bus)
    → fd < fd_setsize
    → (k : PosixSink) × (b : Bus) × (k' : PosixSink) × (open_sink (some fd) listen sink bus
        ≡ ok (some fd, k, b))
      × (close_sink fd k b ≡ (success, k', bus))
      × (k'.members ≡ sink.members)
      × (contains k'.fds fd ≡ true)
unfolding open_sink close_sink destroy remove_member remove_sinkfd contains
close_sink-open_sink fd listen sink bus fits =
    let (buf, j) = join-ok fd listen sink bus in
    let fds = with_fd sink.fds fd in
    let opened = record sink { members = fd ∷ sink.members; fds = fds; nfds = suc fd } in
    (
      opened,
      joined fd listen bus buf,
      record sink { fds = fds; nfds = suc fd },
      rw (j, lt→ltb _ _ fits, open_sink) refl,
      ground arith,
      refl,
      contains-with_fd_self sink.fds fd,
    )

module _ {R : Type 0} where
  -- The three sinks of the file, which are objects of their own.
  install : ℕ → Bytes → Ops R → List (Sink R) → Outcome (List (Sink R))
  install address name ops sinks = do sink ← init address name ops; ok (add_sink sink sinks).2

  -- `apibus_enable_posix`, which does not look at what `apibus_add_sink` returns
  pub enable_posix : (unix tcp serial : Ops R) → List (Sink R) → Outcome (List (Sink R))
  unfolding install
  enable_posix unix tcp serial sinks = do
    a ← install 0 (codes "apisink_unix") unix sinks
    b ← install 1 (codes "apisink_tcp") tcp a
    install 2 (codes "apisink_serial") serial b

  abbrev pub attached_sink : ℕ → Bytes → Ops R → Sink R
  attached_sink address name ops = record {
    address = address;
    name = name;
    ops = ops;
    attached = true;
  }

  install-adds :
      (address : ℕ) (name : Bytes) (ops : Ops R) (sinks : List (Sink R))
      → ltb (length name) name_size ≡ true
      → find_sink name sinks ≡ none
      → install address name ops sinks ≡ ok (attached_sink address name ops ∷ sinks)
  unfolding install init add_sink
  install-adds address name ops sinks short new = rw (short, new, add_sink) refl

  -- a name that the first sink does not have
  find_sink-next :
      (name : Bytes) (s : Sink R) (sinks : List (Sink R))
      → same_text s.name name ≡ false
      → find_sink name sinks ≡ none
      → find_sink name (s ∷ sinks) ≡ none
  unfolding find_sink
  find_sink-next name s sinks other new = ground (arith, other, new)

  -- Among sinks with other names all three are added.
  pub enable_posix-adds :
      (unix tcp serial : Ops R) (sinks : List (Sink R))
      → find_sink (codes "apisink_unix") sinks ≡ none
      → find_sink (codes "apisink_tcp") sinks ≡ none
      → find_sink (codes "apisink_serial") sinks ≡ none
      → enable_posix unix tcp serial sinks
        ≡ ok (
            attached_sink 2 (codes "apisink_serial") serial
            ∷ attached_sink 1 (codes "apisink_tcp") tcp
            ∷ attached_sink 0 (codes "apisink_unix") unix
            ∷ sinks)
  unfolding enable_posix same_text
  enable_posix-adds unix tcp serial sinks u t s =
      let a = attached_sink 0 (codes "apisink_unix") unix in
      let b = attached_sink 1 (codes "apisink_tcp") tcp in
      let t' = find_sink-next (codes "apisink_tcp") a sinks refl t in
      let s' =
        find_sink-next (codes "apisink_serial") b (a ∷ sinks) refl
          (find_sink-next (codes "apisink_serial") a sinks refl s) in
      rw
        (
          install-adds 0 (codes "apisink_unix") unix sinks refl u,
          install-adds 1 (codes "apisink_tcp") tcp (a ∷ sinks) refl t',
          install-adds 2 (codes "apisink_serial") serial (b ∷ a ∷ sinks) refl s',
        )
        refl

  -- On a new bus all three are added, under three names, and the name of the second opens it.
  pub enable_posix-DistinctNames :
      (unix tcp serial : Ops R) (op : Bytes → R) (addr : Bytes)
      → tcp.open_op ≡ some op
      → (ss : List (Sink R)) × (enable_posix unix tcp serial [] ≡ ok ss)
        × DistinctNames ss
        × (apibus_open ss (codes "apisink_tcp") addr ≡ ok (some (op addr)))
  unfolding enable_posix init add_sink find_sink same_text apibus_open
  enable_posix-DistinctNames unix tcp serial op addr e =
      (_, refl, (refl, (refl, (refl, tt))), rw (e, apibus_open) refl)
