-- ===== src/Posix/Server/Turn.antt =====
-- What one call of `apibus_poll` finds to read where a socket has brought one packet.
use mathlib.Core.Path.{subst}
use extlib.Common.{ℕ, ◌≡◌, refl, ap, ◌∙◌, some, List, [], ◌∷◌, ◌++◌, arith, length, All, ok}
use extlib.Atbuf.{Atbuf}
use extlib.Atbuf.Inv.{IsValid, contents}
use extlib.Srrp.{Packet}
use extlib.Srrp.Read.Length.{IsReadable}
use extlib.Bus.{Bus, SinkFd, find_sinkfd}
use extlib.Bus.Parse.Ends.{used-contents}
use extlib.Bus.Poll.{poll_each}
use extlib.Bus.Poll.Parsed.{IsDrained, HoldsPacket}
use extlib.Posix.{update_sinkfd}
use extlib.Posix.Ops.{System, LiveSink, poll_sink}
use extlib.Posix.Server.{Brings, poll_each-with_buffer}
use extlib.Posix.Server.Replaced.{IsFirst, find_sinkfd-IsFirst, update_sinkfd-IsFirst, All-middle}

-- nothing is left to read in any buffer
abbrev pub AllDrained : Bus → Type 0
AllDrained bus = All IsDrained bus.sinkfds

pub drained-empty : (s : SinkFd) → IsValid s.rxbuf → IsDrained s → contents s.rxbuf ≡ []
drained-empty s v e = by_contents (contents s.rxbuf) refl
  where
    by_contents : (bytes : List ℕ) → contents s.rxbuf ≡ bytes → contents s.rxbuf ≡ []
    by_contents [] k = k
    by_contents (c ∷ cs) k = absurd (ground (arith, used-contents s.rxbuf v, ap length k, e))

-- The same can be received on another bus with the same descriptor.
pub Brings-other_bus :
    (sys : System) (lives : List LiveSink) (bus b : Bus) (s : SinkFd) (bytes : List ℕ)
    → find_sinkfd b.sinkfds s.fd ≡ some s
    → Brings sys lives bus s bytes
    → Brings sys lives b s bytes
Brings-other_bus sys lives bus b s bytes e h =
    let o = h.one_ready in
    record {
      before = h.before;
      live = h.live;
      behind = h.behind;
      split = h.split;
      idle_before = h.idle_before;
      idle_behind = h.idle_behind;
      socket = h.socket;
      isset = h.isset;
      xs = h.xs;
      ys = h.ys;
      first = h.first;
      rest = h.rest;
      whole = h.whole;
      one_ready = record {
        answers = o.answers;
        members = o.members;
        others = o.others;
        this = o.this;
        found = e;
        plain = o.plain;
        got = o.got;
        asked = o.asked;
        valid = o.valid;
      };
      room = h.room;
    }

-- the descriptor when it has received into `buf`
abbrev pub received : System → SinkFd → Atbuf → SinkFd
received sys s buf = record s { rxbuf = buf; ts_poll_recv = sys.calls.now }

abbrev pub turned : System → List SinkFd → SinkFd → Atbuf → List SinkFd → Bus → Bus
turned sys xs s buf ys bus = record bus { poll_cnt = 0; sinkfds = xs ++ (received sys s buf ∷ ys) }

-- After the loop over the sinks, the packet is all that there is to read.
pub record Turn (sys : System) (lives : List LiveSink) (bus : Bus) (s : SinkFd) (pac : Packet)
    : Type 0 where
  pub xs : List SinkFd
  pub ys : List SinkFd
  pub buf : Atbuf
  pub first : IsFirst bus.sinkfds xs s ys
  pub polled :
      poll_each (poll_sink sys) lives (record bus { poll_cnt = 0 })
      ≡ ok (lives, turned sys xs s buf ys bus)
  pub holds : HoldsPacket (turned sys xs s buf ys bus) xs (received sys s buf) ys pac

pub Brings-Turn :
    (sys : System) (lives : List LiveSink) (bus : Bus) (s : SinkFd) (pac : Packet)
    → AllDrained bus
    → IsReadable pac
    → Brings sys lives bus s pac.raw
    → Turn sys lives bus s pac
Brings-Turn sys lives bus s pac drained r h =
    let o = h.one_ready in
    let start = record bus { poll_cnt = 0 } in
    let (xs, ys, f) = find_sinkfd-IsFirst bus.sinkfds s o.found in
    let (front, here, back) =
      All-middle IsDrained xs s ys (subst (All IsDrained) f.split drained) in
    let was_empty = drained-empty s o.valid here in
    let (buf, e, k, v) =
      poll_each-with_buffer sys lives start s pac.raw
        (Brings-other_bus sys lives bus start s pac.raw o.found h) in
    let placed =
      ap (update_sinkfd (received sys s buf)) f.split
      ∙ update_sinkfd-IsFirst xs s (received sys s buf) ys refl f.others in
    record {
      xs = xs;
      ys = ys;
      buf = buf;
      first = f;
      polled = e ∙ ap (λ ss. ok (lives, record start { sinkfds = ss })) placed;
      holds = record {
        descriptors = refl;
        before_drained = front;
        behind_drained = back;
        valid = v;
        holds = k ∙ ap (λ bytes. bytes ++ pac.raw) was_empty;
        readable = r;
      };
    }
