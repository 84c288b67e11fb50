-- ===== src/Posix/Server.antt =====
-- Bytes from a socket through `apibus_poll`: the loop over the sinks of src/apix.c with the
-- operations of src/apix-posix.c.
pub mod Replaced
pub mod Turn
pub mod Circle
pub mod Serves
mod Examples
use mathlib.Core.Path.{subst}
use extlib.Common.{
  ℕ, ◌≡◌, ◌⊎◌, inl, inr, refl, sym, ap, ◌∙◌, Bool, some, List, [], ◌∷◌, ◌++◌, All, arith, ◌+◌, ◌<◌,
  length, true, false, Outcome, ok, abort, fault, ◌>>=◌, Rc, success, failure, Bytes,
}
use extlib.Atbuf.{Atbuf}
use extlib.Atbuf.Inv.{IsValid, contents}
use extlib.Bus.{Bus, SinkFd, find_sinkfd}
use extlib.Bus.Sinks.{Ops, Sink}
use extlib.Bus.Poll.{poll_each}
use extlib.Posix.{PosixSink, Ready, ready, unix_poll}
use extlib.Posix.Serial.{serial_poll, serial_poll_idle}
use extlib.Posix.Receive.{OneReady, with_buffer, unix_poll_idle, unix_poll-receives}
use extlib.Posix.Ops.{System, Run, LiveSink, poll_sink, unix_ops, tcp_ops, serial_ops}

-- a sink of Unix or TCP sockets
abbrev pub IsSocket : LiveSink → Type 0
IsSocket live = (live.sink.ops ≡ unix_ops) ⊎ (live.sink.ops ≡ tcp_ops)

-- A sink of the file with nothing to read.
pub record IsIdle (sys : System) (live : LiveSink) : Type 0 where
  pub kind : IsSocket live ⊎ (live.sink.ops ≡ serial_ops)
  pub isset : ℕ → Bool
  pub none_ready : sys.select live.posix.fds live.posix.nfds ≡ ready 0 isset

-- `poll_sink` by the operations
abbrev poll_by : Ops Run → System → LiveSink → Bus → Outcome (Rc × LiveSink × Bus)
poll_by ops sys live bus = poll_sink sys (record live { sink = record live.sink { ops = ops } }) bus

poll_sink_idle :
    (sys : System) (live : LiveSink) (bus : Bus)
    → IsIdle sys live
    → poll_sink sys live bus ≡ ok (success, live, bus)
unfolding poll_sink
poll_sink_idle sys live bus h = by_kind h.kind
  where
    by_kind :
        IsSocket live ⊎ (live.sink.ops ≡ serial_ops)
        → poll_sink sys live bus ≡ ok (success, live, bus)
    by_kind (inl (inl e)) =
        rw (e, unix_poll_idle sys.select sys.calls live.posix bus h.isset h.none_ready, poll_sink)
          refl
    by_kind (inl (inr e)) =
        rw (e, unix_poll_idle sys.select sys.calls live.posix bus h.isset h.none_ready, poll_sink)
          refl
    by_kind (inr e) =
        rw (e, serial_poll_idle sys.select sys.calls live.posix bus h.isset h.none_ready, poll_sink)
          refl

poll_each_idle :
    (sys : System) (lives : List LiveSink) (bus : Bus)
    → All (IsIdle sys) lives
    → poll_each (poll_sink sys) lives bus ≡ ok (lives, bus)
unfolding poll_each
poll_each_idle sys [] bus h = refl
poll_each_idle sys (l ∷ ls) bus (e, h) =
    rw (poll_sink_idle sys l bus e, poll_each_idle sys ls bus h, poll_each) refl

-- One sink leaves another bus, those around it nothing.
poll_each_one :
    (sys : System) (before : List LiveSink) (live : LiveSink) (behind : List LiveSink) (bus b : Bus)
    → All (IsIdle sys) before
    → All (IsIdle sys) behind
    → poll_sink sys live bus ≡ ok (success, live, b)
    → poll_each (poll_sink sys) (before ++ (live ∷ behind)) bus ≡ ok (before ++ (live ∷ behind), b)
unfolding poll_each
poll_each_one sys [] live behind bus b h k e = rw (e, poll_each_idle sys behind b k, poll_each) refl
poll_each_one sys (l ∷ ls) live behind bus b (i, h) k e =
    rw (poll_sink_idle sys l bus i, poll_each_one sys ls live behind bus b h k e, poll_each) refl

-- While the system answers like this, the socket `s` of one of the sinks has `bytes` to receive, which
-- leave room in its buffer for a NUL, and nothing else is ready.
pub record Brings (sys : System) (lives : List LiveSink) (bus : Bus) (s : SinkFd) (bytes : Bytes)
    : Type 0 where
  pub before : List LiveSink
  pub live : LiveSink
  pub behind : List LiveSink
  pub split : lives ≡ before ++ (live ∷ behind)
  pub idle_before : All (IsIdle sys) before
  pub idle_behind : All (IsIdle sys) behind
  pub socket : IsSocket live
  pub isset : ℕ → Bool
  pub xs : List ℕ
  pub ys : List ℕ
  pub first : ℕ
  pub rest : Bytes
  pub whole : bytes ≡ first ∷ rest
  pub one_ready : OneReady sys.select sys.calls live.posix bus isset xs s ys first rest
  pub room : s.rxbuf.offset_in + length bytes < s.rxbuf.size

-- The loop over the sinks appends the bytes to the buffer of their descriptor, and does nothing else.
pub poll_each-with_buffer :
    (sys : System) (lives : List LiveSink) (bus : Bus) (s : SinkFd) (bytes : Bytes)
    → Brings sys lives bus s bytes
    → (buf : Atbuf) × (poll_each (poll_sink sys) lives bus
        ≡ ok (lives, with_buffer sys.calls s buf bus))
      × (contents buf ≡ contents s.rxbuf ++ bytes)
      × IsValid buf
unfolding poll_sink
poll_each-with_buffer sys lives bus s bytes h =
    let live = h.live in
    let (buf, e, k, v) =
      unix_poll-receives sys.select sys.calls live.posix bus h.isset h.xs s h.ys h.first h.rest
        h.one_ready (subst (λ t. s.rxbuf.offset_in + length t < s.rxbuf.size) h.whole h.room) in
    let here : poll_sink sys live bus ≡ ok (success, live, with_buffer sys.calls s buf bus) =
      by_kind h buf e h.socket in
    (
      buf,
      ap (λ ls. poll_each (poll_sink sys) ls bus) h.split
          ∙ poll_each_one sys h.before live h.behind bus _ h.idle_before h.idle_behind here
          ∙ ap (λ ls. ok (ls, with_buffer sys.calls s buf bus)) (sym h.split),
      k ∙ ap (λ t. contents s.rxbuf ++ t) (sym h.whole),
      v,
    )
  where
    by_kind :
        (h : Brings sys lives bus s bytes) (buf : Atbuf)
        → unix_poll sys.select sys.calls h.live.posix bus
          ≡ ok (success, h.live.posix, with_buffer sys.calls s buf bus)
        → IsSocket h.live
        → poll_sink sys h.live bus ≡ ok (success, h.live, with_buffer sys.calls s buf bus)
    by_kind h buf e (inl k) = rw (k, e, poll_sink) refl
    by_kind h buf e (inr k) = rw (k, e, poll_sink) refl
