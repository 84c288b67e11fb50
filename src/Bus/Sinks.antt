-- ===== src/Bus/Sinks.antt =====
-- The sinks of src/apix.c: which operation a call on the bus reaches. A sink's operations come from
-- outside; `R` is what such an operation does and returns.
pub mod Names
mod Examples
use extlib.Common.{
  ℕ, Bool, true, false, Option, none, some, List, [], ◌∷◌, ltb, ◌==◌, if◌then◌else◌, length,
  Outcome, ok, abort, ◌>>=◌, ◌>>◌, assert, Rc, success, failure, Bytes,
}
use extlib.Text.{same_text}
use extlib.Bus.{SinkFd, find_sinkfd}

-- `struct apisink_ops`; an operation may be NULL, but `poll`, which is called unasked.
pub record Ops (R : Type 0) : Type 0 where
  pub open_op : Option (Bytes → R)
  pub close_op : Option (ℕ → R)
  pub ioctl_op : Option (ℕ → ℕ → ℕ → R)
  pub send_op : Option (ℕ → Bytes → R)
  pub recv_op : Option (ℕ → ℕ → R)
  pub poll_op : R

-- `struct apisink`; `address` tells one sink from another, and `attached` whether `bus` is set.
pub record Sink (R : Type 0) : Type 0 where
  pub address : ℕ
  pub name : Bytes
  pub ops : Ops R
  pub attached : Bool

-- `APISINK_NAME_SIZE`
abbrev pub name_size : ℕ
name_size = 64

abbrev pub is_some : {A : Type 0} → Option A → Bool
is_some none = false
is_some (some a) = true

module _ {R : Type 0} where
  unfoldable pub init : ℕ → Bytes → Ops R → Outcome (Sink R)
  init address name ops = do
    assert (ltb (length name) name_size)
    ok (record { address = address; name = name; ops = ops; attached = false })

  unfoldable pub find_sink : Bytes → List (Sink R) → Option (Sink R)
  find_sink name [] = none
  find_sink name (s ∷ ss) = if same_text s.name name then some s else find_sink name ss

  -- `apibus_add_sink`; the list and the sink as they are left.
  unfoldable pub add_sink : Sink R → List (Sink R) → Rc × Sink R × List (Sink R)
  add_sink sink sinks = elim (find_sink sink.name sinks) [
    | some other ↦ (failure, sink, sinks)
    | none ↦ let added = record sink { attached = true } in (success, added, added ∷ sinks)
  ]

  -- `apibus_del_sink`
  unfoldable pub del_sink : Sink R → List (Sink R) → List (Sink R)
  del_sink sink [] = []
  del_sink sink (s ∷ ss) =
      let rest = del_sink sink ss in if s.address == sink.address then ss else s ∷ rest

  -- `apibus_open`; `none` for -1.
  unfoldable pub apibus_open : List (Sink R) → Bytes → Bytes → Outcome (Option R)
  apibus_open sinks name addr = elim (find_sink name sinks) [
    | none ↦ ok none
    | some s ↦ elim s.ops.open_op [ none ↦ abort | some op ↦ ok (some (op addr)) ]
  ]

-- The calls on a descriptor. `ops_of` is its sink's operations, `none` where it has no sink.
module _ {R : Type 0} (ops_of : SinkFd → Option (Ops R)) where
  abbrev op_of : {A : Type 0} → (Ops R → Option A) → List SinkFd → ℕ → Option A
  op_of field sinkfds fd = elim (find_sinkfd sinkfds fd) [
    | none ↦ none
    | some s ↦ elim (ops_of s) [ none ↦ none | some ops ↦ field ops ]
  ]

  -- `apibus_close`: the operation that runs, if any, and the result.
  pub apibus_close : List SinkFd → ℕ → Option R × Rc
  apibus_close sinkfds fd = elim (find_sinkfd sinkfds fd) [
    | none ↦ (none, failure)
    | some s ↦ (
      elim (op_of (λ ops. ops.close_op) sinkfds fd) [ none ↦ none | some op ↦ some (op fd) ],
      success,
    )
  ]

  -- In the others `none` stands for -1.
  pub apibus_ioctl : List SinkFd → ℕ → ℕ → ℕ → Option R
  apibus_ioctl sinkfds fd cmd arg = elim (op_of (λ ops. ops.ioctl_op) sinkfds fd) [
    | none ↦ none
    | some op ↦ some (op fd cmd arg)
  ]

  pub apibus_send : List SinkFd → ℕ → Bytes → Option R
  apibus_send sinkfds fd buf = elim (op_of (λ ops. ops.send_op) sinkfds fd) [
    | none ↦ none
    | some op ↦ some (op fd buf)
  ]

  pub apibus_recv : List SinkFd → ℕ → ℕ → Option R
  apibus_recv sinkfds fd size = elim (op_of (λ ops. ops.recv_op) sinkfds fd) [
    | none ↦ none
    | some op ↦ some (op fd size)
  ]
