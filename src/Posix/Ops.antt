-- ===== src/Posix/Ops.antt =====
-- The tables of operations of src/apix-posix.c, and the loop of `apibus_poll` over its sinks.
use extlib.Common.{
  ℕ, Bool, Option, none, some, List, Outcome, ok, ◌>>=◌, Rc, success, failure, Bytes,
}
use extlib.Bus.{Bus}
use extlib.Bus.Sinks.{Ops, Sink}
use extlib.Posix.{PosixSink, Calls, Ready, close_sink, unix_poll}
use extlib.Posix.Open.{Socket, unix_open, tcp_open, serial_open}
use extlib.Posix.Serial.{serial_poll}
use extlib.Posix.Settings.{SerialParam, Termios, serial_ioctl}

-- What the system answers while an operation runs. `send` and `recv` are also `write` and `read`.
pub record System : Type 0 where
  pub unix_socket : Socket Bytes
  pub tcp_socket : Socket (Bytes × Bytes)
  pub opens : Bytes → Option ℕ
  pub select : List ℕ → ℕ → Ready
  pub calls : Calls
  pub send : ℕ → Bytes → Option ℕ
  pub recv : ℕ → ℕ → Option Bytes
  pub has_termios : ℕ → Bool
  pub tcsetattr : ℕ → Termios → Bool
  pub param_at : ℕ → SerialParam

-- What an operation returns: -1, a number, or bytes in the caller's memory and their number.
pub data Answer : Type 0 where
  refuses : Answer
  returns : ℕ → Answer
  gives : Bytes → Answer

abbrev answer_number : Option ℕ → Answer
answer_number none = refuses
answer_number (some n) = returns n

abbrev answer_bytes : Option Bytes → Answer
answer_bytes none = refuses
answer_bytes (some bytes) = gives bytes

abbrev answer_rc : Rc → Answer
answer_rc success = returns 0
answer_rc failure = refuses

abbrev pub Run : Type 0
Run = System → PosixSink → Bus → Outcome (Answer × PosixSink × Bus)

-- an operation that leaves the sink and the bus alone
abbrev asks : (System → Answer) → Run
asks answer sys sink bus = ok (answer sys, sink, bus)

abbrev opened : (System → PosixSink → Bus → Outcome (Option ℕ × PosixSink × Bus)) → Run
opened open_with sys sink bus = do
  (got, k, b) ← open_with sys sink bus
  ok (answer_number got, k, b)

abbrev closed : ℕ → Run
closed fd sys sink bus = let (rc, k, b) = close_sink fd sink bus in ok (answer_rc rc, k, b)

-- `unix_send` and `unix_recv`
pub unix_send : ℕ → Bytes → Run
unix_send fd buf = asks (λ sys. answer_number (sys.send fd buf))

pub unix_recv : ℕ → ℕ → Run
unix_recv fd size = asks (λ sys. answer_bytes (sys.recv fd size))

pub serial_send : ℕ → Bytes → Run
serial_send fd buf = asks (λ sys. answer_number (sys.send fd buf))

pub serial_recv : ℕ → ℕ → Run
serial_recv fd size = asks (λ sys. answer_bytes (sys.recv fd size))

abbrev polled : (System → PosixSink → Bus → Outcome (Rc × PosixSink × Bus)) → Run
polled poll sys sink bus = do (rc, k, b) ← poll sys sink bus; ok (answer_rc rc, k, b)

abbrev pub unix_ops : Ops Run
unix_ops = record {
  open_op = some (λ addr. opened (λ sys. unix_open sys.unix_socket addr));
  close_op = some closed;
  ioctl_op = none;
  send_op = some unix_send;
  recv_op = some unix_recv;
  poll_op = polled (λ sys. unix_poll sys.select sys.calls);
}

abbrev pub tcp_ops : Ops Run
tcp_ops = record {
  open_op = some (λ addr. opened (λ sys. tcp_open sys.tcp_socket addr));
  close_op = some closed;
  ioctl_op = none;
  send_op = some unix_send;
  recv_op = some unix_recv;
  poll_op = polled (λ sys. unix_poll sys.select sys.calls);
}

-- (`cmd` is not looked at, and `arg` is where the parameters lie.)
abbrev pub serial_ops : Ops Run
serial_ops = record {
  open_op = some (λ addr. opened (λ sys. serial_open sys.opens addr));
  close_op = some closed;
  ioctl_op = some (λ fd cmd arg.
      asks (λ sys.
        answer_rc (serial_ioctl (sys.has_termios fd) (sys.tcsetattr fd) (sys.param_at arg))));
  send_op = some serial_send;
  recv_op = some serial_recv;
  poll_op = polled (λ sys. serial_poll sys.select sys.calls);
}

-- A sink of the bus with the descriptors behind it: the whole `struct posix_sink`.
pub record LiveSink : Type 0 where
  pub sink : Sink Run
  pub posix : PosixSink

abbrev rc_of : Answer → Rc
rc_of refuses = failure
rc_of (returns n) = success
rc_of (gives bytes) = success

-- `pos_sink->ops.poll(pos_sink)`
unfoldable pub poll_sink : System → LiveSink → Bus → Outcome (Rc × LiveSink × Bus)
poll_sink sys live bus = do
  (answer, k, b) ← live.sink.ops.poll_op sys live.posix bus
  ok (rc_of answer, record live { posix = k }, b)
