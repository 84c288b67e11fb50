-- ===== src/Posix/Settings.antt =====
-- `serial_ioctl` of src/apix-posix.c, with the flags of `struct termios` that it sets.
use extlib.Common.{
  ℕ, ◌≡◌, true, false, Bool, Option, none, some, ◌==◌, if◌then◌else◌, arith, Rc, success, failure,
}

-- `struct ioctl_serial_param`
pub record SerialParam : Type 0 where
  pub baud : ℕ
  pub bits : ℕ
  pub parity : ℕ
  pub stop : ℕ

-- the rest is as `bzero` left it, with CLOCAL and CREAD set
pub record Termios : Type 0 where
  pub speed : ℕ
  pub eight_bits : Bool
  pub parenb : Bool
  pub parodd : Bool
  pub inpck_istrip : Bool
  pub cstopb : Bool

abbrev pub blank : Termios
blank = record {
  speed = 0;
  eight_bits = false;
  parenb = false;
  parodd = false;
  inpck_istrip = false;
  cstopb = false;
}

-- the next setting, if those before were known
abbrev and_then : Option Termios → (Termios → Option Termios) → Option Termios
and_then none f = none
and_then (some t) f = f t

-- `B9600` and `B115200`, by the speeds that they stand for
set_baud : ℕ → Termios → Option Termios
set_baud baud t =
    if baud == 9600
    then some (record t { speed = 9600 })
    else if baud == 115200
    then some (record t { speed = 115200 })
    else none

set_bits : ℕ → Termios → Option Termios
set_bits bits t =
    if bits == 7 then some t else if bits == 8 then some (record t { eight_bits = true }) else none

-- 'O', 'E' and 'N'
set_parity : ℕ → Termios → Option Termios
set_parity parity t =
    if parity == 79
    then some (record t { parenb = true; parodd = true; inpck_istrip = true })
    else if parity == 69
    then some (record t { parenb = true; parodd = false; inpck_istrip = true })
    else if parity == 78
    then some (record t { parenb = false })
    else none

set_stop : ℕ → Termios → Option Termios
set_stop stop t =
    if stop == 1
    then some (record t { cstopb = false })
    else if stop == 2
    then some (record t { cstopb = true })
    else none

unfoldable pub serial_settings : SerialParam → Option Termios
unfolding set_baud set_bits set_parity set_stop
serial_settings sp =
    and_then
      (and_then (and_then (set_baud sp.baud blank) (set_bits sp.bits)) (set_parity sp.parity))
      (set_stop sp.stop)

-- `got` is whether `tcgetattr` succeeds.
pub serial_ioctl : (got : Bool) → (tcsetattr : Termios → Bool) → SerialParam → Rc
serial_ioctl false tcsetattr sp = failure
serial_ioctl true tcsetattr sp = elim (serial_settings sp) [
  | none ↦ failure
  | some t ↦ if tcsetattr t then success else failure
]

-- The parameters that a line with these settings was given.
pub param_of : Termios → SerialParam
param_of t = record {
  baud = t.speed;
  bits = if t.eight_bits then 8 else 7;
  parity = if t.parenb then (if t.parodd then 79 else 69) else 78;
  stop = if t.cstopb then 2 else 1;
}

-- Settings that `serial_ioctl` asks for are those of its parameters alone: the parameters can be read
-- off them again.
pub param_of-serial_settings :
    (sp : SerialParam) (t : Termios) → serial_settings sp ≡ some t → param_of t ≡ sp
unfolding serial_settings param_of
param_of-serial_settings sp t h = ground (arith, h)
