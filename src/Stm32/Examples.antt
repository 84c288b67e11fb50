-- ===== src/Stm32/Examples.antt =====
-- A line 9 with two bytes to read.
use extlib.Common.{ℕ, ◌≡◌, refl, false, true, Option, arith, some, [], ◌∷◌, ok, success, Bytes}
use extlib.Atbuf.{Atbuf}
use extlib.Atbuf.Inv.{IsValid, contents}
use extlib.Bus.{Bus, SinkFd, empty_bus, find_sinkfd}
use extlib.Bus.Poll.{count_active}
use extlib.Stm32.{with_bytes, serial_poll}
use extlib.Stm32.Uncounted.{serial_poll-count_active}

abbrev line_buffer : Atbuf
line_buffer = record { rawbuf = 1 ∷ 0 ∷ 0 ∷ 0 ∷ []; size = 4; offset_in = 1; offset_out = 0 }

line_buffer-IsValid : IsValid line_buffer
line_buffer-IsValid = record {
  bounds = record {
    block = refl;
    in_inside = omega arith;
    out_before = omega arith;
    small = omega arith;
  };
  terminated = refl;
}

abbrev line : SinkFd
line = record {
  fd = 9;
  listen = false;
  rxbuf = line_buffer;
  ts_poll_recv = (0, 0);
  can_send = true;
}

abbrev line_bus : Bus
line_bus = record empty_bus { sinkfds = line ∷ [] }

abbrev reads : ℕ → ℕ → Option Bytes
reads fd room = some (5 ∷ 6 ∷ [])

serial_poll-count_active_example :
    (buf : Atbuf) × (serial_poll reads (9 ∷ []) line_bus
      ≡ ok (success, with_bytes line buf line_bus))
    × (contents buf ≡ 1 ∷ 5 ∷ 6 ∷ [])
    × IsValid buf
    × (count_active (7, 0) (with_bytes line buf line_bus).sinkfds
        ≡ count_active (7, 0) line_bus.sinkfds)
unfolding find_sinkfd
serial_poll-count_active_example =
    serial_poll-count_active reads line_bus line 5 (6 ∷ []) (7, 0) refl refl line_buffer-IsValid
      (omega arith)
