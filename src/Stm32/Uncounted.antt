-- ===== src/Stm32/Uncounted.antt =====
-- `serial_poll` of src/apix-stm32.c and the count of active descriptors in `apibus_poll`.
use extlib.Common.{
  ℕ, ◌+◌, ◌<◌, ◌≡◌, refl, inl, inr, Option, some, List, [], ◌∷◌, ◌++◌, arith, ◌==◌, Bool-cases,
  take, take_all, length, ok, success, Bytes,
}
use extlib.Atbuf.{Atbuf, spare}
use extlib.Atbuf.Inv.{IsValid, contents}
use extlib.Atbuf.Tidy.{spare-eq}
use extlib.Bus.{Bus, SinkFd, find_sinkfd}
use extlib.Bus.Poll.{count_active}
use extlib.Posix.{update_sinkfd}
use extlib.Posix.Receive.{receive-appends}
use extlib.Stm32.{with_bytes, poll_line, serial_poll}

count_active-update_sinkfd :
    (poll_ts : ℕ × ℕ) (ss : List SinkFd) (s : SinkFd) (buf : Atbuf)
    → find_sinkfd ss s.fd ≡ some s
    → count_active poll_ts (update_sinkfd (record s { rxbuf = buf }) ss) ≡ count_active poll_ts ss
unfolding count_active update_sinkfd find_sinkfd
count_active-update_sinkfd poll_ts [] s buf h = refl
count_active-update_sinkfd poll_ts (x ∷ ss) s buf h = elim (Bool-cases (x.fd == s.fd)) [
  | inl e ↦ ground (arith, h, e)
  | inr e ↦ ground (arith, h, e, count_active-update_sinkfd poll_ts ss s buf (ground (arith, h, e)))
]

-- A line that has bytes which fit, with one to spare: `serial_poll` appends them to its buffer and
-- keeps that valid, but `apibus_poll` counts no descriptor more as active than before.
pub serial_poll-count_active :
    (read : ℕ → ℕ → Option Bytes) (bus : Bus) (s : SinkFd) (c : ℕ) (cs : Bytes) (poll_ts : ℕ × ℕ)
    → find_sinkfd bus.sinkfds s.fd ≡ some s
    → read s.fd (spare s.rxbuf) ≡ some (c ∷ cs)
    → IsValid s.rxbuf
    → s.rxbuf.offset_in + length (c ∷ cs) < s.rxbuf.size
    → (buf : Atbuf) × (serial_poll read (s.fd ∷ []) bus ≡ ok (success, with_bytes s buf bus))
      × (contents buf ≡ contents s.rxbuf ++ (c ∷ cs))
      × IsValid buf
      × (count_active poll_ts (with_bytes s buf bus).sinkfds ≡ count_active poll_ts bus.sinkfds)
unfolding serial_poll poll_line
serial_poll-count_active read bus s c cs poll_ts found got v room =
    let (buf, returned, appended, valid) = receive-appends (c ∷ cs) v room in
    let cut : take (spare s.rxbuf) (c ∷ cs) ≡ c ∷ cs =
      take_all (spare s.rxbuf) (c ∷ cs) (omega (arith, spare-eq v.bounds)) in
    (
      buf,
      rw (found, got, cut, returned, serial_poll, poll_line) refl,
      appended,
      valid,
      count_active-update_sinkfd poll_ts bus.sinkfds s buf found,
    )
