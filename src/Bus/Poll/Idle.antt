-- ===== src/Bus/Poll/Idle.antt =====
-- How long an idle bus sleeps.
use extlib.Common.{ℕ, zero, suc, ◌+◌, ◌*◌, ◌≤◌, ◌≡◌, ◌∙◌, min, arith}
use extlib.Bus.{Bus}
use extlib.Bus.Poll.{back_off, idle_max}

-- `n` polls in a row that find the same `poll_cnt`
abbrev pub back_offs : ℕ → Bus → Bus
back_offs zero bus = bus
back_offs (suc n) bus = back_offs n (back_off bus)

poll_cnt-back_off : (bus : Bus) → (back_off bus).poll_cnt ≡ bus.poll_cnt
unfolding back_off
poll_cnt-back_off bus = ground arith

idle_usec-back_off :
    (bus : Bus)
    → bus.poll_cnt ≡ 0
    → bus.idle_usec ≤ idle_max
    → (back_off bus).idle_usec ≡ min idle_max (bus.idle_usec + 100000)
unfolding back_off
idle_usec-back_off bus idle h = ground arith

-- After `n` idle polls in a row the sleep has grown by `n` tenths of the maximum, and not past it.
pub back_offs_linear :
    (n : ℕ) (bus : Bus)
    → bus.poll_cnt ≡ 0
    → bus.idle_usec ≤ idle_max
    → (back_offs n bus).idle_usec ≡ min idle_max (bus.idle_usec + n * 100000)
back_offs_linear zero bus idle h = omega arith
back_offs_linear (suc n) bus idle h =
    let e = idle_usec-back_off bus idle h in
    let k = poll_cnt-back_off bus in
    let ih = back_offs_linear n (back_off bus) (k ∙ idle) (omega arith) in ih ∙ omega arith

-- The back-off changes the sleep only.
pub back_off_time : (bus : Bus) → (us : ℕ) × (back_off bus ≡ record bus { idle_usec = us })
unfolding back_off
back_off_time bus = ((back_off bus).idle_usec, ground arith)
