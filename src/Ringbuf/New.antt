-- ===== src/Ringbuf/New.antt =====
-- `ringbuf_new`.
use extlib.Common.{
  ℕ, ◌^◌, ◌<◌, ◌≡◌, refl, true, some, [], arith, ◌==◌, if◌then◌else◌, length-replicate,
}
use extlib.Ringbuf.{Ringbuf, default_size, new}
use extlib.Ringbuf.Inv.{IsValid, contents}

-- Where both allocations succeed, `ringbuf_new` makes an empty valid ring of the size asked for, or
-- of the default size if that is 0.
pub new-IsValid :
    (size : ℕ)
    → size < 2 ^ 63
    → (r : Ringbuf) × (new true true size ≡ some r)
      × IsValid r
      × (contents r ≡ [])
      × (r.size ≡ (if size == 0 then default_size else size))
unfolding new
new-IsValid size h = (
  _,
  refl,
  ground (arith, length-replicate {A = ℕ} (if size == 0 then default_size else size) 0),
  refl,
  refl,
)
