-- ===== src/Atbuf/New.antt =====
-- `atbuf_new`.
use extlib.Common.{
  ℕ, ◌^◌, ◌<◌, ◌≡◌, refl, true, some, [], arith, ◌==◌, if◌then◌else◌, length-replicate,
  get_or-replicate,
}
use extlib.Atbuf.{Atbuf, default_size, new}
use extlib.Atbuf.Inv.{IsValid, contents}

-- Where both allocations succeed, `atbuf_new` makes an empty valid buffer of the size asked for, or
-- of the default size if that is 0.
pub new-empty :
    (size : ℕ)
    → size < 2 ^ 63
    → (b : Atbuf) × (new true true size ≡ some b)
      × IsValid b
      × (contents b ≡ [])
      × (b.size ≡ (if size == 0 then default_size else size))
      × (b.offset_in ≡ 0)
unfolding new
new-empty size h = (
  _,
  refl,
  ground (
    arith,
    get_or-replicate {A = ℕ} 1 (if size == 0 then default_size else size) 0 0,
    length-replicate {A = ℕ} (if size == 0 then default_size else size) 0,
  ),
  refl,
  refl,
  refl,
)
