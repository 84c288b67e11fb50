-- ===== src/Ringbuf/Inv.antt =====
-- The invariant of a ring between two calls, and what a ring holds.
use native.Mathlib.Nat.{mod-eq_of_lt, mod-eq-sub-mod}
use extlib.Common.{
  ℕ, ◌+◌, ◌-◌, ◌%◌, ◌^◌, ◌<◌, ◌≡◌, ◌∙◌, inl, inr, arith, ltb, leb, if◌then◌else◌, Bool-cases,
  length, get_or, tabulate, length-tabulate, Bytes,
}
use extlib.Ringbuf.{Ringbuf, used, spare}

pub record IsValid (r : Ringbuf) : Type 0 where
  pub block : length r.rawbuf ≡ r.size
  pub in_inside : r.offset_in < r.size
  pub out_inside : r.offset_out < r.size
  pub small : r.size < 2 ^ 63

-- an index that goes round once
abbrev pub wrap : ℕ → ℕ → ℕ
wrap size k = if ltb k size then k else k - size

abbrev pub held : Ringbuf → ℕ
held r =
    if leb r.offset_out r.offset_in
    then r.offset_in - r.offset_out
    else r.offset_in + r.size - r.offset_out

-- the bytes written and not read yet, oldest first
abbrev pub contents : Ringbuf → Bytes
contents r = tabulate (held r) λ i. get_or r.rawbuf (wrap r.size (r.offset_out + i)) 0

pub length-contents : (r : Ringbuf) → length (contents r) ≡ held r
length-contents r = length-tabulate _ _

pub wrap-eq : (size k : ℕ) → k < size + size → k % size ≡ wrap size k
wrap-eq size k h = elim (Bool-cases (ltb k size)) [
  | inl low ↦ rw low (mod-eq_of_lt (ground arith))
  | inr high ↦ rw high (
      mod-eq-sub-mod {n = k} {m = size} (ground arith)
      ∙ mod-eq_of_lt {n = k - size} {m = size} (ground arith))
]

-- without the wrap-around that the invariant rules out
pub used-held : {r : Ringbuf} → IsValid r → used r ≡ held r
used-held v = ground arith

pub spare-held : {r : Ringbuf} → IsValid r → spare r ≡ r.size - held r
spare-held v = ground arith

pub held-lt : {r : Ringbuf} → IsValid r → held r < r.size
held-lt v = ground arith
