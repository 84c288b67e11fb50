-- ===== src/Ringbuf/Write.antt =====
-- The writing side of src/ringbuf.c: `ringbuf_write_advance` and `ringbuf_write`.
use extlib.Common.{
  ℕ, zero, suc, ◌+◌, ◌-◌, ◌%◌, ◌^◌, ◌≤◌, ◌<◌, ◌≡◌, refl, true, false, ◌∙◌, inl, inr, [], ◌++◌,
  arith, ltb, leb, if◌then◌else◌, Bool-cases, length, take, drop, overwrite, overwrite-nil,
  length-overwrite, tabulate_congr, tabulate-append, length-take, get_or-take, min, ok, copy-ok,
  Returns, Bytes,
}
use extlib.Ringbuf.{Ringbuf, spare, write_advance, write_straight, write_round, write_bytes, write}
use extlib.Ringbuf.Inv.{IsValid, wrap, wrap-eq, held, contents, length-contents, held-lt}
use extlib.Ringbuf.Placed.{placed, filled, length-placed, placed-new, placed-old}

-- how many of `len` bytes `ringbuf_write` copies
abbrev pub accepted : Ringbuf → ℕ → ℕ
accepted r len = min len (r.size - held r)

module _ {r : Ringbuf} (src : Bytes) (v : IsValid r) where
  filled-IsValid : (n : ℕ) → n ≤ r.size - held r → IsValid (filled r src n)
  filled-IsValid n room = ground (arith, length-placed src v n)

  held-filled : (n : ℕ) → held r + n < r.size → held (filled r src n) ≡ held r + n
  held-filled n room = ground arith

  contents-filled :
      (n : ℕ)
      → held r + n < r.size
      → n ≤ length src
      → contents (filled r src n) ≡ contents r ++ take n src
  contents-filled n room enough =
      tabulate-append 0 (held r) (held (filled r src n)) _ _ (take n src)
        (omega (arith, held-filled n room, length-take n src))
        (λ i k. placed-old src v n i (omega arith) enough k)
        (λ i k.
          let e : wrap r.size (r.offset_out + (held r + i)) ≡ wrap r.size (r.offset_in + i) =
            ground (arith, length-take n src) in
          rw e (
            placed-new src v n i (omega arith) enough (omega (arith, length-take n src))
            ∙ ground (arith, get_or-take 0 n src i, length-take n src)))

  write_advance-ok :
      (n : ℕ)
      → n ≤ r.size - held r
      → write_advance (record r { rawbuf = placed r src n }) n ≡ ok (filled r src n)
  unfolding write_advance
  write_advance-ok n room =
      let t : leb n (spare r) ≡ true = ground arith in
      let e : (r.offset_in + n) % 2 ^ 64 ≡ r.offset_in + n = ground arith in
      rw (t, e, wrap-eq r.size (r.offset_in + n) (ground arith))

  write_straight-ok :
      (n : ℕ)
      → n ≤ r.size - r.offset_in
      → n ≤ length src
      → write_straight r src n ≡ ok (placed r src n, n)
  unfolding write_straight placed
  write_straight-ok n room enough = ground (arith, copy-ok r.rawbuf r.offset_in src 0 n)

  placed_round :
      (m : ℕ)
      → let right = r.size - r.offset_in in
        placed r src (right + m)
        ≡ overwrite (overwrite r.rawbuf r.offset_in (take right src)) 0 (take m (drop right src))
  unfolding placed
  placed_round zero =
      let right = r.size - r.offset_in in
      let t : leb (right + 0) right ≡ true = ground arith in
      let e : right + 0 ≡ right = omega arith in rw (t, e, overwrite-nil)
  placed_round (suc m) =
      let right = r.size - r.offset_in in
      let t : leb (right + suc m) right ≡ false = ground arith in
      let e : right + suc m - right ≡ suc m = omega arith in rw (t, e)

  write_round-ok :
      (len : ℕ)
      → len < r.size
      → len ≤ length src
      → r.size - r.offset_in < len
      → let n = min len (r.size - r.offset_in + r.offset_out) in
        write_round r src len ≡ ok (placed r src n, n)
  unfolding write_round placed
  write_round-ok len h enough long =
      let right = r.size - r.offset_in in
      let m = min (len - right) r.offset_out in
      let raw = overwrite r.rawbuf r.offset_in (take right src) in
      let e : (r.size + 2 ^ 64 - r.offset_in) % 2 ^ 64 ≡ right = omega arith in
      let e' : (len + 2 ^ 64 - right) % 2 ^ 64 ≡ len - right = omega arith in
      let c : (if leb (len - right) r.offset_out then len - right else r.offset_out) ≡ m =
        ground arith in
      let inside : 0 + m ≤ length raw =
        omega (arith, length-overwrite r.rawbuf r.offset_in (take right src)) in
      rw
        (
          e,
          copy-ok r.rawbuf r.offset_in src 0 right (omega arith) (omega arith),
          e',
          c,
          copy-ok raw 0 src right m inside (omega arith),
        )
        (let n : min len (right + r.offset_out) ≡ right + m = omega arith in
          let k : (right + m) % 2 ^ 64 ≡ right + m = omega arith in rw (n, k, placed_round m))

  write_bytes-ok :
      (len : ℕ)
      → len < r.size
      → len ≤ length src
      → write_bytes r src len ≡ ok (placed r src (accepted r len), accepted r len)
  unfolding write_bytes
  write_bytes-ok len h enough =
      let n = accepted r len in
      elim (Bool-cases (leb r.offset_out r.offset_in)) [
        | inl low ↦ elim (Bool-cases (leb len (r.size - r.offset_in))) [
          | inl one ↦ let k : n ≡ len = ground arith in ground (arith, k, write_straight-ok len)
          | inr two ↦
              let k : n ≡ min len (r.size - r.offset_in + r.offset_out) = ground arith in
              ground (arith, k, write_round-ok len)
        ]
        | inr high ↦
            let k : n ≡ min len (r.offset_out - r.offset_in) = ground arith in
            ground (arith, k, write_straight-ok n)
      ]

  write-eq :
      (len : ℕ)
      → len < r.size
      → len ≤ length src
      → write r src len ≡ ok (accepted r len, filled r src (accepted r len))
  unfolding write
  write-eq len h enough =
      let t : ltb len r.size ≡ true = ground arith in
      let room : accepted r len ≤ r.size - held r = omega arith in
      rw (t, write_bytes-ok len h enough, write_advance-ok (accepted r len) room)

-- A `ringbuf_write` that leaves at least one byte of the block free takes all of `src` and puts it
-- behind what the ring holds, wherever the offsets stand, and keeps the invariant.
pub write-behind :
    {r : Ringbuf} (src : Bytes) (len : ℕ)
    → IsValid r
    → len ≤ length src
    → length (contents r) + len < r.size
    → Returns
        (λ (n, q). (n ≡ len) × (contents q ≡ contents r ++ take len src) × IsValid q)
        (write r src len)
write-behind {r} src len v enough room =
    let fits : held r + len < r.size = omega (arith, length-contents r) in
    let e : accepted r len ≡ len = omega arith in
    rw (write-eq src v len (omega arith) enough, e)
      (refl, contents-filled src v len fits enough, filled-IsValid src v len (omega arith))

-- A `ringbuf_write` of as much as is free or more reports that it took just what was free, and
-- then the ring is empty: what it held before and what was written are both lost.
pub write_full-empty :
    {r : Ringbuf} (src : Bytes) (len : ℕ)
    → IsValid r
    → len < r.size
    → len ≤ length src
    → r.size ≤ length (contents r) + len
    → Returns
        (λ (n, q). (n + length (contents r) ≡ r.size) × (contents q ≡ []) × IsValid q)
        (write r src len)
write_full-empty {r} src len v h enough full =
    let e : accepted r len ≡ r.size - held r = omega (arith, length-contents r) in
    let lt = held-lt v in
    let empty : held (filled r src (r.size - held r)) ≡ 0 = ground arith in
    rw (write-eq src v len h enough, e)
      (
        omega (arith, length-contents r),
        tabulate_congr (held (filled r src (r.size - held r))) {m = 0} _ (λ i. i) empty
            (λ i k. absurd (omega arith)),
        filled-IsValid src v (r.size - held r) (omega arith),
      )
