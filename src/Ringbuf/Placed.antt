-- ===== src/Ringbuf/Placed.antt =====
-- Where the bytes of one `ringbuf_write` of src/ringbuf.c lie in the block.
use extlib.Common.{
  ℕ, ◌+◌, ◌-◌, ◌≤◌, ◌<◌, ◌≡◌, ap, ◌∙◌, inl, inr, arith, ltb, leb, if◌then◌else◌, Bool-cases, length,
  take, drop, overwrite, length-overwrite, length-take, length-drop, get_or, get_or-take,
  get_or-drop, get_or-overwrite, Bytes,
}
use extlib.Ringbuf.{Ringbuf}
use extlib.Ringbuf.Inv.{IsValid, wrap, held}

-- the block with the first `n` bytes of `src` behind the bytes of the ring
unfoldable pub placed : Ringbuf → Bytes → ℕ → Bytes
placed r src n =
    let right = r.size - r.offset_in in
    if leb n right
    then overwrite r.rawbuf r.offset_in (take n src)
    else overwrite (overwrite r.rawbuf r.offset_in (take right src)) 0
        (take (n - right) (drop right src))

-- what is read back of one write, and of a write that goes round
written :
    (raw : Bytes) (p n : ℕ) (src : Bytes) (i : ℕ)
    → n ≤ length src
    → i < n
    → p + n ≤ length raw
    → get_or (overwrite raw p (take n src)) (p + i) 0 ≡ get_or src i 0
written raw p n src i enough h room =
    let e : p + i - p ≡ i = omega arith in
    ground (
      arith,
      get_or-overwrite 0 raw p (take n src) (p + i),
      length-take n src,
      get_or-take 0 n src i,
      ap (λ k. get_or (take n src) k 0) e,
    )

written_front :
    (raw : Bytes) (p right m : ℕ) (src : Bytes) (i : ℕ)
    → right ≤ length src
    → i < right
    → p + right ≤ length raw
    → m ≤ p
    → get_or (overwrite (overwrite raw p (take right src)) 0 (take m (drop right src))) (p + i) 0
      ≡ get_or src i 0
written_front raw p right m src i enough h room below =
    let ys = take m (drop right src) in
    ground (
      arith,
      get_or-overwrite 0 (overwrite raw p (take right src)) 0 ys (p + i),
      length-overwrite raw p (take right src),
      length-take m (drop right src),
      written raw p right src i enough h room,
    )

written_back :
    (raw : Bytes) (p right m : ℕ) (src : Bytes) (i : ℕ)
    → right + m ≤ length src
    → i < m
    → m ≤ length raw
    → get_or (overwrite (overwrite raw p (take right src)) 0 (take m (drop right src))) i 0
      ≡ get_or src (right + i) 0
written_back raw p right m src i enough h room =
    let ys = take m (drop right src) in
    let e : i - 0 ≡ i = omega arith in
    ground (
      arith,
      get_or-overwrite 0 (overwrite raw p (take right src)) 0 ys i,
      length-overwrite raw p (take right src),
      length-take m (drop right src),
      length-drop right src,
      get_or-take 0 m (drop right src) i,
      get_or-drop 0 right src i,
      ap (λ k. get_or ys k 0) e,
    )

module _ {r : Ringbuf} (src : Bytes) (v : IsValid r) where
  pub length-placed : (n : ℕ) → length (placed r src n) ≡ r.size
  unfolding placed
  length-placed n =
      let right = r.size - r.offset_in in
      let raw = overwrite r.rawbuf r.offset_in (take right src) in
      ground (
        arith,
        length-overwrite r.rawbuf r.offset_in (take n src),
        length-overwrite r.rawbuf r.offset_in (take right src),
        length-overwrite raw 0 (take (n - right) (drop right src)),
      )

  -- the bytes at `wrap (offset_in + i)` are those of `src`
  pub placed-new :
      (n i : ℕ)
      → n ≤ r.size - held r
      → n ≤ length src
      → i < n
      → get_or (placed r src n) (wrap r.size (r.offset_in + i)) 0 ≡ get_or src i 0
  unfolding placed
  placed-new n i room enough h =
      let right = r.size - r.offset_in in
      elim (Bool-cases (leb n right)) [
        | inl one ↦
            let e : wrap r.size (r.offset_in + i) ≡ r.offset_in + i = ground arith in
            rw (one, e) (written r.rawbuf r.offset_in n src i (omega arith) h (ground arith))
        | inr two ↦ elim (Bool-cases (ltb i right)) [
          | inl low ↦
              let e : wrap r.size (r.offset_in + i) ≡ r.offset_in + i = ground arith in
              rw (two, e)
                (written_front r.rawbuf r.offset_in right (n - right) src i (ground arith)
                  (ground arith) (ground arith) (ground arith))
          | inr high ↦
              let e : wrap r.size (r.offset_in + i) ≡ i - right = ground arith in
              let e' : right + (i - right) ≡ i = ground arith in
              rw (two, e)
                (written_back r.rawbuf r.offset_in right (n - right) src (i - right) (ground arith)
                    (ground arith) (ground arith)
                  ∙ ap (λ k. get_or src k 0) e')
        ]
      ]

  -- the bytes that the ring held stay
  pub placed-old :
      (n i : ℕ)
      → n ≤ r.size - held r
      → n ≤ length src
      → i < held r
      → get_or (placed r src n) (wrap r.size (r.offset_out + i)) 0
        ≡ get_or r.rawbuf (wrap r.size (r.offset_out + i)) 0
  unfolding placed
  placed-old n i room enough h =
      let right = r.size - r.offset_in in
      let raw = overwrite r.rawbuf r.offset_in (take right src) in
      let j = wrap r.size (r.offset_out + i) in
      ground (
        arith,
        get_or-overwrite 0 r.rawbuf r.offset_in (take n src) j,
        length-take n src,
        get_or-overwrite 0 raw 0 (take (n - right) (drop right src)) j,
        get_or-overwrite 0 r.rawbuf r.offset_in (take right src) j,
        length-overwrite r.rawbuf r.offset_in (take right src),
        length-take right src,
        length-take (n - right) (drop right src),
        length-drop right src,
      )

-- `r` with `n` bytes of `src` written
abbrev pub filled : Ringbuf → Bytes → ℕ → Ringbuf
filled r src n = record r { rawbuf = placed r src n; offset_in = wrap r.size (r.offset_in + n) }
