-- ===== src/Atbuf/Write.antt =====
-- The writing side of src/atbuf.c: `atbuf_write_advance`, `atbuf_realloc` and `atbuf_write`.
use extlib.Common.{
  ℕ, ◌+◌, ◌-◌, ◌*◌, ◌^◌, ◌≤◌, ◌<◌, ◌≡◌, ◌≢◌, refl, true, ◌%◌, ap, ◌∙◌, inl, inr, none, some, ◌++◌,
  arith, ltb, leb, if◌then◌else◌, length, take, overwrite, length-overwrite, length-take,
  length-tabulate, tabulate_congr, tabulate-append, get_or, get_or-overwrite, get_or-tabulate, ok,
  abort, copy-ok, Returns, Bytes, Bool-cases,
}
use extlib.Atbuf.{Atbuf, spare, write_advance, Grant, resized, realloc, make_room, append, write}
use extlib.Atbuf.Inv.{InBounds, IsValid, contents}
use extlib.Atbuf.Tidy.{
  spare-eq, tidied, tidy-ok, tidied-IsValid, contents-tidied, size-tidied, tidied-offsets,
}

-- `b` with `n` more bytes counted as written
abbrev pub extended : Atbuf → ℕ → Atbuf
extended b n = record b { offset_in = b.offset_in + n }

pub extended-InBounds :
    {b : Atbuf} (n : ℕ) → InBounds b → b.offset_in + n < b.size → InBounds (extended b n)
extended-InBounds n v inside = omega arith

pub write_advance-ok :
    {b : Atbuf} (len : ℕ)
    → InBounds b
    → b.offset_in + len < b.size
    → write_advance b len ≡ ok (spare (tidied (extended b len)), tidied (extended b len))
unfolding write_advance
write_advance-ok {b} len v inside =
    let e : (b.offset_in + len) % 2 ^ 64 ≡ b.offset_in + len = omega arith in
    let t : ltb (b.offset_in + len) b.size ≡ true = ground arith in
    rw (e, t, tidy-ok (extended-InBounds len v inside))

-- `atbuf_write_advance` takes the next `len` bytes of the block, as the caller left them there, for
-- written, where they end before the last byte of the block.
pub write_advance-extended :
    {b : Atbuf} (len : ℕ)
    → InBounds b
    → b.offset_in + len < b.size
    → Returns
        (λ (n, c).
          IsValid c
          × (contents c ≡ contents (extended b len))
          × (n ≡ c.size - c.offset_in)
          × (c.size ≡ b.size))
        (write_advance b len)
write_advance-extended {b} len v inside =
    let w = extended-InBounds len v inside in
    let valid = tidied-IsValid w in
    rw (write_advance-ok len v inside)
      (valid, contents-tidied w, spare-eq valid.bounds, size-tidied (extended b len))

pub write_advance-abort :
    {b : Atbuf} (len : ℕ)
    → InBounds b
    → len < 2 ^ 63
    → b.size ≤ b.offset_in + len
    → write_advance b len ≡ abort
unfolding write_advance
write_advance-abort len v h past = ground arith

-- `b` with `n` bytes of `src` behind its contents
abbrev pub filled : Atbuf → Bytes → ℕ → Atbuf
filled b src n = record b { rawbuf = overwrite b.rawbuf b.offset_in (take n src) }

pub filled-InBounds : {b : Atbuf} (src : Bytes) (n : ℕ) → InBounds b → InBounds (filled b src n)
filled-InBounds {b} src n v = omega (arith, length-overwrite b.rawbuf b.offset_in (take n src))

pub contents-filled :
    {b : Atbuf} (src : Bytes) (n : ℕ)
    → InBounds b
    → b.offset_in + n < b.size
    → n ≤ length src
    → contents (extended (filled b src n) n) ≡ contents b ++ take n src
contents-filled {b} src n v room h =
    tabulate-append 0 (b.offset_in - b.offset_out) (b.offset_in + n - b.offset_out) _ _ (take n src)
      (omega (arith, length-take n src))
      (λ i k.
        ground (arith, get_or-overwrite 0 b.rawbuf b.offset_in (take n src) (b.offset_out + i)))
      (λ i k.
        let j = b.offset_out + (b.offset_in - b.offset_out + i) in
        let e : j ≡ b.offset_in + i = omega arith in
        rw e (
          ground (
            arith,
            get_or-overwrite 0 b.rawbuf b.offset_in (take n src) (b.offset_in + i),
            length-take n src,
          )))

-- what `atbuf_write` returns when it takes all `len` bytes and holds `bytes` then
abbrev pub Took : Bytes → ℕ → ℕ × Atbuf → Type 0
Took bytes len (n, c) = (n ≡ len) × (contents c ≡ bytes) × IsValid c

append-ok :
    {b : Atbuf} (src : Bytes) (len : ℕ)
    → InBounds b
    → b.offset_in + len < b.size
    → len ≤ length src
    → Returns (Took (contents b ++ take len src) len) (append b src len)
unfolding append
append-ok {b} src len v room h =
    let w = filled-InBounds src len v in
    let x = extended-InBounds len w room in
    let fits : leb len (spare b) ≡ true = ground arith in
    rw
      (
        fits,
        copy-ok b.rawbuf b.offset_in src 0 len (omega arith) (omega arith),
        write_advance-ok len w room,
      )
      (refl, contents-tidied x ∙ contents-filled src len v room h, tidied-IsValid x)

-- No room is left for the NUL behind the bytes.
append-abort :
    {b : Atbuf} (src : Bytes) (len : ℕ)
    → InBounds b
    → b.size ≤ b.offset_in + len
    → len ≤ length src
    → append b src len ≡ abort
unfolding append
append-abort {b} src len v full h =
    let n = b.size - b.offset_in in
    let m : (if leb len (spare b) then len else spare b) ≡ n = ground arith in
    rw (
      m,
      copy-ok b.rawbuf b.offset_in src 0 n (omega arith) (omega arith),
      write_advance-abort n (filled-InBounds src n v) (omega arith) (omega arith),
    )

-- `b` after a `realloc` that gave a block of `m` bytes
abbrev grown : Atbuf → (ℕ → ℕ) → ℕ → Atbuf
grown b fill m = record b { rawbuf = resized b.rawbuf m fill; size = m }

grown-InBounds :
    {b : Atbuf} (fill : ℕ → ℕ) (m : ℕ)
    → InBounds b
    → b.offset_in < m
    → m < 2 ^ 63
    → InBounds (grown b fill m)
grown-InBounds {b} fill m v h k =
    omega (
      arith,
      length-tabulate m λ i. if ltb i (length b.rawbuf) then get_or b.rawbuf i 0 else fill i,
    )

contents-grown :
    {b : Atbuf} (fill : ℕ → ℕ) (m : ℕ)
    → InBounds b
    → b.offset_in < m
    → contents (grown b fill m) ≡ contents b
contents-grown {b} fill m v h = tabulate_congr _ _ _ refl λ i k. ground (
  arith,
  get_or-tabulate 0 m (λ i. if ltb i (length b.rawbuf) then get_or b.rawbuf i 0 else fill i)
      (b.offset_out + i),
)

make_room-enough :
    {b : Atbuf} (grant : Grant) (len : ℕ)
    → InBounds b
    → b.offset_in + len ≤ b.size
    → make_room grant b len ≡ ok b
unfolding make_room
make_room-enough grant len v h = ground arith

-- the capacity that `atbuf_write` asks for
abbrev doubled : ℕ → ℕ → ℕ
doubled size len = if ltb len size then size * 2 else len * 2

make_room-grown :
    {b : Atbuf} (fill : ℕ → ℕ) (len : ℕ)
    → InBounds b
    → b.size < b.offset_in + len
    → b.size < 2 ^ 62
    → len < 2 ^ 62
    → make_room (some fill) b len ≡ ok (grown (tidied b) fill (doubled b.size len))
unfolding make_room realloc
make_room-grown {b} fill len v h k l =
    let t : ltb (spare b) len ≡ true = ground arith in
    rw (t, tidy-ok v, size-tidied b) (ap (λ m. ok (grown (tidied b) fill m)) (ground arith))

make_room-refused :
    {b : Atbuf} (len : ℕ)
    → InBounds b
    → b.size < b.offset_in + len
    → make_room none b len ≡ ok (tidied b)
unfolding make_room realloc
make_room-refused {b} len v h = let t : ltb (spare b) len ≡ true = ground arith in rw (t, tidy-ok v)

-- Where bytes fit before the last one of the block, or the allocator grants a larger block,
-- `atbuf_write` takes all of `src`, puts it behind what is there, and keeps the invariant. The one
-- length that is left out is the one that fills the block to its end.
pub write-append :
    {b : Atbuf} (fill : ℕ → ℕ) (src : Bytes) (len : ℕ)
    → IsValid b
    → len ≤ length src
    → b.size < 2 ^ 62
    → len < 2 ^ 62
    → b.offset_in + len ≢ b.size
    → Returns (Took (contents b ++ take len src) len) (write (some fill) b src len)
unfolding write
write-append {b} fill src len v h k l ne = elim (Bool-cases (ltb b.size (b.offset_in + len))) [
  | inl more ↦
      let m = doubled b.size len in
      let t = tidied-IsValid v.bounds in
      let inside : (tidied b).offset_in + len < m =
        ground (arith, tidied-offsets v.bounds, size-tidied b) in
      let g = grown-InBounds fill m t.bounds (omega arith) (ground arith) in
      let kept = contents-grown fill m t.bounds (omega arith) ∙ contents-tidied v.bounds in
      rw (make_room-grown fill len v.bounds (ground arith) k l)
        (rw kept at (append-ok src len g inside h))
  | inr room ↦
      let inside : b.offset_in + len < b.size = ground arith in
      rw (make_room-enough (some fill) len v.bounds (omega arith))
        (append-ok src len v.bounds inside h)
]

-- A write that would fill the block exactly to its end does not return: the assertion of
-- `atbuf_write_advance` fails, whatever the allocator would have given.
pub write_exact-abort :
    {b : Atbuf} (grant : Grant) (src : Bytes)
    → IsValid b
    → b.size - b.offset_in ≤ length src
    → write grant b src (b.size - b.offset_in) ≡ abort
unfolding write
write_exact-abort {b} grant src v h =
    rw (make_room-enough grant (b.size - b.offset_in) v.bounds (omega arith))
      (append-abort src (b.size - b.offset_in) v.bounds (omega arith) h)

-- Where the allocator refuses and the bytes reach the end of the block even from its start,
-- `atbuf_write` aborts too: it never makes the short write that it computes a length for.
pub write_refused-abort :
    {b : Atbuf} (src : Bytes) (len : ℕ)
    → IsValid b
    → len ≤ length src
    → b.size ≤ b.offset_in - b.offset_out + len
    → write none b src len ≡ abort
unfolding write
write_refused-abort {b} src len v h full = elim (Bool-cases (ltb b.size (b.offset_in + len))) [
  | inl more ↦ rw (make_room-refused len v.bounds (ground arith)) (
      append-abort src len (tidied-IsValid v.bounds).bounds
        (omega (arith, size-tidied b, tidied-offsets v.bounds)) h)
  | inr room ↦
      rw (make_room-enough none len v.bounds (ground arith))
        (append-abort src len v.bounds (omega arith) h)
]
