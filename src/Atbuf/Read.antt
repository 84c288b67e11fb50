-- ===== src/Atbuf/Read.antt =====
-- The reading side of src/atbuf.c: `atbuf_read_advance`, `atbuf_peek` and `atbuf_read` take the
-- oldest bytes first.
use extlib.Common.{
  ℕ, ◌+◌, ◌-◌, ◌^◌, ◌≤◌, ◌<◌, ◌≡◌, refl, sym, ◌∙◌, arith, ltb, if◌then◌else◌, length, take, drop,
  overwrite, tabulate_congr, length-tabulate, drop-tabulate, take-tabulate, eq-tabulate, get_or,
  get_or-take, get_or-drop, length-take, length-drop, drop-min, min, ok, copy-ok, Returns, Bytes,
  through_int, Returns-ok, list_ext, length-append, get_or-append, get_or-tabulate, suc, zero, ◌++◌,
  [], ◌∷◌, ap,
}
use extlib.Atbuf.{Atbuf, used, read_advance, peek, read}
use extlib.Atbuf.Inv.{InBounds, IsValid, contents}
use extlib.Atbuf.Tidy.{used-eq, tidied, tidy-ok, tidied-IsValid, contents-tidied, size-tidied}

-- `b` with `len` bytes skipped, or all that there are
abbrev skipped : Atbuf → ℕ → Atbuf
skipped b len = record b {
  offset_out = if ltb b.offset_in (b.offset_out + len) then b.offset_in else b.offset_out + len;
}

skipped-InBounds : {b : Atbuf} (len : ℕ) → InBounds b → InBounds (skipped b len)
skipped-InBounds len v = ground arith

contents-skipped :
    {b : Atbuf} (len : ℕ) → InBounds b → contents (skipped b len) ≡ drop len (contents b)
contents-skipped {b} len v =
    tabulate_congr _ _ _ (ground arith) (λ i h. ground arith)
    ∙ sym
        (drop-tabulate 0 len (b.offset_in - b.offset_out) λ i. get_or b.rawbuf (b.offset_out + i) 0)

read_advance-ok :
    {b : Atbuf} (len : ℕ)
    → InBounds b
    → len ≤ 2 ^ 63
    → read_advance b len ≡ ok (used (tidied (skipped b len)), tidied (skipped b len))
unfolding read_advance
read_advance-ok {b} len v h = ground (arith, tidy-ok (skipped-InBounds len v))

pub length-contents : (b : Atbuf) → length (contents b) ≡ b.offset_in - b.offset_out
length-contents b = length-tabulate _ _

-- Skipping `len` bytes drops the `len` oldest (all, if there are fewer), keeps the rest in order,
-- the capacity and the invariant, and returns how many bytes are left.
pub read_advance-drop :
    {b : Atbuf} (len : ℕ)
    → IsValid b
    → len ≤ 2 ^ 63
    → Returns
        (λ (n, c).
          IsValid c
          × (contents c ≡ drop len (contents b))
          × (n ≡ length (contents c))
          × (c.size ≡ b.size))
        (read_advance b len)
read_advance-drop {b} len v h =
    let w = skipped-InBounds len v.bounds in
    let t = tidied-IsValid w in
    rw (read_advance-ok len v.bounds h) (
      t,
      contents-tidied w ∙ contents-skipped len v.bounds,
      used-eq t.bounds ∙ sym (length-contents (tidied (skipped b len))),
      size-tidied (skipped b len),
    )

-- the bytes that `atbuf_peek` copies
unread-eq :
    {b : Atbuf} (len : ℕ)
    → InBounds b
    → take (min len (b.offset_in - b.offset_out)) (drop b.offset_out b.rawbuf)
      ≡ take len (contents b)
unread-eq {b} len v =
    let n = b.offset_in - b.offset_out in
    eq-tabulate 0 _ (min len n) (λ i. get_or b.rawbuf (b.offset_out + i) 0)
      (omega (
        arith,
        length-take (min len n) (drop b.offset_out b.rawbuf),
        length-drop b.offset_out b.rawbuf,
      ))
      (λ i h. ground (
        arith,
        get_or-take 0 (min len n) (drop b.offset_out b.rawbuf) i,
        get_or-drop 0 b.offset_out b.rawbuf i,
      ))
    ∙ sym (take-tabulate 0 len n λ i. get_or b.rawbuf (b.offset_out + i) 0)

-- `atbuf_peek` copies the `len` oldest bytes (all, if there are fewer) to the start of memory that
-- is long enough, and returns their number.
pub peek-take :
    {b : Atbuf} (dst : Bytes) (len : ℕ)
    → IsValid b
    → min len (length (contents b)) ≤ length dst
    → peek b dst len ≡ ok (min len (length (contents b)), overwrite dst 0 (take len (contents b)))
unfolding peek
peek-take {b} dst len v h = ground (
  arith,
  length-contents b,
  unread-eq len v.bounds,
  copy-ok dst 0 b.rawbuf b.offset_out (min len (b.offset_in - b.offset_out)),
)

-- `atbuf_read` delivers the `len` oldest bytes (all, if there are fewer) to memory that is long
-- enough, returns their number, and leaves exactly the bytes after them, as long as fewer than
-- 2 ^ 31 are copied.
pub read-take-drop :
    {b : Atbuf} (dst : Bytes) (len : ℕ)
    → IsValid b
    → min len (length (contents b)) ≤ length dst
    → min len (length (contents b)) < 2 ^ 31
    → Returns
        (λ (n, dst', c).
          (n ≡ min len (length (contents b)))
          × (dst' ≡ overwrite dst 0 (take len (contents b)))
          × (contents c ≡ drop len (contents b))
          × IsValid c
          × (c.size ≡ b.size))
        (read b dst len)
unfolding read
read-take-drop {b} dst len v h k =
    let m = min len (length (contents b)) in
    let same : through_int m ≡ m = ground arith in
    let w = skipped-InBounds m v.bounds in
    rw (peek-take dst len v h, same, read_advance-ok m v.bounds (omega arith))
      (
        refl,
        refl,
        contents-tidied w ∙ contents-skipped m v.bounds ∙ drop-min len (contents b),
        tidied-IsValid w,
        size-tidied (skipped b m),
      )

-- the buffer that `atbuf_read_advance` leaves
pub read_advance-leaves :
    {b : Atbuf} (len : ℕ)
    → IsValid b
    → len ≤ 2 ^ 63
    → (n : ℕ) × (c : Atbuf) × (read_advance b len ≡ ok (n, c))
      × IsValid c
      × (contents c ≡ drop len (contents b))
read_advance-leaves {b} len v h =
    let r = Returns-ok _ (read_advance b len) (read_advance-drop len v h) in
    (r.0.0, r.0.1, r.1, r.2.0, r.2.1)

drop_here :
    (d : ℕ) (n : ℕ) (xs : Bytes) → n < length xs → drop n xs ≡ get_or xs n d ∷ drop (suc n) xs
drop_here d zero [] h = absurd (omega (arith, h))
drop_here d zero (x ∷ xs) h = refl
drop_here d (suc n) [] h = absurd (omega (arith, h))
drop_here d (suc n) (x ∷ xs) h = drop_here d n xs (omega (arith, h))

-- In memory the unread bytes stand at the read position, with a NUL behind them.
pub unread_memory-eq :
    {b : Atbuf}
    → IsValid b
    → drop b.offset_out b.rawbuf ≡ contents b ++ (0 ∷ drop (suc b.offset_in) b.rawbuf)
unread_memory-eq {b} v =
    let split : drop b.offset_out b.rawbuf ≡ contents b ++ drop b.offset_in b.rawbuf =
      list_ext 0 _ _
        (omega (
          arith,
          length-contents b,
          length-drop b.offset_out b.rawbuf,
          length-drop b.offset_in b.rawbuf,
          length-append (contents b) (drop b.offset_in b.rawbuf),
        ))
        (λ i h. ground (
          arith,
          length-contents b,
          get_or-drop 0 b.offset_out b.rawbuf i,
          get_or-drop 0 b.offset_in b.rawbuf (i - (b.offset_in - b.offset_out)),
          get_or-append 0 (contents b) (drop b.offset_in b.rawbuf) i,
          get_or-tabulate 0 (b.offset_in - b.offset_out) (λ k. get_or b.rawbuf (b.offset_out + k) 0)
              i,
        )) in
    let here = drop_here 1 b.offset_in b.rawbuf (omega (arith, v.bounds)) in
    let nul = v.terminated in
    split ∙ ap (λ t. contents b ++ t) (here ∙ ap (λ c. c ∷ drop (suc b.offset_in) b.rawbuf) nul)
