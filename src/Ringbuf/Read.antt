-- ===== src/Ringbuf/Read.antt =====
-- The reading side of src/ringbuf.c: `ringbuf_read_advance`, `ringbuf_peek` and `ringbuf_read`.
use extlib.Common.{
  ℕ, ◌+◌, ◌-◌, ◌%◌, ◌^◌, ◌≤◌, ◌<◌, ◌≡◌, ◌⊎◌, refl, true, sym, ◌∙◌, inl, inr, ◌++◌, arith, leb,
  length, take, drop, overwrite, overwrite-append, length-overwrite, tabulate_congr, length-take,
  length-drop, length-append, drop-tabulate, take-tabulate, eq-tabulate, get_or, get_or-take,
  get_or-drop, get_or-append, drop-min, take-min, min, ok, fault, copy, copy-ok, copy-source_fault,
  copy-cases, ◌>>=◌, Returns, Bytes,
}
use extlib.Ringbuf.{Ringbuf, used, read_advance, peek_bytes, peek, read}
use extlib.Ringbuf.Inv.{IsValid, wrap, wrap-eq, held, contents, length-contents, used-held}

-- `r` with `len` bytes skipped
abbrev skipped : Ringbuf → ℕ → Ringbuf
skipped r len = record r { offset_out = wrap r.size (r.offset_out + len) }

read_advance-ok :
    {r : Ringbuf} (len : ℕ) → IsValid r → len ≤ held r → read_advance r len ≡ ok (skipped r len)
unfolding read_advance
read_advance-ok {r} len v h =
    let t : leb len (used r) ≡ true = ground (arith, used-held v) in
    let e : (r.offset_out + len) % 2 ^ 64 ≡ r.offset_out + len = ground arith in
    rw (t, e, wrap-eq r.size (r.offset_out + len) (ground arith))

skipped-IsValid : {r : Ringbuf} (len : ℕ) → IsValid r → len ≤ held r → IsValid (skipped r len)
skipped-IsValid len v h = ground arith

held-skipped :
    {r : Ringbuf} (len : ℕ) → IsValid r → len ≤ held r → held (skipped r len) ≡ held r - len
held-skipped len v h = ground arith

contents-skipped :
    {r : Ringbuf} (len : ℕ)
    → IsValid r
    → len ≤ held r
    → contents (skipped r len) ≡ drop len (contents r)
contents-skipped {r} len v h =
    tabulate_congr _ _ _ (held-skipped len v h) (λ i k.
      let e : wrap r.size (wrap r.size (r.offset_out + len) + i)
          ≡ wrap r.size (r.offset_out + (len + i)) =
        ground (arith, held-skipped len v h) in
      rw e)
    ∙ sym (drop-tabulate 0 len (held r) λ i. get_or r.rawbuf (wrap r.size (r.offset_out + i)) 0)

-- `ringbuf_read_advance` of at most what the ring holds drops that many of the oldest bytes and
-- keeps the rest in order.
pub read_advance-oldest :
    {r : Ringbuf} (len : ℕ)
    → IsValid r
    → len ≤ length (contents r)
    → Returns (λ q. IsValid q × (contents q ≡ drop len (contents r))) (read_advance r len)
read_advance-oldest {r} len v h =
    let fits : len ≤ held r = omega (arith, length-contents r) in
    rw (read_advance-ok len v fits) (skipped-IsValid len v fits, contents-skipped len v fits)

-- `n` bytes lie in one piece, or go on round the end of the block.
abbrev pub Reaches : Ringbuf → ℕ → Type 0
Reaches r n = (r.offset_out ≤ r.offset_in) ⊎ (r.size - r.offset_out ≤ n)

-- the bytes in one piece
straight-eq :
    {r : Ringbuf} (n : ℕ)
    → IsValid r
    → r.offset_out + n ≤ r.size
    → n ≤ held r
    → take n (drop r.offset_out r.rawbuf) ≡ take n (contents r)
straight-eq {r} n v room h =
    eq-tabulate 0 _ (min n (held r)) (λ i. get_or r.rawbuf (wrap r.size (r.offset_out + i)) 0)
      (omega (arith, length-take n (drop r.offset_out r.rawbuf), length-drop r.offset_out r.rawbuf))
      (λ i k. ground (
        arith,
        get_or-take 0 n (drop r.offset_out r.rawbuf) i,
        get_or-drop 0 r.offset_out r.rawbuf i,
      ))
    ∙ sym (take-tabulate 0 n (held r) λ i. get_or r.rawbuf (wrap r.size (r.offset_out + i)) 0)

-- the bytes in two pieces
round-eq :
    {r : Ringbuf} (n : ℕ)
    → IsValid r
    → r.size - r.offset_out ≤ n
    → n ≤ held r
    → take (r.size - r.offset_out) (drop r.offset_out r.rawbuf)
        ++ take (n - (r.size - r.offset_out)) (drop 0 r.rawbuf)
      ≡ take n (contents r)
round-eq {r} n v long h =
    let right = r.size - r.offset_out in
    let front = take right (drop r.offset_out r.rawbuf) in
    let back = take (n - right) r.rawbuf in
    let front_length = length-take right (drop r.offset_out r.rawbuf) in
    let dropped = length-drop r.offset_out r.rawbuf in
    eq-tabulate 0 (front ++ back) (min n (held r))
      (λ i. get_or r.rawbuf (wrap r.size (r.offset_out + i)) 0)
      (ground
        (arith, length-append front back, front_length, length-take (n - right) r.rawbuf, dropped))
      (λ i k. ground (
        arith,
        get_or-append 0 front back i,
        front_length,
        dropped,
        get_or-take 0 right (drop r.offset_out r.rawbuf) i,
        get_or-drop 0 r.offset_out r.rawbuf i,
        get_or-take 0 (n - right) r.rawbuf (i - right),
      ))
    ∙ sym (take-tabulate 0 n (held r) λ i. get_or r.rawbuf (wrap r.size (r.offset_out + i)) 0)

overwrite_both :
    (xs : Bytes) (p : ℕ) (ys zs : Bytes)
    → p ≡ length ys
    → overwrite (overwrite xs 0 ys) p zs ≡ overwrite xs 0 (ys ++ zs)
overwrite_both xs p ys zs e =
    let e' : p ≡ 0 + length ys = omega arith in rw e' (overwrite-append xs 0 ys zs)

-- the two copies of `ringbuf_peek`
copy_round :
    {r : Ringbuf} (dst : Bytes) (n : ℕ)
    → IsValid r
    → n ≤ held r
    → n ≤ length dst
    → r.size - r.offset_out ≤ n
    → (copy dst 0 r.rawbuf r.offset_out (r.size - r.offset_out) >>= λ dst'.
        copy dst' (r.size - r.offset_out) r.rawbuf 0 (n - (r.size - r.offset_out)))
      ≡ ok (overwrite dst 0 (take n (contents r)))
copy_round {r} dst n v h room long =
    let right = r.size - r.offset_out in
    let front = take right (drop r.offset_out r.rawbuf) in
    let front_length = length-take right (drop r.offset_out r.rawbuf) in
    let dropped = length-drop r.offset_out r.rawbuf in
    let inside : right + (n - right) ≤ length (overwrite dst 0 front) =
      omega (arith, length-overwrite dst 0 front) in
    let whole : 0 + (n - right) ≤ length r.rawbuf = ground arith in
    rw (
      copy-ok dst 0 r.rawbuf r.offset_out right (omega arith) (omega arith),
      copy-ok (overwrite dst 0 front) right r.rawbuf 0 (n - right) inside whole,
      overwrite_both dst right front (take (n - right) (drop 0 r.rawbuf)) (omega arith),
      round-eq n v long h,
    )

peek_bytes-ok :
    {r : Ringbuf} (dst : Bytes) (n : ℕ)
    → IsValid r
    → n ≤ held r
    → n ≤ length dst
    → Reaches r n
    → peek_bytes r dst n ≡ ok (overwrite dst 0 (take n (contents r)))
unfolding peek_bytes
peek_bytes-ok {r} dst n v h room reach =
    ground
      (arith, copy-ok dst 0 r.rawbuf r.offset_out n, straight-eq n v, copy_round dst n v h room)

-- `ringbuf_peek` copies the `size` oldest bytes (all, if there are fewer) to the start of memory
-- that is long enough, and returns their number, where they lie in one piece or take up all that
-- is left before the end of the block.
pub peek-oldest :
    {r : Ringbuf} (dst : Bytes) (size : ℕ)
    → IsValid r
    → min size (length (contents r)) ≤ length dst
    → Reaches r (min size (length (contents r)))
    → peek r dst size
      ≡ ok (min size (length (contents r)), overwrite dst 0 (take size (contents r)))
unfolding peek
peek-oldest {r} dst size v room reach =
    let n = min size (length (contents r)) in
    ground
      (arith, length-contents r, used-held v, peek_bytes-ok dst n v, take-min size (contents r))

-- `ringbuf_read` delivers the `size` oldest bytes (all, if there are fewer) to memory that is long
-- enough, returns their number and leaves exactly the bytes after them, under the condition of
-- `ringbuf_peek`.
pub read-oldest :
    {r : Ringbuf} (dst : Bytes) (size : ℕ)
    → IsValid r
    → min size (length (contents r)) ≤ length dst
    → Reaches r (min size (length (contents r)))
    → Returns
        (λ (n, dst', q).
          (n ≡ min size (length (contents r)))
          × (dst' ≡ overwrite dst 0 (take size (contents r)))
          × (contents q ≡ drop size (contents r))
          × IsValid q)
        (read r dst size)
unfolding read
read-oldest {r} dst size v room reach =
    let n = min size (length (contents r)) in
    let fits : n ≤ held r = omega (arith, length-contents r) in
    rw (peek-oldest dst size v room reach, read_advance-ok n v fits)
      (refl, refl, contents-skipped n v fits ∙ drop-min size (contents r), skipped-IsValid n v fits)

-- Where the bytes go round the end of the block and fewer are asked for than lie before the end,
-- `ringbuf_peek` copies outside its buffers: the length of the second copy wraps around.
pub peek-fault :
    {r : Ringbuf} (dst : Bytes) (size : ℕ)
    → IsValid r
    → r.offset_in < r.offset_out
    → size < r.size - r.offset_out
    → peek r dst size ≡ fault
unfolding peek peek_bytes
peek-fault {r} dst size v turned short =
    let right = r.size - r.offset_out in
    elim (copy-cases dst 0 r.rawbuf r.offset_out right) [
      | inl e ↦ ground (arith, e)
      | inr (dst', e) ↦
          ground (arith, e, copy-source_fault dst' right r.rawbuf 0 (size + 2 ^ 64 - right))
    ]
