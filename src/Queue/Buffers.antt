-- ===== src/Queue/Buffers.antt =====
-- src/atbuf.c and src/ringbuf.c as queues of bytes.
use mathlib.Core.Path.{subst}
use extlib.Common.{
  ℕ, ◌+◌, ◌^◌, ◌<◌, ◌≡◌, ◌≢◌, ap, ◌∙◌, some, List, ◌++◌, arith, min, length, length-take, take,
  take_all, drop, overwrite, replicate, length-replicate, take-overwrite, Outcome, ok, ◌>>=◌,
  Returns, Returns-mono, Returns-ok, Bytes,
}
use extlib.Atbuf.{Atbuf, write as atbuf_write, read as atbuf_read}
use extlib.Atbuf.Inv.{IsValid as IsValidAtbuf, contents as atbuf_contents}
use extlib.Atbuf.Read.{read-take-drop}
use extlib.Atbuf.Write.{write-append}
use extlib.Ringbuf.{Ringbuf, write as ringbuf_write, read as ringbuf_read}
use extlib.Ringbuf.Inv.{IsValid as IsValidRing, contents as ring_contents}
use extlib.Ringbuf.Read.{Reaches, read-oldest}
use extlib.Ringbuf.Write.{write-behind}
use extlib.Queue.{ByteQueue, Op, fifo, written, run, Fits}
use extlib.Queue.Fifo.{run-stream}

-- A read into new memory of `n` bytes gives the part of it that was filled.
abbrev into_new :
    {Q : Type 0} → (Q → Bytes → ℕ → Outcome (ℕ × Bytes × Q)) → Q → ℕ → Outcome (Bytes × Q)
into_new read q n = do (count, dst, c) ← read q (replicate n 0) n; ok (take count dst, c)

filled :
    (n : ℕ) (held : Bytes)
    → take (min n (length held)) (overwrite (replicate n 0) 0 (take n held)) ≡ take n held
filled n held =
    let counted = length-take n held in
    ap (λ k. take k (overwrite (replicate n 0) 0 (take n held))) (omega (arith, counted))
    ∙ take-overwrite (replicate n 0) (take n held)
        (omega (arith, counted, length-replicate {A = ℕ} n 0))

-- What a read gave and left, from what it reports.
into_new-Returns :
    {Q : Type 0} (read : Q → Bytes → ℕ → Outcome (ℕ × Bytes × Q)) (q : Q) (n : ℕ) (held : Bytes)
    (P R : Q → Type 0)
    → Returns
        (λ (count, dst, c).
          (count ≡ min n (length held))
          × (dst ≡ overwrite (replicate n 0) 0 (take n held))
          × P c
          × R c)
        (read q (replicate n 0) n)
    → Returns (λ (bytes, c). (bytes ≡ take n held) × P c × R c) (into_new read q n)
into_new-Returns read q n held P R h =
    let ((count, dst, c), e, (counted, given, p, r)) = Returns-ok _ (read q (replicate n 0) n) h in
    rw e (rw (counted, given) (filled n held), p, r)

module _ (b : Atbuf) (v : IsValidAtbuf b) where
  -- The bytes do not fill the block up to its end, and sizes are those of memory.
  abbrev AtbufRoom : Bytes → Type 0
  AtbufRoom src = (b.size < 2 ^ 62) × (length src < 2 ^ 62) × (b.offset_in + length src ≢ b.size)

  pub atbuf-write_law :
      (fill : ℕ → ℕ) (src : Bytes)
      → AtbufRoom src
      → Returns
          (λ (n, c).
            (n ≡ length src) × (atbuf_contents c ≡ atbuf_contents b ++ src) × IsValidAtbuf c)
          (atbuf_write (some fill) b src (length src))
  atbuf-write_law fill src (small, short, ne) =
      subst
        (λ bytes.
          Returns
            (λ (n, c).
              (n ≡ length src) × (atbuf_contents c ≡ atbuf_contents b ++ bytes) × IsValidAtbuf c)
            (atbuf_write (some fill) b src (length src)))
        (take_all (length src) src (omega arith))
        (write-append fill src (length src) v (omega arith) small short ne)

  pub atbuf-read_law :
      (n : ℕ)
      → n < 2 ^ 31
      → Returns
          (λ (bytes, c).
            (bytes ≡ take n (atbuf_contents b))
            × (atbuf_contents c ≡ drop n (atbuf_contents b))
            × IsValidAtbuf c)
          (into_new atbuf_read b n)
  atbuf-read_law n short =
      let size = length-replicate {A = ℕ} n 0 in
      into_new-Returns atbuf_read b n (atbuf_contents b)
        (λ c. atbuf_contents c ≡ drop n (atbuf_contents b)) IsValidAtbuf
        (Returns-mono (atbuf_read b (replicate n 0) n)
          (read-take-drop (replicate n 0) n v (omega (arith, size)) (omega arith))
          (λ (_, _, _) (counted, given, left, w, _). (counted, given, left, w)))

module _ (r : Ringbuf) (v : IsValidRing r) where
  -- A byte of the block stays free.
  abbrev RingRoom : Bytes → Type 0
  RingRoom src = length (ring_contents r) + length src < r.size

  pub ring-write_law :
      (src : Bytes)
      → RingRoom src
      → Returns
          (λ (n, c). (n ≡ length src) × (ring_contents c ≡ ring_contents r ++ src) × IsValidRing c)
          (ringbuf_write r src (length src))
  ring-write_law src room =
      subst
        (λ bytes.
          Returns
            (λ (n, c).
              (n ≡ length src) × (ring_contents c ≡ ring_contents r ++ bytes) × IsValidRing c)
            (ringbuf_write r src (length src)))
        (take_all (length src) src (omega arith))
        (write-behind src (length src) v (omega arith) room)

  pub ring-read_law :
      (n : ℕ)
      → Reaches r (min n (length (ring_contents r)))
      → Returns
          (λ (bytes, c).
            (bytes ≡ take n (ring_contents r))
            × (ring_contents c ≡ drop n (ring_contents r))
            × IsValidRing c)
          (into_new ringbuf_read r n)
  ring-read_law n reach =
      let size = length-replicate {A = ℕ} n 0 in
      into_new-Returns ringbuf_read r n (ring_contents r)
        (λ c. ring_contents c ≡ drop n (ring_contents r)) IsValidRing
        (Returns-mono (ringbuf_read r (replicate n 0) n)
          (read-oldest (replicate n 0) n v (omega (arith, size)) reach)
          (λ (_, _, _) (counted, given, left, w). (counted, given, left, w)))

-- `fill` are the bytes that `realloc` finds behind those that it keeps; it succeeds.
abbrev pub atbuf_queue : (ℕ → ℕ) → ByteQueue Atbuf
atbuf_queue fill = record {
  write = λ b src. atbuf_write (some fill) b src (length src);
  read = into_new atbuf_read;
  held = atbuf_contents;
  IsGood = IsValidAtbuf;
  HasRoom =
      λ b src. (b.size < 2 ^ 62) × (length src < 2 ^ 62) × (b.offset_in + length src ≢ b.size);
  CanGive = λ b n. n < 2 ^ 31;
  write_law = λ b src v room. atbuf-write_law b v fill src room;
  read_law = λ b n v short. atbuf-read_law b v n short;
}

abbrev pub ring_queue : ByteQueue Ringbuf
ring_queue = record {
  write = λ r src. ringbuf_write r src (length src);
  read = into_new ringbuf_read;
  held = ring_contents;
  IsGood = IsValidRing;
  HasRoom = λ r src. length (ring_contents r) + length src < r.size;
  CanGive = λ r n. Reaches r (min n (length (ring_contents r)));
  write_law = λ r src v room. ring-write_law r v src room;
  read_law = λ r n v reach. ring-read_law r v n reach;
}

-- Any sequence of `atbuf_write` and `atbuf_read` on a valid buffer returns, where `realloc`
-- succeeds, each read asks for fewer than 2^31 bytes, each write is of fewer than 2^62 bytes into a
-- block of fewer than 2^62, and none ends exactly at the end of the block; the reads give what the
-- abstract queue gives, and the buffer holds what that holds: what comes out, and then what is
-- held, is what was held and what was written, in this order.
pub atbuf-RunsAsFifo :
    (fill : ℕ → ℕ) (ops : List Op) (b : Atbuf)
    → IsValidAtbuf b
    → Fits (atbuf_queue fill) ops b
    → (out : Bytes) × (c : Atbuf) × (run (atbuf_queue fill) ops b ≡ ok (out, c))
      × (out ≡ (fifo ops (atbuf_contents b)).0)
      × (atbuf_contents c ≡ (fifo ops (atbuf_contents b)).1)
      × (out ++ atbuf_contents c ≡ atbuf_contents b ++ written ops)
      × IsValidAtbuf c
atbuf-RunsAsFifo fill ops b v h = run-stream (atbuf_queue fill) ops b v h

-- The same of `ringbuf_write` and `ringbuf_read`, where each write leaves a byte free and no read ends
-- before the end of the block while the contents go on round it.
pub ring-RunsAsFifo :
    (ops : List Op) (r : Ringbuf)
    → IsValidRing r
    → Fits ring_queue ops r
    → (out : Bytes) × (q : Ringbuf) × (run ring_queue ops r ≡ ok (out, q))
      × (out ≡ (fifo ops (ring_contents r)).0)
      × (ring_contents q ≡ (fifo ops (ring_contents r)).1)
      × (out ++ ring_contents q ≡ ring_contents r ++ written ops)
      × IsValidRing q
ring-RunsAsFifo ops r v h = run-stream ring_queue ops r v h
