-- ===== src/Ringbuf.antt =====
-- src/ringbuf.c: a byte ring of fixed capacity. Bytes are written at `offset_in` and read at
-- `offset_out`, and both go round at `size`. A function that updates `*self` returns the new ring
-- beside its result.
pub mod Inv
pub mod New
pub mod Read
pub mod Placed
pub mod Write
mod Examples
use extlib.Common.{
  ℕ, ◌%◌, Bool, true, false, Option, none, some, ltb, leb, ◌==◌, if◌then◌else◌, replicate, Outcome,
  ok, ◌>>=◌, ◌>>◌, assert, Bytes, add_size, sub_size, copy,
}

-- `struct ringbuf`
pub record Ringbuf : Type 0 where
  pub rawbuf : Bytes
  pub size : ℕ
  pub offset_in : ℕ
  pub offset_out : ℕ

abbrev pub default_size : ℕ
default_size = 4096

-- `got_self` and `got_raw` say whether the two calls of `calloc` succeed.
pub new : (got_self got_raw : Bool) → ℕ → Option Ringbuf
new false got_raw size = none
new true false size = none
new true true size =
    let n = if size == 0 then default_size else size in
    some (record { rawbuf = replicate n 0; size = n; offset_in = 0; offset_out = 0 })

abbrev pub used : Ringbuf → ℕ
used self =
    if leb self.offset_out self.offset_in
    then sub_size self.offset_in self.offset_out
    else add_size self.offset_in (sub_size self.size self.offset_out)

abbrev pub spare : Ringbuf → ℕ
spare self = sub_size self.size (used self)

pub write_advance : Ringbuf → ℕ → Outcome Ringbuf
write_advance self len = do
  assert (leb len (spare self))
  ok (record self { offset_in = add_size self.offset_in len % self.size })

pub read_advance : Ringbuf → ℕ → Outcome Ringbuf
read_advance self len = do
  assert (leb len (used self))
  ok (record self { offset_out = add_size self.offset_out len % self.size })

-- The first branch of `ringbuf_write` where `len` goes past the end of the block: `right` bytes to
-- the end, then from the start at most up to `offset_out`. The results are the block and `cpy_cnt`.
write_round : Ringbuf → Bytes → ℕ → Outcome (Bytes × ℕ)
write_round self src len =
    let right = sub_size self.size self.offset_in in
    let rest = sub_size len right in
    let n = if leb rest self.offset_out then rest else self.offset_out in
    do
      raw ← copy self.rawbuf self.offset_in src 0 right
      raw' ← copy raw 0 src right n
      ok (raw', add_size right n)

-- `n` bytes at `offset_in`
write_straight : Ringbuf → Bytes → ℕ → Outcome (Bytes × ℕ)
write_straight self src n = do raw ← copy self.rawbuf self.offset_in src 0 n; ok (raw, n)

-- The copies of `ringbuf_write`.
write_bytes : Ringbuf → Bytes → ℕ → Outcome (Bytes × ℕ)
write_bytes self src len =
    if leb self.offset_out self.offset_in
    then if leb len (sub_size self.size self.offset_in)
      then write_straight self src len
      else write_round self src len
    else write_straight self src
        (let room = sub_size self.offset_out self.offset_in in if leb len room then len else room)

-- `src` is the caller's memory at `ptr`.
pub write : Ringbuf → Bytes → ℕ → Outcome (ℕ × Ringbuf)
write self src len = do
  assert (ltb len self.size)
  (raw, n) ← write_bytes self src len
  r ← write_advance (record self { rawbuf = raw }) n
  ok (n, r)

-- The copies of `ringbuf_peek`. In the second case the right part is copied whole, and the length
-- of the left part is computed in `size_t`.
peek_bytes : Ringbuf → Bytes → ℕ → Outcome Bytes
peek_bytes self dst n =
    let right = sub_size self.size self.offset_out in
    if leb self.offset_out self.offset_in then copy dst 0 self.rawbuf self.offset_out n else (do
      dst' ← copy dst 0 self.rawbuf self.offset_out right
      copy dst' right self.rawbuf 0 (sub_size n right))

-- `dst` is the caller's memory at `ptr`; the result is the count and that memory afterwards.
pub peek : Ringbuf → Bytes → ℕ → Outcome (ℕ × Bytes)
peek self dst size =
    let n = if ltb size (used self) then size else used self in
    do dst' ← peek_bytes self dst n; ok (n, dst')

pub read : Ringbuf → Bytes → ℕ → Outcome (ℕ × Bytes × Ringbuf)
read self dst size = do (n, dst') ← peek self dst size; r ← read_advance self n; ok (n, dst', r)
