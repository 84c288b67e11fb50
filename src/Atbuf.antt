-- ===== src/Atbuf.antt =====
-- src/atbuf.c: a growing byte buffer. Bytes are written at `offset_in` and read at `offset_out`.
-- A function that updates `*self` returns the new buffer beside its result. The answers of the
-- allocator are arguments: whether `calloc` gave a block, and what `realloc` gave.
pub mod Inv
pub mod New
pub mod Tidy
pub mod Read
pub mod Write
mod Examples
use extlib.Common.{
  ℕ, ◌/◌, ◌<◌, Bool, true, false, ◌||◌, Option, none, some, [], ◌∷◌, ltb, leb, ◌==◌, if◌then◌else◌,
  length, replicate, get_or, tabulate, Outcome, ok, ◌>>=◌, ◌>>◌, assert, Rc, success, failure,
  Bytes, add_size, sub_size, double_size, through_int, copy,
}

-- `struct atbuf`
pub record Atbuf : Type 0 where
  pub rawbuf : Bytes
  pub size : ℕ
  pub offset_in : ℕ
  pub offset_out : ℕ

abbrev pub default_size : ℕ
default_size = 4096

-- `got_self` and `got_raw` say whether the two calls of `calloc` succeed.
pub new : (got_self got_raw : Bool) → ℕ → Option Atbuf
new false got_raw size = none
new true false size = none
new true true size =
    let n = if size == 0 then default_size else size in
    some (record { rawbuf = replicate n 0; size = n; offset_in = 0; offset_out = 0 })

-- What `realloc` gives: nothing, or a block whose bytes behind the old ones are `fill`.
abbrev pub Grant : Type 0
Grant = Option (ℕ → ℕ)

abbrev pub resized : Bytes → ℕ → (ℕ → ℕ) → Bytes
resized raw len fill = tabulate len λ i. if ltb i (length raw) then get_or raw i 0 else fill i

pub realloc : Grant → Atbuf → ℕ → Rc × Atbuf
realloc none self len = (failure, self)
realloc (some fill) self len =
    (success, record self { rawbuf = resized self.rawbuf len fill; size = len })

abbrev pub garbage : Atbuf → ℕ
garbage self = self.offset_out

abbrev pub used : Atbuf → ℕ
used self = sub_size self.offset_in self.offset_out

abbrev pub spare : Atbuf → ℕ
spare self = sub_size self.size self.offset_in

-- `memmove` of the unread bytes to the start of the block
shift_down : Atbuf → Outcome Atbuf
shift_down self = do
  raw ← copy self.rawbuf 0 self.rawbuf self.offset_out (used self)
  ok (record self { rawbuf = raw; offset_in = used self; offset_out = 0 })

-- the branches of `atbuf_tidy`, before it writes the NUL
compact : Atbuf → Outcome Atbuf
unfolding shift_down
compact self =
    if used self == 0
    then ok (record self { offset_in = 0; offset_out = 0 })
    else if ltb (spare self) (self.size / 4) || ltb (self.size / 4) (garbage self)
    then shift_down self
    else ok self

pub tidy : Atbuf → Outcome (ℕ × Atbuf)
unfolding compact
tidy self = do
  b ← compact self
  raw ← copy b.rawbuf b.offset_in (0 ∷ []) 0 1
  ok (spare b, record b { rawbuf = raw })

pub read_advance : Atbuf → ℕ → Outcome (ℕ × Atbuf)
read_advance self len =
    let out =
      if ltb self.offset_in (add_size self.offset_out len)
      then self.offset_in
      else add_size self.offset_out len in
    do (_, b) ← tidy (record self { offset_out = out }); ok (used b, b)

pub write_advance : Atbuf → ℕ → Outcome (ℕ × Atbuf)
write_advance self len = do
  assert (ltb (add_size self.offset_in len) self.size)
  (_, b) ← tidy (record self { offset_in = add_size self.offset_in len })
  ok (spare b, b)

-- `dst` is the caller's memory at `ptr`; the result is the count and that memory afterwards.
pub peek : Atbuf → Bytes → ℕ → Outcome (ℕ × Bytes)
peek self dst len =
    let n = if leb len (used self) then len else used self in
    do dst' ← copy dst 0 self.rawbuf self.offset_out n; ok (n, dst')

-- The count goes through an `int`.
pub read : Atbuf → Bytes → ℕ → Outcome (ℕ × Bytes × Atbuf)
read self dst len = do
  (n, dst') ← peek self dst len
  (_, b) ← read_advance self (through_int n)
  ok (through_int n, dst', b)

-- The branch of `atbuf_write` that makes room.
make_room : Grant → Atbuf → ℕ → Outcome Atbuf
make_room grant self len =
    if ltb (spare self) len
    then (do
      (_, b) ← tidy self
      ok (realloc grant b (if ltb len b.size then double_size b.size else double_size len)).1)
    else ok self

-- The rest of `atbuf_write`. `src` is the caller's memory at `ptr`.
append : Atbuf → Bytes → ℕ → Outcome (ℕ × Atbuf)
append b src len =
    let n = if leb len (spare b) then len else spare b in
    do
      raw ← copy b.rawbuf b.offset_in src 0 n
      (_, c) ← write_advance (record b { rawbuf = raw }) n
      ok (n, c)

pub write : Grant → Atbuf → Bytes → ℕ → Outcome (ℕ × Atbuf)
write grant self src len = do b ← make_room grant self len; append b src len
