-- ===== src/Atbuf/Inv.antt =====
-- The invariant of a buffer between two calls, and what a buffer holds.
use extlib.Common.{◌+◌, ◌-◌, ◌^◌, ◌≤◌, ◌<◌, ◌≡◌, length, get_or, tabulate, Bytes}
use extlib.Atbuf.{Atbuf}

-- The offsets lie in the block.
pub record InBounds (b : Atbuf) : Type 0 where
  pub block : length b.rawbuf ≡ b.size
  pub in_inside : b.offset_in < b.size
  pub out_before : b.offset_out ≤ b.offset_in
  pub small : b.size < 2 ^ 63

-- Behind the last byte stands a NUL, so that the readers of text stop there.
pub record IsValid (b : Atbuf) : Type 0 where
  pub bounds : InBounds b
  pub open bounds use *
  pub terminated : get_or b.rawbuf b.offset_in 1 ≡ 0

-- the bytes written and not read yet, oldest first
abbrev pub contents : Atbuf → Bytes
contents b = tabulate (b.offset_in - b.offset_out) λ i. get_or b.rawbuf (b.offset_out + i) 0
