-- ===== src/Atbuf/Examples.antt =====
-- Runs of src/atbuf.c on small buffers, and the theorems at these.
use extlib.Common.{List, ◌++◌, ◌≡◌, refl, some, [], ◌∷◌, arith, ok, Bytes, copy}
use extlib.Queue.{Op, put, get, run, Fits}
use extlib.Queue.Buffers.{atbuf_queue, atbuf-RunsAsFifo}
use extlib.Atbuf.{
  Atbuf, peek, read_advance, compact, realloc, tidy, write_advance, read, write, append, make_room,
  shift_down,
}
use extlib.Atbuf.Inv.{IsValid, contents}

-- "ab" written into a block of 8 after one byte that is read already
abbrev small : Atbuf
small = record {
  rawbuf = 9 ∷ 97 ∷ 98 ∷ 0 ∷ 0 ∷ 0 ∷ 0 ∷ 0 ∷ [];
  size = 8;
  offset_in = 3;
  offset_out = 1;
}

abbrev text : Bytes
text = 99 ∷ 100 ∷ 101 ∷ 102 ∷ 103 ∷ 104 ∷ []

abbrev room : Bytes
room = 0 ∷ 0 ∷ 0 ∷ 0 ∷ []

small-IsValid : IsValid small
small-IsValid = omega arith

contents-small : contents small ≡ 97 ∷ 98 ∷ []
contents-small = refl

-- six bytes do not fit behind three: the block grows to 16
write_grows :
    write (some λ _. 7) small text 6
    ≡ ok (
      6,
      record {
        rawbuf = 9 ∷ 97 ∷ 98 ∷ 99 ∷ 100 ∷ 101 ∷ 102 ∷ 103 ∷ 104 ∷ 0 ∷ 7 ∷ 7 ∷ 7 ∷ 7 ∷ 7 ∷ 7 ∷ [];
        size = 16;
        offset_in = 9;
        offset_out = 1;
      },
    )
unfolding write append make_room shift_down tidy realloc write_advance copy
write_grows = refl

-- two writes, the first of which makes the block grow, and two reads
abbrev calls : List Op
calls = put text ∷ get 3 ∷ put (1 ∷ 2 ∷ []) ∷ get 9 ∷ []

calls-Fits : Fits (atbuf_queue λ _. 7) calls small
unfolding read peek read_advance write append make_room shift_down compact tidy realloc
    write_advance copy
calls-Fits = (omega arith, (omega arith, (omega arith, (omega arith, tt))))

atbuf-RunsAsFifo_example :
    (out : Bytes) × (c : Atbuf) × (run (atbuf_queue λ _. 7) calls small ≡ ok (out, c))
    × (out ≡ 97 ∷ 98 ∷ (text ++ (1 ∷ 2 ∷ [])))
    × (contents c ≡ [])
    × (out ++ contents c ≡ 97 ∷ 98 ∷ (text ++ (1 ∷ 2 ∷ [])))
    × IsValid c
atbuf-RunsAsFifo_example = atbuf-RunsAsFifo (λ _. 7) calls small small-IsValid calls-Fits
