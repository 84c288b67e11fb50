-- ===== src/Ringbuf/Examples.antt =====
-- Runs of src/ringbuf.c on small rings, and the theorems at these.
use extlib.Common.{
  List, ◌++◌, ok, copy, ◌+◌, ◌≡◌, refl, inl, inr, [], ◌∷◌, arith, fault, Returns, Bytes,
}
use extlib.Queue.{Op, put, get, run, Fits}
use extlib.Queue.Buffers.{ring_queue, ring-RunsAsFifo}
use extlib.Ringbuf.{
  Ringbuf, peek, peek_bytes, read, read_advance, write, write_bytes, write_round, write_straight,
  write_advance,
}
use extlib.Ringbuf.Inv.{IsValid, contents}
use extlib.Ringbuf.Read.{peek-fault}
use extlib.Ringbuf.Write.{write_full-empty}

-- "abc" round the end of a block of 5
abbrev turned : Ringbuf
turned = record { rawbuf = 99 ∷ 0 ∷ 0 ∷ 97 ∷ 98 ∷ []; size = 5; offset_in = 1; offset_out = 3 }

abbrev room : Bytes
room = 0 ∷ 0 ∷ 0 ∷ 0 ∷ []

turned-IsValid : IsValid turned
turned-IsValid = omega arith

contents-turned : contents turned ≡ 97 ∷ 98 ∷ 99 ∷ []
contents-turned = refl

-- one byte is asked for, and two lie before the end of the block
peek-fault_example : peek turned room 1 ≡ fault
peek-fault_example = peek-fault room 1 turned-IsValid (omega arith) (omega arith)

-- two bytes fill the block, and the ring is empty
write_full-empty_example :
    Returns
      (λ (n, q). (n + 3 ≡ 5) × (contents q ≡ []) × IsValid q)
      (write turned (100 ∷ 101 ∷ 102 ∷ []) 3)
write_full-empty_example =
    write_full-empty (100 ∷ 101 ∷ 102 ∷ []) 3 turned-IsValid (omega arith) (omega arith)
      (omega arith)

-- a write behind the bytes that go round the end, and reads of all that lies before the end
abbrev calls : List Op
calls = put (100 ∷ []) ∷ get 2 ∷ put (101 ∷ 102 ∷ []) ∷ get 9 ∷ []

calls-Fits : Fits ring_queue calls turned
unfolding read peek peek_bytes read_advance write write_bytes write_round write_straight
    write_advance copy
calls-Fits = (omega arith, (inr (omega arith), (omega arith, (inl (omega arith), tt))))

ring-RunsAsFifo_example :
    (out : Bytes) × (q : Ringbuf) × (run ring_queue calls turned ≡ ok (out, q))
    × (out ≡ 97 ∷ 98 ∷ 99 ∷ 100 ∷ 101 ∷ 102 ∷ [])
    × (contents q ≡ [])
    × (out ++ contents q ≡ 97 ∷ 98 ∷ 99 ∷ 100 ∷ 101 ∷ 102 ∷ [])
    × IsValid q
ring-RunsAsFifo_example = ring-RunsAsFifo calls turned turned-IsValid calls-Fits
