-- ===== src/Srrp/Read/Length.antt =====
-- What every packet has that the readers of src/srrp.c give.
use extlib.Common.{
  ◌++◌, ℕ, ◌+◌, ◌<◌, ◌≤◌, ◌≡◌, Option, none, some, [], ◌∷◌, arith, length, Outcome, ok, abort,
  fault, Bytes,
}
use extlib.Text.{codes, text_at, find_text}
use extlib.Srrp.{Packet}
use extlib.Srrp.Fields.{Fields, request_fields, response_fields, subpub_fields}
use extlib.Srrp.Read.{
  finish, read_with, read_one_request, read_one_response, read_one_subpub, read_one_packet,
  header_field,
}

-- The length is that of a front, a header and data; the header fits its field, and the other
-- numbers their 16 bits.
pub record IsSound (pac : Packet) : Type 0 where
  pub parts : pac.header_len + pac.data_len + 12 ≤ pac.len
  pub len_fits : pac.len < 65536
  pub header_fits : pac.header_len ≤ header_field
  pub srcid_fits : pac.srcid < 65536
  pub reqcrc16_fits : pac.reqcrc16 < 65536

-- The call gives a sound packet or none, or it faults, but no assertion fails.
abbrev pub GivesSound : Outcome (Option Packet) → Type 0
GivesSound (ok (some pac)) = IsSound pac
GivesSound (ok none) = Unit
GivesSound abort = ⊥
GivesSound fault = Unit

finish-GivesSound :
    (front : ℕ) (mem : Bytes) (f : Fields) (colon question : ℕ)
    → 10 ≤ front
    → GivesSound (finish front mem f colon question)
unfolding finish
finish-GivesSound front mem f colon question h = ground arith

read_with-GivesSound :
    (front : ℕ) (mem : Bytes) (f : Option Fields) → 10 ≤ front → GivesSound (read_with front mem f)
unfolding read_with
read_with-GivesSound front mem none h = tt
read_with-GivesSound front mem (some f) h =
    elim (find_text (codes ":/") (text_at mem))
      as (λ o. GivesSound (elim o [
        | none ↦ ok none
        | some colon ↦ elim (find_text (codes "?{") (text_at mem)) [
          | none ↦ ok none
          | some question ↦ finish front mem f colon question
        ]
      ])) [
        | none ↦ tt
        | some colon ↦
            elim (find_text (codes "?{") (text_at mem))
              as (λ o.
                GivesSound
                  (elim o [ none ↦ ok none | some question ↦ finish front mem f colon question ])) [
                    | none ↦ tt
                    | some question ↦ finish-GivesSound front mem f colon question h
                  ]
      ]

-- Whatever the memory holds, a packet that is read has the length of a front of at least ten bytes
-- with its header and its data, a header that fits its field, and numbers of 16 bits; no assertion
-- fails.
pub read_one_packet-GivesSound : (mem : Bytes) → GivesSound (read_one_packet mem)
unfolding read_one_packet read_one_request read_one_response read_one_subpub
read_one_packet-GivesSound [] = tt
read_one_packet-GivesSound (c ∷ mem) = ground (
  arith,
  read_with-GivesSound 15 (c ∷ mem) (request_fields (text_at (c ∷ mem))) (omega arith),
  read_with-GivesSound 20 (c ∷ mem) (response_fields (text_at (c ∷ mem))) (omega arith),
  read_with-GivesSound 10 (c ∷ mem) (subpub_fields (text_at (c ∷ mem))) (omega arith),
)

-- The reader gives the packet for its bytes, whatever lies behind them.
pub record IsReadable (pac : Packet) : Type 0 where
  pub reads : (rest : Bytes) → read_one_packet (pac.raw ++ rest) ≡ ok (some pac)
  pub counted : pac.len ≡ length pac.raw
  pub some_bytes : 0 < pac.len
  pub len_fits : pac.len < 65536
