-- ===== src/Srrp/Read.antt =====
-- The readers of src/srrp.c. The argument is the memory from `buf` to the end of its object, with a
-- NUL in it.
pub mod Back
pub mod Length
use extlib.Common.{
  ℕ, ◌+◌, ◌-◌, ◌%◌, ◌^◌, Bool, true, false, ◌&&◌, ◌||◌, Option, none, some, List, [], ◌∷◌, ltb,
  ◌==◌, if◌then◌else◌, length, take, drop, Outcome, ok, fault, Bytes,
}
use extlib.Text.{codes, text_at, find_text}
use extlib.Srrp.{
  Packet, request_leader, response_leader, subscribe_leader, unsubscribe_leader, publish_leader,
}
use extlib.Srrp.Fields.{Fields, request_fields, response_fields, subpub_fields}

-- `SRRP_HEADER_LEN`
abbrev pub header_field : ℕ
header_field = 128

-- `data_delimiter - header`, in the `uint32_t` that holds it
abbrev span : ℕ → ℕ → ℕ
span header delimiter = (delimiter + 2 ^ 32 - header) % 2 ^ 32

-- What the three readers do behind `sscanf`, where `front` is the length that they take the part
-- before the header to have. The copy of `len` bytes faults where the memory is shorter, that of
-- the header where its field is. A packet whose header fills its field, so that no NUL ends it, or
-- whose data do not end in `raw`, since the part before the header is longer than taken, is a fault
-- too: whoever reads it as a string leaves the field.
finish : ℕ → Bytes → Fields → ℕ → ℕ → Outcome (Option Packet)
finish front mem f colon question =
    let text = text_at mem in
    let header_len = span (colon + 1) question in
    let data_len = length text - (question + 1) in
    if ltb (length mem) f.len || ltb header_field header_len
    then fault
    else if front + header_len + 1 + data_len + 1 == f.len % 2 ^ 16
    then if ltb header_len header_field && ltb (length text) f.len
      then ok (
          some (record {
            leader = f.leader;
            seat = f.seat;
            seqno = f.seqno % 2 ^ 16;
            len = f.len % 2 ^ 16;
            srcid = f.srcid % 2 ^ 16;
            reqcrc16 = f.reqcrc16 % 2 ^ 16;
            header = take header_len (drop (colon + 1) text);
            header_len = header_len;
            data_len = data_len;
            data_text = drop (question + 1) text;
            raw = take f.len mem;
          }))
      else fault
    else ok none

-- the part of the readers behind `sscanf`, with the delimiters looked for
pub read_with : ℕ → Bytes → Option Fields → Outcome (Option Packet)
read_with front mem none = ok none
read_with front mem (some f) = elim (find_text (codes ":/") (text_at mem)) [
  | none ↦ ok none
  | some colon ↦ elim (find_text (codes "?{") (text_at mem)) [
    | none ↦ ok none
    | some question ↦ finish front mem f colon question
  ]
]

-- `__srrp_read_one_request`
unfoldable pub read_one_request : Bytes → Outcome (Option Packet)
read_one_request mem = read_with 15 mem (request_fields (text_at mem))

-- `__srrp_read_one_response`
unfoldable pub read_one_response : Bytes → Outcome (Option Packet)
read_one_response mem = read_with 20 mem (response_fields (text_at mem))

-- `__srrp_read_one_subpub`
unfoldable pub read_one_subpub : Bytes → Outcome (Option Packet)
read_one_subpub mem = read_with 10 mem (subpub_fields (text_at mem))

-- `srrp_read_one_packet`
unfoldable pub read_one_packet : Bytes → Outcome (Option Packet)
unfolding finish read_with read_one_request read_one_response read_one_subpub
read_one_packet [] = fault
read_one_packet (leader ∷ mem) =
    if leader == request_leader
    then read_one_request (leader ∷ mem)
    else if leader == response_leader
    then read_one_response (leader ∷ mem)
    else if (leader == subscribe_leader)
        || ((leader == unsubscribe_leader) || (leader == publish_leader))
    then read_one_subpub (leader ∷ mem)
    else ok none
