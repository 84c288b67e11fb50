-- ===== src/Srrp/RoundTrip/Response.antt =====
-- What `srrp_write_response` prints, the reader reads.
use extlib.Common.{
  take_all, length-append, ℕ, append_assoc, ◌+◌, ◌<◌, ◌≡◌, refl, ap, ◌∙◌, true, false, inl, inr,
  some, [], ◌∷◌, ◌++◌, arith, ltb, ◌==◌, length, All-append, ok, Bytes,
}
use extlib.Text.{hex4}
use extlib.Text.Search.{Lacks, text_at_end}
use extlib.Text.Hex.{Delimits, hex4-Lacks}
use extlib.Srrp.{Packet, response_leader}
use extlib.Srrp.Fields.{Fields, response_fields}
use extlib.Srrp.Fields.Printed.{zero_seat, response_fields-printed}
use extlib.Srrp.Read.{read_with, read_one_response, read_one_packet}
use extlib.Srrp.Read.Length.{IsReadable}
use extlib.Srrp.Read.Back.{
  packet_text, packet_length, packet_of, IsPrintable, length-packet_text, read_with-back,
}
use extlib.Srrp.Write.{length_limit, write_response}
use extlib.Srrp.RoundTrip.{IsMessage, text-Lacks}

-- the numbers before the header of a response
abbrev response_front : ℕ → ℕ → ℕ → Bytes
response_front len srcid crc =
    response_leader ∷ (zero_seat ++ (hex4 len ++ (b',' ∷ (hex4 srcid ++ (b',' ∷ hex4 crc)))))

front-Lacks : (c len srcid crc : ℕ) → Delimits c → Lacks c (response_front len srcid crc)
front-Lacks c len srcid crc k =
    let ids =
      All-append (λ x. (c == x) ≡ false) (hex4 srcid) (b',' ∷ hex4 crc) (hex4-Lacks c srcid k)
        (ground arith, hex4-Lacks c crc k) in
    let digits =
      All-append (λ x. (c == x) ≡ false) (hex4 len) (b',' ∷ (hex4 srcid ++ (b',' ∷ hex4 crc)))
        (hex4-Lacks c len k) (ground arith, ids) in
    (ground arith, (ground arith, (ground arith, (ground arith, (ground arith, digits)))))

response-IsPrintable :
    (len srcid crc : ℕ) (header data_text : Bytes)
    → IsMessage header data_text
    → packet_length (response_front len srcid crc) header data_text < 65536
    → IsPrintable (response_front len srcid crc) header data_text
response-IsPrintable len srcid crc header data_text m h = record {
  no_nul =
      text-Lacks (response_front len srcid crc) header data_text
        (front-Lacks 0 len srcid crc (inl refl)) m;
  front_colon = front-Lacks b':' len srcid crc (inr (inl refl));
  front_question = front-Lacks b'?' len srcid crc (inr (inr refl));
  header_question = m.no_question;
  header_fits = let k = m.header_short in omega arith;
  length_fits = h;
}

response_numbers : ℕ → ℕ → ℕ → Fields
response_numbers len srcid crc = record {
  leader = response_leader;
  seat = b'$';
  seqno = 0;
  len = len;
  srcid = srcid;
  reqcrc16 = crc;
}

-- what a response is read as
response-read :
    (len srcid crc : ℕ) (header data_text rest : Bytes)
    → IsMessage header data_text
    → srcid < 65536
    → crc < 65536
    → len ≡ packet_length (response_front len srcid crc) header data_text
    → len < 65536
    → read_one_packet (packet_text (response_front len srcid crc) header data_text ++ (0 ∷ rest))
      ≡ ok (
          some (
            packet_of
              (response_numbers len srcid crc)
              (response_front len srcid crc)
              header
              data_text))
unfolding read_one_packet read_one_response hex4 response_numbers
response-read len srcid crc header data_text rest m h c l k =
    let front = response_front len srcid crc in
    let text = packet_text front header data_text in
    let p = response-IsPrintable len srcid crc header data_text m (omega (arith, l, k)) in
    let t = text_at_end text rest p.no_nul in
    let e =
      response_fields-printed response_leader len srcid crc
        (b'/' ∷ (header ++ (b'?' ∷ b'{' ∷ data_text))) k h c in
    ap (λ s. read_with 20 (text ++ (0 ∷ rest)) (response_fields s)) t
    ∙ ap (read_with 20 (text ++ (0 ∷ rest))) e
    ∙ read_with-back (response_numbers len srcid crc) front header data_text rest p
        (record { seqno_fits = omega arith; srcid_fits = h; reqcrc16_fits = c }) l

abbrev response_length : Bytes → Bytes → ℕ
response_length header data_text =
    15 + 5 + length (b'/' ∷ header) + 1 + length (b'{' ∷ data_text) + 1

-- the packet that `srrp_write_response` makes
unfoldable pub response_packet : ℕ → ℕ → Bytes → Bytes → Packet
unfolding response_numbers
response_packet srcid crc header data_text =
    let len = response_length header data_text in
    packet_of (response_numbers len srcid crc) (response_front len srcid crc) header data_text

-- the header and data fit into a response
abbrev pub FitResponse : Bytes → Bytes → Type 0
FitResponse header data_text = length header + length data_text + 24 < length_limit

write_response-response_packet :
    (srcid crc : ℕ) (header data_text : Bytes)
    → IsMessage header data_text
    → FitResponse header data_text
    → write_response srcid crc (b'/' ∷ header) (b'{' ∷ data_text)
      ≡ ok (response_packet srcid crc header data_text)
unfolding write_response hex4 response_packet response_numbers
write_response-response_packet srcid crc header data_text m fits =
    let len = response_length header data_text in
    let front = response_front len srcid crc in
    let text = packet_text front header data_text in
    let counted = length-packet_text front header data_text in
    let short = m.header_short in
    let below : ltb len length_limit ≡ true = ground arith in
    let printed : (length text + 1 == len) ≡ true = ground arith in
    let kept = take_all 127 (b'/' ∷ header) (omega (arith, short)) in rw (below, printed, kept) refl

response_packet-IsReadable :
    (srcid crc : ℕ) (header data_text : Bytes)
    → IsMessage header data_text
    → srcid < 65536
    → crc < 65536
    → FitResponse header data_text
    → IsReadable (response_packet srcid crc header data_text)
unfolding response_packet hex4
response_packet-IsReadable srcid crc header data_text m h c fits =
    let len = response_length header data_text in
    let text = packet_text (response_front len srcid crc) header data_text in
    let counted = length-packet_text (response_front len srcid crc) header data_text in
    record {
      reads = λ rest.
          ap read_one_packet (append_assoc text (0 ∷ []) rest)
          ∙ response-read len srcid crc header data_text rest m h c (omega arith) (omega arith);
      counted = omega (arith, length-append text (0 ∷ []));
      some_bytes = omega arith;
      len_fits = omega arith;
    }

-- A response whose header begins with '/' and has no '?', and whose data begin with '{', is written
-- if it fits, and the reader gives back the very packet, with the checksum of the request, whatever
-- lies behind it in memory.
pub read_one_packet-write_response :
    (srcid crc : ℕ) (header data_text rest : Bytes)
    → IsMessage header data_text
    → srcid < 65536
    → crc < 65536
    → length header + length data_text + 24 < length_limit
    → (pac : Packet) × (write_response srcid crc (b'/' ∷ header) (b'{' ∷ data_text) ≡ ok pac)
      × (pac.reqcrc16 ≡ crc)
      × (read_one_packet (pac.raw ++ rest) ≡ ok (some pac))
unfolding response_packet
read_one_packet-write_response srcid crc header data_text rest m h c fits =
    let r = response_packet-IsReadable srcid crc header data_text m h c fits in
    (
      response_packet srcid crc header data_text,
      write_response-response_packet srcid crc header data_text m fits,
      refl,
      r.reads rest,
    )

-- What is written can be read, and is a response with the checksum, header and source that were given.
pub record IsResponse (srcid crc : ℕ) (header : Bytes) (pac : Packet) : Type 0 where
  pub readable : IsReadable pac
  pub leader : pac.leader ≡ response_leader
  pub source : pac.srcid ≡ srcid
  pub checksum : pac.reqcrc16 ≡ crc
  pub path : pac.header ≡ b'/' ∷ header

pub write_response-IsResponse :
    (srcid crc : ℕ) (header data_text : Bytes)
    → IsMessage header data_text
    → srcid < 65536
    → crc < 65536
    → FitResponse header data_text
    → (write_response srcid crc (b'/' ∷ header) (b'{' ∷ data_text)
        ≡ ok (response_packet srcid crc header data_text))
      × IsResponse srcid crc header (response_packet srcid crc header data_text)
unfolding response_packet
write_response-IsResponse srcid crc header data_text m h c fits = (
  write_response-response_packet srcid crc header data_text m fits,
  record {
    readable = response_packet-IsReadable srcid crc header data_text m h c fits;
    leader = refl;
    source = refl;
    checksum = refl;
    path = refl;
  },
)
