-- ===== src/Srrp/RoundTrip.antt =====
-- What the writers of src/srrp.c print, its reader reads.
pub mod Response
use extlib.Common.{
  length-append, ℕ, zero, suc, append_assoc, ◌+◌, ◌<◌, ◌≡◌, refl, ap, ◌∙◌, true, false, inl, inr,
  some, [], ◌∷◌, ◌++◌, arith, ltb, ◌==◌, length, take_all, All, All-append, ok, fault, Bytes,
}
use extlib.Text.{hex4}
use extlib.Text.Search.{Lacks, text_at_end}
use extlib.Text.Hex.{Delimits, hex4-Lacks}
use extlib.Srrp.{Packet, request_leader}
use extlib.Srrp.Fields.{Fields, request_fields}
use extlib.Srrp.Fields.Printed.{zero_seat, request_fields-printed}
use extlib.Srrp.Read.{read_with, read_one_request, read_one_packet}
use extlib.Srrp.Read.Back.{
  packet_text, packet_length, packet_of, IsPrintable, length-packet_text, read_with-back,
  read_with-fault,
}
use extlib.Srrp.Read.Length.{IsReadable}
use extlib.Srrp.Write.{length_limit, write_request}

-- The part of a header behind its '/', and of a text behind its '{', that a packet can carry.
pub record IsMessage (header data_text : Bytes) : Type 0 where
  pub header_no_nul : All (λ x. (0 == x) ≡ false) header
  pub data_no_nul : All (λ x. (0 == x) ≡ false) data_text
  pub no_question : Lacks b'?' header
  pub header_short : length header < 127

-- the numbers before the header of a request
abbrev pub request_front : ℕ → ℕ → Bytes
request_front len srcid = request_leader ∷ (zero_seat ++ (hex4 len ++ (b',' ∷ hex4 srcid)))

front-Lacks : (c len srcid : ℕ) → Delimits c → Lacks c (request_front len srcid)
front-Lacks c len srcid k =
    let digits =
      All-append (λ x. (c == x) ≡ false) (hex4 len) (b',' ∷ hex4 srcid) (hex4-Lacks c len k)
        (ground arith, hex4-Lacks c srcid k) in
    (ground arith, (ground arith, (ground arith, (ground arith, (ground arith, digits)))))

pub text-Lacks :
    (front header data_text : Bytes)
    → Lacks 0 front
    → IsMessage header data_text
    → Lacks 0 (packet_text front header data_text)
text-Lacks front header data_text h m =
    let tail =
      All-append (λ x. (0 == x) ≡ false) header (b'?' ∷ b'{' ∷ data_text) m.header_no_nul
        (refl, (refl, m.data_no_nul)) in
    All-append (λ x. (0 == x) ≡ false) front (b':' ∷ b'/' ∷ (header ++ (b'?' ∷ b'{' ∷ data_text))) h
      (refl, (refl, tail))

request-IsPrintable :
    (len srcid : ℕ) (header data_text : Bytes)
    → IsMessage header data_text
    → packet_length (request_front len srcid) header data_text < 65536
    → IsPrintable (request_front len srcid) header data_text
request-IsPrintable len srcid header data_text m h = record {
  no_nul =
      text-Lacks (request_front len srcid) header data_text (front-Lacks 0 len srcid (inl refl)) m;
  front_colon = front-Lacks b':' len srcid (inr (inl refl));
  front_question = front-Lacks b'?' len srcid (inr (inr refl));
  header_question = m.no_question;
  header_fits = let k = m.header_short in omega arith;
  length_fits = h;
}

abbrev pub request_numbers : ℕ → ℕ → Fields
request_numbers len srcid = record {
  leader = request_leader;
  seat = b'$';
  seqno = 0;
  len = len;
  srcid = srcid;
  reqcrc16 = 0;
}

-- what a request is read as
request-read :
    (len srcid : ℕ) (header data_text rest : Bytes)
    → IsMessage header data_text
    → srcid < 65536
    → len ≡ packet_length (request_front len srcid) header data_text
    → len < 65536
    → read_one_packet (packet_text (request_front len srcid) header data_text ++ (0 ∷ rest))
      ≡ ok (some (packet_of (request_numbers len srcid) (request_front len srcid) header data_text))
unfolding read_one_packet read_one_request hex4
request-read len srcid header data_text rest m h l k =
    let front = request_front len srcid in
    let text = packet_text front header data_text in
    let p = request-IsPrintable len srcid header data_text m (omega (arith, l, k)) in
    let t = text_at_end text rest p.no_nul in
    let e =
      request_fields-printed request_leader len srcid
        (b':' ∷ b'/' ∷ (header ++ (b'?' ∷ b'{' ∷ data_text))) k h in
    ap (λ s. read_with 15 (text ++ (0 ∷ rest)) (request_fields s)) t
    ∙ ap (read_with 15 (text ++ (0 ∷ rest))) e
    ∙ read_with-back (request_numbers len srcid) front header data_text rest p
        (record { seqno_fits = omega arith; srcid_fits = h; reqcrc16_fits = omega arith }) l

abbrev request_length : Bytes → Bytes → ℕ
request_length header data_text = 15 + length (b'/' ∷ header) + 1 + length (b'{' ∷ data_text) + 1

-- the packet that `srrp_write_request` makes
abbrev pub request_packet : ℕ → Bytes → Bytes → Packet
request_packet srcid header data_text =
    let len = request_length header data_text in
    packet_of (request_numbers len srcid) (request_front len srcid) header data_text

-- the header and data fit into a request
abbrev pub FitRequest : Bytes → Bytes → Type 0
FitRequest header data_text = length header + length data_text + 19 < length_limit

write_request-request_packet :
    (srcid : ℕ) (header data_text : Bytes)
    → IsMessage header data_text
    → FitRequest header data_text
    → write_request srcid (b'/' ∷ header) (b'{' ∷ data_text)
      ≡ ok (request_packet srcid header data_text)
unfolding write_request hex4
write_request-request_packet srcid header data_text m fits =
    let len = request_length header data_text in
    let text = packet_text (request_front len srcid) header data_text in
    let counted = length-packet_text (request_front len srcid) header data_text in
    let short = m.header_short in
    let below : ltb len length_limit ≡ true = ground arith in
    let printed : (length text + 1 == len) ≡ true = ground arith in
    let kept = take_all 127 (b'/' ∷ header) (omega (arith, short)) in rw (below, printed, kept) refl

request_packet-IsReadable :
    (srcid : ℕ) (header data_text : Bytes)
    → IsMessage header data_text
    → srcid < 65536
    → FitRequest header data_text
    → IsReadable (request_packet srcid header data_text)
unfolding hex4
request_packet-IsReadable srcid header data_text m h fits =
    let len = request_length header data_text in
    let text = packet_text (request_front len srcid) header data_text in
    let counted = length-packet_text (request_front len srcid) header data_text in
    record {
      reads = λ rest.
          ap read_one_packet (append_assoc text (0 ∷ []) rest)
          ∙ request-read len srcid header data_text rest m h (omega arith) (omega arith);
      counted = omega (arith, length-append text (0 ∷ []));
      some_bytes = omega arith;
      len_fits = omega arith;
    }

-- A request whose header begins with '/' and has no '?', and whose data begin with '{', is written
-- if it fits, and the reader gives back the very packet, whatever lies behind it in memory.
pub read_one_packet-write_request :
    (srcid : ℕ) (header data_text rest : Bytes)
    → IsMessage header data_text
    → srcid < 65536
    → length header + length data_text + 19 < length_limit
    → (pac : Packet) × (write_request srcid (b'/' ∷ header) (b'{' ∷ data_text) ≡ ok pac)
      × (read_one_packet (pac.raw ++ rest) ≡ ok (some pac))
read_one_packet-write_request srcid header data_text rest m h fits =
    let r = request_packet-IsReadable srcid header data_text m h fits in
    (
      request_packet srcid header data_text,
      write_request-request_packet srcid header data_text m fits,
      r.reads rest,
    )

-- What is written can be read, and is a request.
pub write_request-IsReadable :
    (srcid : ℕ) (header data_text : Bytes)
    → IsMessage header data_text
    → srcid < 65536
    → FitRequest header data_text
    → (write_request srcid (b'/' ∷ header) (b'{' ∷ data_text)
        ≡ ok (request_packet srcid header data_text))
      × IsReadable (request_packet srcid header data_text)
      × ((request_packet srcid header data_text).leader ≡ request_leader)
write_request-IsReadable srcid header data_text m h fits = (
  write_request-request_packet srcid header data_text m fits,
  request_packet-IsReadable srcid header data_text m h fits,
  refl,
)

-- A request that names more bytes than there are in memory is copied past the end of its buffer,
-- before the reader compares the length with what it has read.
pub read_one_packet-fault :
    (len srcid : ℕ) (header data_text rest : Bytes)
    → IsMessage header data_text
    → srcid < 65536
    → len < 65536
    → packet_length (request_front len srcid) header data_text < 65536
    → length (packet_text (request_front len srcid) header data_text ++ (0 ∷ rest)) < len
    → read_one_packet (packet_text (request_front len srcid) header data_text ++ (0 ∷ rest)) ≡ fault
unfolding read_one_packet read_one_request hex4
read_one_packet-fault len srcid header data_text rest m h k fits long =
    let front = request_front len srcid in
    let text = packet_text front header data_text in
    let p = request-IsPrintable len srcid header data_text m fits in
    let t = text_at_end text rest p.no_nul in
    let e =
      request_fields-printed request_leader len srcid
        (b':' ∷ b'/' ∷ (header ++ (b'?' ∷ b'{' ∷ data_text))) k h in
    ap (λ s. read_with 15 (text ++ (0 ∷ rest)) (request_fields s)) t
    ∙ ap (read_with 15 (text ++ (0 ∷ rest))) e
    ∙ read_with-fault (request_numbers len srcid) front header data_text rest p long
