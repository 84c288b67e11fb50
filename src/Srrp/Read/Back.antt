-- ===== src/Srrp/Read/Back.antt =====
-- The readers of src/srrp.c on a well-formed text, whatever lies behind it.
use extlib.Common.{
  ℕ, zero, suc, ◌+◌, ◌-◌, ◌<◌, ◌≤◌, ◌≡◌, refl, sym, ap, ◌∙◌, false, some, [], ◌∷◌, ◌++◌,
  append_assoc, arith, ◌==◌, length, length-append, take, drop, drop-append, take-append,
  All-append, ok, fault, Bytes,
}
use extlib.Text.{codes, text_at, find_text, starts}
use extlib.Text.Search.{Lacks, text_at_end, find_text_behind}
use extlib.Srrp.{Packet}
use extlib.Srrp.Fields.{Fields}
use extlib.Srrp.Read.{span, finish, read_with, header_field}

-- the text of a packet with the given front, header and data
abbrev pub packet_text : Bytes → Bytes → Bytes → Bytes
packet_text front header data_text = front ++ (b':' ∷ b'/' ∷ (header ++ (b'?' ∷ b'{' ∷ data_text)))

abbrev pub packet_length : Bytes → Bytes → Bytes → ℕ
packet_length front header data_text =
    length front + 1 + (1 + length header) + 1 + (1 + length data_text) + 1

-- the packet with the fields `f`
abbrev pub packet_of : Fields → Bytes → Bytes → Bytes → Packet
packet_of f front header data_text = record {
  leader = f.leader;
  seat = f.seat;
  seqno = f.seqno;
  len = f.len;
  srcid = f.srcid;
  reqcrc16 = f.reqcrc16;
  header = b'/' ∷ header;
  header_len = suc (length header);
  data_len = suc (length data_text);
  data_text = b'{' ∷ data_text;
  raw = packet_text front header data_text ++ (0 ∷ []);
}

pub length-packet_text :
    (front header data_text : Bytes)
    → length (packet_text front header data_text) + 1 ≡ packet_length front header data_text
length-packet_text front header data_text = omega (
  arith,
  length-append front (b':' ∷ b'/' ∷ (header ++ (b'?' ∷ b'{' ∷ data_text))),
  length-append header (b'?' ∷ b'{' ∷ data_text),
)

finds_header :
    (front header data_text : Bytes)
    → Lacks b':' front
    → find_text (codes ":/") (packet_text front header data_text) ≡ some (length front)
unfolding starts
finds_header front header data_text h = find_text_behind b':' (b'/' ∷ []) front _ h refl

-- `finish` where all its guards pass
finish-passes :
    (front : ℕ) (mem : Bytes) (f : Fields) (colon question hl dl : ℕ)
    (text header data_text raw : Bytes)
    → text_at mem ≡ text
    → span (colon + 1) question ≡ hl
    → length text - (question + 1) ≡ dl
    → f.len ≤ length mem
    → hl < header_field
    → length text < f.len
    → front + hl + 1 + dl + 1 ≡ f.len
    → f.len < 65536
    → f.seqno < 65536
    → f.srcid < 65536
    → f.reqcrc16 < 65536
    → take hl (drop (colon + 1) text) ≡ header
    → drop (question + 1) text ≡ data_text
    → take f.len mem ≡ raw
    → finish front mem f colon question
      ≡ ok (
          some (record {
            leader = f.leader;
            seat = f.seat;
            seqno = f.seqno;
            len = f.len;
            srcid = f.srcid;
            reqcrc16 = f.reqcrc16;
            header = header;
            header_len = hl;
            data_len = dl;
            data_text = data_text;
            raw = raw;
          }))
unfolding finish
finish-passes front mem f colon question hl dl text header data_text raw t s d m b g e l q i c eh ed
      er =
    ground (arith, t, eh, ed, er)

-- the text again, parted before the data
regroup :
    (front header data_text : Bytes)
    → packet_text front header data_text
      ≡ (front ++ (b':' ∷ b'/' ∷ header)) ++ (b'?' ∷ b'{' ∷ data_text)
regroup front header data_text =
    sym (append_assoc front (b':' ∷ b'/' ∷ header) (b'?' ∷ b'{' ∷ data_text))

length-before :
    (front header : Bytes)
    → length (front ++ (b':' ∷ b'/' ∷ header)) ≡ length front + 2 + length header
length-before front header = omega (arith, length-append front (b':' ∷ b'/' ∷ header))

finds_data :
    (front header data_text : Bytes)
    → Lacks b'?' front
    → Lacks b'?' header
    → find_text (codes "?{") (packet_text front header data_text)
      ≡ some (length front + 2 + length header)
unfolding starts
finds_data front header data_text h k =
    let e =
      find_text_behind b'?' (b'{' ∷ []) (front ++ (b':' ∷ b'/' ∷ header)) (b'?' ∷ b'{' ∷ data_text)
        (All-append (λ x. (b'?' == x) ≡ false) front (b':' ∷ b'/' ∷ header) h (refl, (refl, k)))
        refl in
    ap (find_text (codes "?{")) (regroup front header data_text)
    ∙ e
    ∙ ap some (length-before front header)

drop-suc : (n : ℕ) (xs : Bytes) → drop (suc n) xs ≡ drop 1 (drop n xs)
drop-suc zero xs = refl
drop-suc (suc n) [] = refl
drop-suc (suc n) (x ∷ xs) = drop-suc n xs

drop_next : (n : ℕ) (xs : Bytes) → drop (n + 1) xs ≡ drop 1 (drop n xs)
drop_next n xs = let e : n + 1 ≡ suc n = omega arith in ap (λ k. drop k xs) e ∙ drop-suc n xs

header_part :
    (front header data_text : Bytes)
    → take (suc (length header)) (drop (length front + 1) (packet_text front header data_text))
      ≡ b'/' ∷ header
header_part front header data_text =
    let ys = b':' ∷ b'/' ∷ (header ++ (b'?' ∷ b'{' ∷ data_text)) in
    ap (take (suc (length header)))
      (drop_next (length front) (front ++ ys) ∙ ap (drop 1) (drop-append front ys))
    ∙ ap (λ t. b'/' ∷ t) (take-append header (b'?' ∷ b'{' ∷ data_text))

data_part :
    (front header data_text : Bytes)
    → drop (length front + 2 + length header + 1) (packet_text front header data_text)
      ≡ b'{' ∷ data_text
data_part front header data_text =
    let xs = front ++ (b':' ∷ b'/' ∷ header) in
    let ys = b'?' ∷ b'{' ∷ data_text in
    ap (drop (length front + 2 + length header + 1)) (regroup front header data_text)
    ∙ ap (λ n. drop (n + 1) (xs ++ ys)) (sym (length-before front header))
    ∙ drop_next (length xs) (xs ++ ys)
    ∙ ap (drop 1) (drop-append xs ys)

-- A front, header and data that the delimiters part.
pub record IsPrintable (front header data_text : Bytes) : Type 0 where
  pub no_nul : Lacks 0 (packet_text front header data_text)
  pub front_colon : Lacks b':' front
  pub front_question : Lacks b'?' front
  pub header_question : Lacks b'?' header
  pub header_fits : suc (length header) < header_field
  pub length_fits : packet_length front header data_text < 65536

pub record InRange (f : Fields) : Type 0 where
  pub seqno_fits : f.seqno < 65536
  pub srcid_fits : f.srcid < 65536
  pub reqcrc16_fits : f.reqcrc16 < 65536

-- A well-formed packet is read back, whatever lies behind it in memory.
pub read_with-back :
    (f : Fields) (front header data_text rest : Bytes)
    → IsPrintable front header data_text
    → InRange f
    → f.len ≡ packet_length front header data_text
    → read_with (length front + 1) (packet_text front header data_text ++ (0 ∷ rest)) (some f)
      ≡ ok (some (packet_of f front header data_text))
unfolding read_with
read_with-back f front header data_text rest p r l =
    let text = packet_text front header data_text in
    let mem = text ++ (0 ∷ rest) in
    let t = text_at_end text rest p.no_nul in
    let n = length-packet_text front header data_text in
    let fits = p.length_fits in
    let short = p.header_fits in
    let nm = length-append text (0 ∷ rest) in
    let whole : length (text ++ (0 ∷ [])) ≡ f.len = omega (arith, length-append text (0 ∷ [])) in
    let raw : take f.len mem ≡ text ++ (0 ∷ []) =
      ap (λ k. take k mem) (sym whole)
      ∙ ap (take (length (text ++ (0 ∷ [])))) (sym (append_assoc text (0 ∷ []) rest))
      ∙ take-append (text ++ (0 ∷ [])) rest in
    let done =
      finish-passes (length front + 1) mem f (length front) (length front + 2 + length header)
        (suc (length header)) (suc (length data_text)) text (b'/' ∷ header) (b'{' ∷ data_text)
        (text ++ (0 ∷ [])) t (omega arith) (omega arith) (omega arith) (omega arith) (omega arith)
        (omega arith) (omega arith) r.seqno_fits r.srcid_fits r.reqcrc16_fits
        (header_part front header data_text) (data_part front header data_text) raw in
    ground (
      arith,
      t,
      finds_header front header data_text p.front_colon,
      finds_data front header data_text p.front_question p.header_question,
      done,
    )

-- A packet that names more bytes than the memory has is copied past its end.
pub read_with-fault :
    (f : Fields) (front header data_text rest : Bytes)
    → IsPrintable front header data_text
    → length (packet_text front header data_text ++ (0 ∷ rest)) < f.len
    → read_with (length front + 1) (packet_text front header data_text ++ (0 ∷ rest)) (some f)
      ≡ fault
unfolding read_with finish
read_with-fault f front header data_text rest p l =
    let text = packet_text front header data_text in
    ground (
      arith,
      text_at_end text rest p.no_nul,
      finds_header front header data_text p.front_colon,
      finds_data front header data_text p.front_question p.header_question,
    )
