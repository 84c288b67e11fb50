-- ===== src/Srrp/Fields/Printed.antt =====
-- The numbers that the writers of src/srrp.c print, scanned.
use extlib.Common.{ℕ, ◌<◌, ◌≡◌, refl, some, [], ◌∷◌, ◌++◌, arith, length, Bytes}
use extlib.Text.{hex4}
use extlib.Text.Hex.{scan_hex-hex4, scan_hex-colon, scan_zero}
use extlib.Srrp.Fields.{
  common_fields, with_srcid, fields_of, request_fields, response_fields, with_reqcrc16,
  subpub_fields,
}

-- the bytes of "0,$,"
abbrev pub zero_seat : Bytes
zero_seat = b'0' ∷ b',' ∷ b'$' ∷ b',' ∷ []

common_fields-printed :
    (leader len : ℕ) (s : Bytes)
    → len < 65536
    → common_fields (leader ∷ (zero_seat ++ (hex4 len ++ s)))
      ≡ some (
        record { leader = leader; seat = b'$'; seqno = 0; len = len; srcid = 0; reqcrc16 = 0 },
        s,
      )
unfolding common_fields
common_fields-printed leader len s h =
    let e = scan_zero (length (b'$' ∷ b',' ∷ (hex4 len ++ s))) (b'$' ∷ b',' ∷ (hex4 len ++ s)) in
    let k = scan_hex-hex4 len s h in ground (arith, e, k)

pub subpub_fields-printed :
    (leader len : ℕ) (s : Bytes)
    → len < 65536
    → subpub_fields (leader ∷ (zero_seat ++ (hex4 len ++ s)))
      ≡ some
          (record { leader = leader; seat = b'$'; seqno = 0; len = len; srcid = 0; reqcrc16 = 0 })
unfolding subpub_fields fields_of
subpub_fields-printed leader len s h = rw (common_fields-printed leader len s h) refl

pub request_fields-printed :
    (leader len srcid : ℕ) (s : Bytes)
    → len < 65536
    → srcid < 65536
    → request_fields (leader ∷ (zero_seat ++ (hex4 len ++ (b',' ∷ (hex4 srcid ++ s)))))
      ≡ some (record {
        leader = leader;
        seat = b'$';
        seqno = 0;
        len = len;
        srcid = srcid;
        reqcrc16 = 0;
      })
unfolding request_fields fields_of with_srcid
request_fields-printed leader len srcid s h k =
    rw (common_fields-printed leader len (b',' ∷ (hex4 srcid ++ s)) h, scan_hex-hex4 srcid s k) refl

pub response_fields-printed :
    (leader len srcid crc : ℕ) (s : Bytes)
    → len < 65536
    → srcid < 65536
    → crc < 65536
    → response_fields (
        leader
        ∷ (zero_seat ++ (hex4 len ++ (b',' ∷ (hex4 srcid ++ (b',' ∷ (hex4 crc ++ (b':' ∷ s))))))))
      ≡ some (record {
        leader = leader;
        seat = b'$';
        seqno = 0;
        len = len;
        srcid = srcid;
        reqcrc16 = crc;
      })
unfolding response_fields fields_of with_srcid with_reqcrc16 hex4
response_fields-printed leader len srcid crc s h k l =
    let t = b',' ∷ (hex4 crc ++ (b':' ∷ s)) in
    let e = common_fields-printed leader len (b',' ∷ (hex4 srcid ++ t)) h in
    let f = scan_hex-hex4 srcid t k in
    let g = scan_hex-colon (length s) crc s l in ground (arith, e, f, g)
