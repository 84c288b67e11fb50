-- ===== src/Srrp/Fields.antt =====
-- The numbers in front of a packet, as the `sscanf` calls of src/srrp.c read them.
pub mod Printed
use extlib.Common.{ℕ, Option, none, some, List, length, Bytes}
use extlib.Text.{scan_hex, scan_char, scan_literal}

infixl 5 ◌>>=◌
abbrev ◌>>=◌ : {A B : Type 0} → Option A → (A → Option B) → Option B
none >>= f = none
some a >>= f = f a

-- What the format stores. A field that it does not name is 0.
pub record Fields : Type 0 where
  pub leader : ℕ
  pub seat : ℕ
  pub seqno : ℕ
  pub len : ℕ
  pub srcid : ℕ
  pub reqcrc16 : ℕ

-- "%c%x,%c,%4x", with the text behind it
common_fields : Bytes → Option (Fields × Bytes)
common_fields text = do
  (leader, t) ← scan_char text
  (seqno, t) ← scan_hex (length t) t
  t ← scan_literal b',' t
  (seat, t) ← scan_char t
  t ← scan_literal b',' t
  (len, t) ← scan_hex 4 t
  some (
    record { leader = leader; seat = seat; seqno = seqno; len = len; srcid = 0; reqcrc16 = 0 },
    t,
  )

-- ",%4x"
with_srcid : Fields × Bytes → Option (Fields × Bytes)
with_srcid (f, t) = do
  t ← scan_literal b',' t
  (srcid, t) ← scan_hex 4 t
  some (record f { srcid = srcid }, t)

-- ",%x"
with_reqcrc16 : Fields × Bytes → Option (Fields × Bytes)
with_reqcrc16 (f, t) = do
  t ← scan_literal b',' t
  (crc, t) ← scan_hex (length t) t
  some (record f { reqcrc16 = crc }, t)

fields_of : Option (Fields × Bytes) → Option Fields
fields_of none = none
fields_of (some (f, t)) = some f

unfoldable pub request_fields : Bytes → Option Fields
unfolding common_fields with_srcid fields_of
request_fields text = fields_of (common_fields text >>= with_srcid)

unfoldable pub response_fields : Bytes → Option Fields
unfolding common_fields with_srcid with_reqcrc16 fields_of
response_fields text = fields_of (common_fields text >>= with_srcid >>= with_reqcrc16)

unfoldable pub subpub_fields : Bytes → Option Fields
unfolding common_fields fields_of
subpub_fields text = fields_of (common_fields text)
