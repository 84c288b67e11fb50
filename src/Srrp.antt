-- ===== src/Srrp.antt =====
-- src/srrp.c: the packets of the simple request response protocol.
pub mod Fields
pub mod Read
pub mod Write
pub mod Next
pub mod RoundTrip
mod Examples
use extlib.Common.{ℕ, Bytes}

-- `struct srrp_packet`. `header` is the text in its field of 128 bytes, `data_text` the `data_len`
-- bytes that `data` points to, and `raw` the `len` bytes of the packet, its NUL included.
pub record Packet : Type 0 where
  pub leader : ℕ
  pub seat : ℕ
  pub seqno : ℕ
  pub len : ℕ
  pub srcid : ℕ
  pub reqcrc16 : ℕ
  pub header : Bytes
  pub header_len : ℕ
  pub data_len : ℕ
  pub data_text : Bytes
  pub raw : Bytes

abbrev pub request_leader : ℕ
request_leader = b'>'

abbrev pub response_leader : ℕ
response_leader = b'<'

abbrev pub subscribe_leader : ℕ
subscribe_leader = b'#'

abbrev pub unsubscribe_leader : ℕ
unsubscribe_leader = b'%'

abbrev pub publish_leader : ℕ
publish_leader = b'@'
