-- ===== src/Srrp/Write.antt =====
-- The writers of src/srrp.c, for texts of less than 2^31 bytes. `calloc` is taken to succeed.
use extlib.Common.{
  ℕ, ◌+◌, ◌-◌, [], ◌∷◌, ◌++◌, ltb, ◌==◌, length, take, Outcome, ok, ◌>>◌, assert, Bytes,
}
use extlib.Text.{codes, hex4}
use extlib.Srrp.{
  Packet, request_leader, response_leader, subscribe_leader, unsubscribe_leader, publish_leader,
}
use extlib.Srrp.Read.{header_field}

-- What the five writers do with the text that `snprintf` prints and the length they expect. (The
-- length has passed its test, so `snprintf` cuts nothing off where the second assertion holds.)
finish_write : ℕ → ℕ → ℕ → ℕ → Bytes → Bytes → Bytes → Outcome Packet
finish_write leader len srcid reqcrc16 header data_text printed = do
  assert (length printed + 1 == len)
  ok (record {
    leader = leader;
    seat = b'$';
    seqno = 0;
    len = len;
    srcid = srcid;
    reqcrc16 = reqcrc16;
    header = take (header_field - 1) header;
    header_len = length header;
    data_len = length data_text;
    data_text = data_text;
    raw = printed ++ (0 ∷ []);
  })

-- `SRRP_LENGTH_MAX`, less the 4 bytes of a checksum
abbrev pub length_limit : ℕ
length_limit = 4096 - 4

unfoldable pub write_request : ℕ → Bytes → Bytes → Outcome Packet
unfolding finish_write
write_request srcid header data_text =
    let len = 15 + length header + 1 + length data_text + 1 in
    do
      assert (ltb len length_limit)
      finish_write request_leader len srcid 0 header data_text (
          codes ">0,$,"
          ++ (hex4 len
              ++ (codes ","
                  ++ (hex4 srcid ++ (codes ":" ++ (header ++ (codes "?" ++ data_text)))))))

unfoldable pub write_response : ℕ → ℕ → Bytes → Bytes → Outcome Packet
unfolding finish_write
write_response srcid reqcrc16 header data_text =
    let len = 15 + 5 + length header + 1 + length data_text + 1 in
    do
      assert (ltb len length_limit)
      finish_write response_leader len srcid reqcrc16 header data_text (
          codes "<0,$,"
          ++ (hex4 len
              ++ (codes ","
                  ++ (hex4 srcid
                      ++ (codes ","
                          ++ (hex4 reqcrc16
                              ++ (codes ":" ++ (header ++ (codes "?" ++ data_text)))))))))

unfoldable pub write_subscribe : Bytes → Bytes → Outcome Packet
unfolding finish_write
write_subscribe header ctrl =
    let len = 10 + length header + 1 + length ctrl + 1 in
    do
      assert (ltb len length_limit)
      finish_write subscribe_leader len 0 0 header ctrl
          (codes "#0,$," ++ (hex4 len ++ (codes ":" ++ (header ++ (codes "?" ++ ctrl)))))

unfoldable pub write_unsubscribe : Bytes → Outcome Packet
unfolding finish_write
write_unsubscribe header =
    let len = 10 + length header + 1 + 2 + 1 in
    do
      assert (ltb len length_limit)
      finish_write unsubscribe_leader len 0 0 header (codes "{}")
          (codes "%0,$," ++ (hex4 len ++ (codes ":" ++ (header ++ codes "?{}"))))

unfoldable pub write_publish : Bytes → Bytes → Outcome Packet
unfolding finish_write
write_publish header data_text =
    let len = 10 + length header + 1 + length data_text + 1 in
    do
      assert (ltb len length_limit)
      finish_write publish_leader len 0 0 header data_text
          (codes "@0,$," ++ (hex4 len ++ (codes ":" ++ (header ++ (codes "?" ++ data_text)))))
