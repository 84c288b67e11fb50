-- ===== src/Srrp/Examples.antt =====
-- Packets written and read.
use extlib.Common.{◌≡◌, refl, arith, some, ok, [], ◌∷◌, ◌++◌, Outcome, abort, fault, Option}
use extlib.Text.{codes, text_at, find_text, scan_hex, starts, hex4}
use extlib.Srrp.{Packet}
use extlib.Srrp.Fields.{request_fields, response_fields, subpub_fields}
use extlib.Srrp.Read.{read_one_packet}
use extlib.Srrp.Read.Back.{packet_text}
use extlib.Srrp.RoundTrip.Response.{read_one_packet-write_response}
use extlib.Srrp.RoundTrip.{
  IsMessage, request_front, read_one_packet-write_request, read_one_packet-fault,
}
use extlib.Srrp.Write.{write_request, write_response, write_publish}

-- what a written packet is read as, behind which other bytes lie
abbrev read_back : Outcome Packet → Outcome (Option Packet)
read_back (ok pac) = read_one_packet (pac.raw ++ (7 ∷ 9 ∷ []))
read_back abort = abort
read_back fault = fault

abbrev as_read : Outcome Packet → Outcome (Option Packet)
as_read (ok pac) = ok (some pac)
as_read abort = abort
as_read fault = fault

request_back :
    read_back (write_request 0x8888 (codes "/1/echo") (codes "{a:1}"))
    ≡ as_read (write_request 0x8888 (codes "/1/echo") (codes "{a:1}"))
unfolding write_request hex4 read_one_packet request_fields scan_hex text_at find_text starts
request_back = refl

response_back :
    read_back (write_response 3 0xa0b1 (codes "/1/echo") (codes "{a:1}"))
    ≡ as_read (write_response 3 0xa0b1 (codes "/1/echo") (codes "{a:1}"))
unfolding write_response hex4 read_one_packet response_fields scan_hex text_at find_text starts
response_back = refl

publish_back :
    read_back (write_publish (codes "/motor") (codes "{}"))
    ≡ as_read (write_publish (codes "/motor") (codes "{}"))
unfolding write_publish hex4 read_one_packet subpub_fields scan_hex text_at find_text starts
publish_back = refl

-- "/1/echo" and "{a:1}" without their first bytes
echo-IsMessage : IsMessage (codes "1/echo") (codes "a:1}")
echo-IsMessage = record {
  header_no_nul = (refl, (refl, (refl, (refl, (refl, (refl, tt))))));
  data_no_nul = (refl, (refl, (refl, (refl, tt))));
  no_question = (refl, (refl, (refl, (refl, (refl, (refl, tt))))));
  header_short = omega arith;
}

read_one_packet-write_request_example :
    (pac : Packet) × (write_request 0x8888 (codes "/1/echo") (codes "{a:1}") ≡ ok pac)
    × (read_one_packet (pac.raw ++ (62 ∷ [])) ≡ ok (some pac))
read_one_packet-write_request_example =
    read_one_packet-write_request 0x8888 (codes "1/echo") (codes "a:1}") (62 ∷ []) echo-IsMessage
      (omega arith) (omega arith)

read_one_packet-fault_example :
    read_one_packet
      (packet_text (request_front 0x1000 1) (codes "1/echo") (codes "a:1}") ++ (0 ∷ 62 ∷ []))
    ≡ fault
unfolding hex4
read_one_packet-fault_example =
    read_one_packet-fault 0x1000 1 (codes "1/echo") (codes "a:1}") (62 ∷ []) echo-IsMessage
      (omega arith) (omega arith) (omega arith) (omega arith)

read_one_packet-write_response_example :
    (pac : Packet) × (write_response 3 0xa0b1 (codes "/1/echo") (codes "{a:1}") ≡ ok pac)
    × (pac.reqcrc16 ≡ 0xa0b1)
    × (read_one_packet (pac.raw ++ (62 ∷ [])) ≡ ok (some pac))
read_one_packet-write_response_example =
    read_one_packet-write_response 3 0xa0b1 (codes "1/echo") (codes "a:1}") (62 ∷ []) echo-IsMessage
      (omega arith) (omega arith) (omega arith)
