-- ===== src/Svcx/Examples.antt =====
-- A hub with an echo service and a more general one behind it.
use extlib.Common.{ℕ, ◌≡◌, some, [], ◌∷◌, length}
use extlib.Text.{codes}
use extlib.Srrp.{Packet, request_leader}
use extlib.Svcx.{Service, add_service, del_service}
use extlib.Svcx.Laws.{del_service-add_service}

abbrev echo : Service ℕ
echo = record { header = codes "/2/echo"; func = λ req. length req.header }

abbrev any : Service ℕ
any = record { header = codes "/2"; func = λ req. 0 }

abbrev call : Packet
call = record {
  leader = request_leader;
  seat = b'$';
  seqno = 0;
  len = 24;
  srcid = 1;
  reqcrc16 = 0;
  header = codes "/2/a";
  header_len = 4;
  data_len = 2;
  data_text = codes "{}";
  raw = codes ">0,$,0018,0001:/2/a?{}";
}

del_service-add_service_example :
    del_service (codes "/2") (add_service (codes "/2") (λ req. 5) (echo ∷ [])) ≡ some (echo ∷ [])
del_service-add_service_example = del_service-add_service (codes "/2") (λ req. 5) (echo ∷ [])
