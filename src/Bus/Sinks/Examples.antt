-- ===== src/Bus/Sinks/Examples.antt =====
-- Two sinks on a bus.
use extlib.Common.{ℕ, ◌≡◌, refl, some, none, [], ◌∷◌, false, ok, success, length}
use extlib.Text.{codes, same_text}
use extlib.Bus.Sinks.{Ops, Sink, find_sink, add_sink, del_sink, apibus_open}
use extlib.Bus.Sinks.Names.{DistinctNames, adds, dels, changes, changes-open}

abbrev opens : Ops ℕ
opens = record {
  open_op = some (λ addr. length addr);
  close_op = none;
  ioctl_op = none;
  send_op = none;
  recv_op = none;
  poll_op = 0;
}

abbrev tcp_sink : Sink ℕ
tcp_sink = record { address = 1; name = codes "tcp"; ops = opens; attached = false }

abbrev unix_sink : Sink ℕ
unix_sink = record { address = 2; name = codes "unix"; ops = opens; attached = false }

changes-open_example :
    let ss = changes (adds tcp_sink ∷ adds unix_sink ∷ dels tcp_sink ∷ []) [] in
    DistinctNames (add_sink tcp_sink ss).2
    × ((add_sink tcp_sink ss).0 ≡ success)
    × (apibus_open (add_sink tcp_sink ss).2 (codes "tcp") (codes ":80") ≡ ok (some 3))
unfolding find_sink add_sink del_sink same_text
changes-open_example =
    changes-open (adds tcp_sink ∷ adds unix_sink ∷ dels tcp_sink ∷ []) tcp_sink
      (λ addr. length addr) (codes ":80") refl refl
