-- ===== src/Bus/Poll.antt =====
-- `apibus_poll` of src/apix.c.
pub mod Parsed
pub mod Request
pub mod Response
pub mod Idle
pub mod Settled
use extlib.Common.{
  ℕ, suc, ◌+◌, List, [], ◌∷◌, Bool, ltb, ◌==◌, if◌then◌else◌, Outcome, ok, ◌>>=◌, Rc,
}
use extlib.Atbuf.{used}
use extlib.Bus.Parse.{parse_packet}
use extlib.Bus.{Bus, SinkFd, clear_unalive}
use extlib.Bus.Requests.{handle_request}
use extlib.Bus.Responses.{handle_response}
use extlib.Bus.Topics.{handle_topic_msg}

-- `timercmp(a, b, <)` on seconds and microseconds
abbrev pub earlier : ℕ × ℕ → ℕ × ℕ → Bool
earlier a b = if a.0 == b.0 then ltb a.1 b.1 else ltb a.0 b.0

-- `poll_cnt`: how many descriptors have received something since the poll began
unfoldable pub count_active : ℕ × ℕ → List SinkFd → ℕ
count_active poll_ts [] = 0
count_active poll_ts (s ∷ ss) =
    let rest = count_active poll_ts ss in if earlier poll_ts s.ts_poll_recv then suc rest else rest

abbrev pub idle_max : ℕ
idle_max = 1000000

-- The microseconds that an idle bus sleeps grow by a tenth of the maximum with each idle poll, and
-- start again with the first that is not.
pub back_off : Bus → Bus
back_off bus =
    if bus.poll_cnt == 0
    then if bus.idle_usec == idle_max then bus else record bus {
      idle_usec =
          if ltb idle_max (bus.idle_usec + 100000) then idle_max else bus.idle_usec + 100000;
    }
    else record bus { idle_usec = 100000 }

-- the handlers, in their order
pub handle_messages : ℕ → Bus → Outcome Bus
handle_messages now bus = do
  b ← handle_topic_msg (handle_response now (handle_request now bus))
  ok (record b { stations = clear_unalive now b.stations })

-- The loop over the descriptors, but for the count.
parse_all : ℕ → List SinkFd → Bus → Outcome (List SinkFd × Bus)
parse_all now [] bus = ok ([], bus)
parse_all now (s ∷ ss) bus = do
  (s', b) ←
      if used s.rxbuf == 0
      then ok (s, bus)
      else (do (_, s', b) ← parse_packet now s bus; ok (s', b))
  (ss', b') ← parse_all now ss b
  ok (s' ∷ ss', b')

pub parse_sinkfds : ℕ → Bus → Outcome Bus
unfolding parse_all
parse_sinkfds now bus = do (ss, b) ← parse_all now bus.sinkfds bus; ok (record b { sinkfds = ss })

-- The first loop, over the sinks of the bus. `K` is what a sink keeps, and `poll` its operation, whose
-- result is only logged.
unfoldable pub poll_each :
    {K : Type 0} → (K → Bus → Outcome (Rc × K × Bus)) → List K → Bus → Outcome (List K × Bus)
poll_each poll [] bus = ok ([], bus)
poll_each poll (k ∷ ks) bus = do
  (_, k', b) ← poll k bus
  (ks', b') ← poll_each poll ks b
  ok (k' ∷ ks', b')

-- `poll_ts` and `now` are the times that the code reads.
pub apibus_poll :
    {K : Type 0}
    → (K → Bus → Outcome (Rc × K × Bus))
    → ℕ × ℕ
    → ℕ
    → List K
    → Bus
    → Outcome (List K × Bus)
unfolding poll_each
apibus_poll poll poll_ts now sinks bus = do
  (ks, b) ← poll_each poll sinks (record bus { poll_cnt = 0 })
  c ← parse_sinkfds now (record b { poll_cnt = count_active poll_ts b.sinkfds })
  d ← handle_messages now (back_off c)
  ok (ks, d)
