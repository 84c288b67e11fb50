-- ===== src/Bus/Sending.antt =====
-- What `apibus_send` and the station table do to the rest of the bus.
use mathlib.Core.Path.{subst}
use extlib.Common.{
  ◌⊎◌, sym, ℕ, ◌≡◌, inl, inr, true, some, List, [], ◌∷◌, ◌++◌, arith, In, In-append_left, Bytes,
}
use extlib.Bus.{Bus, SinkFd, find_sinkfd, send}

-- `fd` is one of the bus, and its sink can send.
abbrev pub Reachable : List SinkFd → ℕ → Type 0
Reachable sinkfds fd = (s : SinkFd) × (find_sinkfd sinkfds fd ≡ some s) × (s.can_send ≡ true)

-- A message to a descriptor that can be reached is sent, and nothing else changes.
pub send-Reachable :
    (bus : Bus) (fd : ℕ) (buf : Bytes)
    → Reachable bus.sinkfds fd
    → send bus fd buf ≡ record bus { sent = bus.sent ++ ((fd, buf) ∷ []) }
unfolding send
send-Reachable bus fd buf (s, e, k) = ground arith

pub send-cases :
    (bus : Bus) (fd : ℕ) (buf : Bytes)
    → (send bus fd buf ≡ bus)
      ⊎ (send bus fd buf ≡ record bus { sent = bus.sent ++ ((fd, buf) ∷ []) })
unfolding send
send-cases bus fd buf = ground arith

-- Whatever was sent stays sent.
pub In-send :
    (bus : Bus) (fd : ℕ) (buf : Bytes) (m : ℕ × Bytes) → In m bus.sent → In m (send bus fd buf).sent
In-send bus fd buf m h = elim (send-cases bus fd buf) [
  | inl e ↦ subst (λ b. In m b.sent) (sym e) h
  | inr e ↦ subst (λ b. In m b.sent) (sym e) (In-append_left m bus.sent ((fd, buf) ∷ []) h)
]

pub sinkfds-send : (bus : Bus) (fd : ℕ) (buf : Bytes) → (send bus fd buf).sinkfds ≡ bus.sinkfds
unfolding send
sinkfds-send bus fd buf = ground arith

pub stations-send : (bus : Bus) (fd : ℕ) (buf : Bytes) → (send bus fd buf).stations ≡ bus.stations
unfolding send
stations-send bus fd buf = ground arith

pub requests-send : (bus : Bus) (fd : ℕ) (buf : Bytes) → (send bus fd buf).requests ≡ bus.requests
unfolding send
requests-send bus fd buf = ground arith

pub topics-send : (bus : Bus) (fd : ℕ) (buf : Bytes) → (send bus fd buf).topics ≡ bus.topics
unfolding send
topics-send bus fd buf = ground arith

pub topic_msgs-send :
    (bus : Bus) (fd : ℕ) (buf : Bytes) → (send bus fd buf).topic_msgs ≡ bus.topic_msgs
unfolding send
topic_msgs-send bus fd buf = ground arith
