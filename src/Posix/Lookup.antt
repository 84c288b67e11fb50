-- ===== src/Posix/Lookup.antt =====
-- What is found on the bus after a descriptor was updated.
use extlib.Common.{ℕ, ◌≡◌, refl, inl, inr, false, Bool-cases, some, List, [], ◌∷◌, arith, ◌==◌}
use extlib.Bus.{SinkFd, find_sinkfd}
use extlib.Posix.{update_sinkfd}

pub find_sinkfd-fd :
    (ss : List SinkFd) (fd : ℕ) (s : SinkFd) → find_sinkfd ss fd ≡ some s → s.fd ≡ fd
unfolding find_sinkfd
find_sinkfd-fd [] fd s e = cc
find_sinkfd-fd (x ∷ ss) fd s e = elim (Bool-cases (x.fd == fd)) [
  | inl h ↦ ground (arith, e, h)
  | inr h ↦ find_sinkfd-fd ss fd s (ground (arith, e, h))
]

pub find_sinkfd-update_self :
    (ss : List SinkFd) (t s : SinkFd)
    → find_sinkfd ss t.fd ≡ some s
    → find_sinkfd (update_sinkfd t ss) t.fd ≡ some t
unfolding find_sinkfd update_sinkfd
find_sinkfd-update_self [] t s e = cc
find_sinkfd-update_self (x ∷ ss) t s e = elim (Bool-cases (x.fd == t.fd)) [
  | inl h ↦ ground arith
  | inr h ↦ ground (arith, find_sinkfd-update_self ss t s)
]

pub find_sinkfd-update_other :
    (ss : List SinkFd) (t : SinkFd) (fd : ℕ)
    → (t.fd == fd) ≡ false
    → find_sinkfd (update_sinkfd t ss) fd ≡ find_sinkfd ss fd
unfolding find_sinkfd update_sinkfd
find_sinkfd-update_other [] t fd e = refl
find_sinkfd-update_other (x ∷ ss) t fd e = elim (Bool-cases (x.fd == t.fd)) [
  | inl h ↦ ground arith
  | inr h ↦ ground (arith, find_sinkfd-update_other ss t fd e)
]
