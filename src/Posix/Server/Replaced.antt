-- ===== src/Posix/Server/Replaced.antt =====
-- A descriptor of the bus in a new state.
use extlib.Common.{
  ℕ, ◌≡◌, ap, false, inl, inr, some, List, [], ◌∷◌, ◌++◌, arith, ◌==◌, All, Bool-cases,
}
use extlib.Bus.{SinkFd, find_sinkfd}
use extlib.Posix.{update_sinkfd}

-- `s` is the first descriptor with its number, between `xs` and `ys`.
pub record IsFirst (ss xs : List SinkFd) (s : SinkFd) (ys : List SinkFd) : Type 0 where
  pub split : ss ≡ xs ++ (s ∷ ys)
  pub others : All (λ x. (x.fd == s.fd) ≡ false) xs

pub find_sinkfd-IsFirst :
    (ss : List SinkFd) (s : SinkFd)
    → find_sinkfd ss s.fd ≡ some s
    → (xs : List SinkFd) × (ys : List SinkFd) × IsFirst ss xs s ys
unfolding find_sinkfd
find_sinkfd-IsFirst [] s e = absurd (ground arith)
find_sinkfd-IsFirst (x ∷ ss) s e = elim (Bool-cases (x.fd == s.fd)) [
  | inl h ↦
      let same : x ≡ s = ground arith in
      ([], ss, record { split = ap (λ y. y ∷ ss) same; others = tt })
  | inr h ↦
      let (xs, ys, f) = find_sinkfd-IsFirst ss s (ground arith) in
      (x ∷ xs, ys, record { split = ap (λ r. x ∷ r) f.split; others = (h, f.others) })
]

pub update_sinkfd-IsFirst :
    (xs : List SinkFd) (s t : SinkFd) (ys : List SinkFd)
    → t.fd ≡ s.fd
    → All (λ x. (x.fd == s.fd) ≡ false) xs
    → update_sinkfd t (xs ++ (s ∷ ys)) ≡ xs ++ (t ∷ ys)
unfolding update_sinkfd
update_sinkfd-IsFirst [] s t ys same h = ground arith
update_sinkfd-IsFirst (x ∷ xs) s t ys same (e, h) =
    ground (arith, update_sinkfd-IsFirst xs s t ys same h)

-- What is found under another number is not affected.
pub find_sinkfd-other :
    (xs : List SinkFd) (s t : SinkFd) (ys : List SinkFd) (fd : ℕ)
    → t.fd ≡ s.fd
    → (s.fd == fd) ≡ false
    → find_sinkfd (xs ++ (t ∷ ys)) fd ≡ find_sinkfd (xs ++ (s ∷ ys)) fd
unfolding find_sinkfd
find_sinkfd-other [] s t ys fd same e = ground arith
find_sinkfd-other (x ∷ xs) s t ys fd same e = ground (arith, find_sinkfd-other xs s t ys fd same e)

pub All-middle :
    {A : Type 0} (P : A → Type 0) (xs : List A) (x : A) (ys : List A)
    → All P (xs ++ (x ∷ ys))
    → All P xs × P x × All P ys
All-middle P [] x ys (p, h) = (tt, p, h)
All-middle P (z ∷ xs) x ys (p, h) = let (h', q, k) = All-middle P xs x ys h in ((p, h'), q, k)

pub All-replaced :
    {A : Type 0} (P : A → Type 0) (xs : List A) (x : A) (ys : List A)
    → All P xs
    → P x
    → All P ys
    → All P (xs ++ (x ∷ ys))
All-replaced P [] x ys h p k = (p, k)
All-replaced P (z ∷ xs) x ys (q, h) p k = (q, All-replaced P xs x ys h p k)
