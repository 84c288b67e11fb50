-- ===== src/Queue.antt =====
-- What src/atbuf.c and src/ringbuf.c have in common: a queue of bytes, and its runs.
pub mod Fifo
pub mod Buffers
use extlib.Common.{
  ℕ, ◌≡◌, List, [], ◌∷◌, ◌++◌, length, take, drop, Outcome, ok, abort, fault, ◌>>=◌, Returns, Bytes,
}

-- What a buffer promises its clients. `held` are the bytes that were written and not read yet.
pub record ByteQueue (Q : Type 0) : Type 1 where
  pub write : Q → Bytes → Outcome (ℕ × Q)
  pub read : Q → ℕ → Outcome (Bytes × Q)
  pub held : Q → Bytes
  pub IsGood : Q → Type 0
  pub HasRoom : Q → Bytes → Type 0
  pub CanGive : Q → ℕ → Type 0
  pub write_law :
      (q : Q) (src : Bytes)
      → IsGood q
      → HasRoom q src
      → Returns (λ (n, c). (n ≡ length src) × (held c ≡ held q ++ src) × IsGood c) (write q src)
  pub read_law :
      (q : Q) (n : ℕ)
      → IsGood q
      → CanGive q n
      → Returns
          (λ (bytes, c). (bytes ≡ take n (held q)) × (held c ≡ drop n (held q)) × IsGood c)
          (read q n)

-- one call of a client
pub data Op : Type 0 where
  put : Bytes → Op
  get : ℕ → Op

-- the abstract queue: what comes out of it, and what it holds then
abbrev pub fifo : List Op → Bytes → Bytes × Bytes
fifo [] held = ([], held)
fifo (put src ∷ ops) held = fifo ops (held ++ src)
fifo (get n ∷ ops) held = let (out, left) = fifo ops (drop n held) in (take n held ++ out, left)

-- all that is written
abbrev pub written : List Op → Bytes
written [] = []
written (put src ∷ ops) = src ++ written ops
written (get n ∷ ops) = written ops

-- a condition on what a call returns, if it returns
abbrev pub IfOk : {A : Type 0} → (A → Type 0) → Outcome A → Type 0
IfOk P (ok a) = P a
IfOk P abort = Unit
IfOk P fault = Unit

module _ {Q : Type 0} (queue : ByteQueue Q) where
  -- the calls, one after the other, and the bytes that the reads give
  unfoldable pub run : List Op → Q → Outcome (Bytes × Q)
  run [] q = ok ([], q)
  run (put src ∷ ops) q = do (_, c) ← queue.write q src; run ops c
  run (get n ∷ ops) q = do (bytes, c) ← queue.read q n; (out, d) ← run ops c; ok (bytes ++ out, d)

  -- Each write finds room and each read can be served when its turn comes.
  abbrev pub Fits : List Op → Q → Type 0
  Fits [] q = Unit
  Fits (put src ∷ ops) q = queue.HasRoom q src × IfOk (λ (_, c). Fits ops c) (queue.write q src)
  Fits (get n ∷ ops) q = queue.CanGive q n × IfOk (λ (_, c). Fits ops c) (queue.read q n)
