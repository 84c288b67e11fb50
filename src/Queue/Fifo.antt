-- ===== src/Queue/Fifo.antt =====
-- Every queue of bytes is a first-in first-out queue.
use mathlib.Core.Path.{subst}
use extlib.Common.{
  ◌≡◌, refl, sym, ap, ◌∙◌, List, [], ◌∷◌, ◌++◌, append_assoc, append-nil, take, drop,
  append-take-drop, ok, Returns-ok, Bytes,
}
use extlib.Queue.{ByteQueue, Op, put, get, fifo, written, IfOk, run, Fits}

-- What comes out of the abstract queue, and then what it holds, is what it held and what was written.
pub fifo-written :
    (ops : List Op) (held : Bytes) → (fifo ops held).0 ++ (fifo ops held).1 ≡ held ++ written ops
fifo-written [] held = sym (append-nil held)
fifo-written (put src ∷ ops) held =
    fifo-written ops (held ++ src) ∙ append_assoc held src (written ops)
fifo-written (get n ∷ ops) held =
    let (out, left) = fifo ops (drop n held) in
    append_assoc (take n held) out left
    ∙ ap (λ t. take n held ++ t) (fifo-written ops (drop n held))
    ∙ sym (append_assoc (take n held) (drop n held) (written ops))
    ∙ ap (λ t. t ++ written ops) (append-take-drop n held)

module _ {Q : Type 0} (queue : ByteQueue Q) where
  -- A run returns, gives what the abstract queue gives, and leaves what that holds.
  pub RunsAsFifo : List Op → Q → Type 0
  RunsAsFifo ops q =
      (out : Bytes) × (c : Q) × (run queue ops q ≡ ok (out, c))
      × ((out, queue.held c) ≡ fifo ops (queue.held q))
      × queue.IsGood c

  pub run-RunsAsFifo :
      (ops : List Op) (q : Q) → queue.IsGood q → Fits queue ops q → RunsAsFifo ops q
  unfolding RunsAsFifo run
  run-RunsAsFifo [] q v h = ([], q, refl, refl, v)
  run-RunsAsFifo (put src ∷ ops) q v (room, h) =
      let ((n, c), e, (counted, kept, w)) =
        Returns-ok _ (queue.write q src) (queue.write_law q src v room) in
      let (out, d, f, k, x) =
        run-RunsAsFifo ops c w (subst (IfOk (λ (_, c). Fits queue ops c)) e h) in
      (out, d, rw (e, run) f, k ∙ ap (fifo ops) kept, x)
  run-RunsAsFifo (get n ∷ ops) q v (can, h) =
      let ((bytes, c), e, (given, kept, w)) =
        Returns-ok _ (queue.read q n) (queue.read_law q n v can) in
      let (out, d, f, k, x) =
        run-RunsAsFifo ops c w (subst (IfOk (λ (_, c). Fits queue ops c)) e h) in
      let both = k ∙ ap (fifo ops) kept in
      (bytes ++ out, d, rw (e, f, run) refl, λ i. (given i ++ (both i).0, (both i).1), x)

  -- the same with the stream that goes through the queue
  pub run-stream :
      (ops : List Op) (q : Q)
      → queue.IsGood q
      → Fits queue ops q
      → (out : Bytes) × (c : Q) × (run queue ops q ≡ ok (out, c))
        × (out ≡ (fifo ops (queue.held q)).0)
        × (queue.held c ≡ (fifo ops (queue.held q)).1)
        × (out ++ queue.held c ≡ queue.held q ++ written ops)
        × queue.IsGood c
  unfolding RunsAsFifo
  run-stream ops q v h =
      let (out, c, e, k, w) = run-RunsAsFifo ops q v h in
      (
        out,
        c,
        e,
        ap (λ p. p.0) k,
        ap (λ p. p.1) k,
        (λ i. (k i).0 ++ (k i).1) ∙ fifo-written ops (queue.held q),
        w,
      )
