-- ===== src/Buffer/Run.antt =====
-- Any sequence of calls on the ring, against the queue of `Buffer.Queue`.
use tiny_cp.Base.{ℕ, ◌≡◌, refl, none, some, List, [], ◌∷◌, arith, take-empty, drop-empty}
use tiny_cp.Buffer.{
  BlockingBuffer, write, read, try_read, peek, discard, force_wake_up, size, available_capacity,
}
use tiny_cp.Buffer.Invariant.{
  IsValid, store-IsValid, fetch-IsValid, discard-IsValid, force_wake_up-IsValid,
}
use tiny_cp.Buffer.Queue
use tiny_cp.Buffer.Queue.{Queue, Op, Reply}
use tiny_cp.Buffer.Refinement.{
  contents, view, length-contents, contents-store, bytes-fetch, contents-discard, bytes-peek,
  count-store, count-discard, woken-store, woken-fetch, woken-discard,
}

module _ (capacity : ℕ) where
  -- One call, with what its caller sees.
  pub call : BlockingBuffer → Op → Reply × BlockingBuffer
  call b (Op.write xs) = elim (write capacity b xs) [
    | none ↦ (Reply.waits, b)
    | some out ↦ (Reply.count out.count, out.after)
  ]
  call b (Op.read n) = elim (read capacity b n) [
    | none ↦ (Reply.waits, b)
    | some out ↦ (Reply.bytes out.bytes, out.after)
  ]
  call b (Op.try_read n) = let out = try_read capacity b n in (Reply.bytes out.bytes, out.after)
  call b (Op.peek n offset) = (Reply.bytes (peek capacity b n offset), b)
  call b (Op.discard n) = let out = discard capacity b n in (Reply.count out.count, out.after)
  call b Op.size = (Reply.count (size b), b)
  call b Op.available_capacity = (Reply.count (available_capacity capacity b), b)
  call b Op.force_wake_up = (Reply.done, force_wake_up b)

  pub run : BlockingBuffer → List Op → List Reply
  run b [] = []
  run b (op ∷ ops) = let (r, b') = call b op in r ∷ run b' ops

module _ {capacity : ℕ} {b : BlockingBuffer} (v : IsValid capacity b) where
  -- Every method keeps the invariant, also where its caller waits.
  pub call-IsValid : (op : Op) → IsValid capacity (call capacity b op).1
  unfolding call write read try_read
  call-IsValid (Op.write xs) = ground (arith, store-IsValid xs v)
  call-IsValid (Op.read n) = ground (arith, fetch-IsValid n v)
  call-IsValid (Op.try_read n) = ground (arith, fetch-IsValid n v)
  call-IsValid (Op.discard n) = discard-IsValid n v
  call-IsValid Op.force_wake_up = force_wake_up-IsValid v
  call-IsValid _ = v

  -- Every method does to the bytes of the ring what the queue does, and answers as it does.
  pub call_refines :
      (op : Op)
      → let (r, b') = call capacity b op in
        (r, view capacity b') ≡ Queue.step capacity (view capacity b) op
  unfolding call write read try_read Queue.step size available_capacity force_wake_up
  call_refines (Op.write xs) =
      ground (arith, length-contents v, contents-store v xs, count-store v xs, woken-store v xs)
  call_refines (Op.read n) = ground (arith, length-contents v, bytes-fetch v n, woken-fetch v n)
  call_refines (Op.try_read n) =
      let held = contents capacity b in
      ground (
        arith,
        length-contents v,
        take-empty n held,
        drop-empty n held,
        bytes-fetch v n,
        woken-fetch v n,
      )
  call_refines (Op.peek n offset) = ground (arith, bytes-peek v n offset)
  call_refines (Op.discard n) =
      ground (arith, length-contents v, count-discard v n, contents-discard v n, woken-discard v n)
  call_refines Op.size = ground (arith, length-contents v)
  call_refines Op.available_capacity = ground (arith, length-contents v)
  call_refines Op.force_wake_up = refl

-- No sequence of calls tells a valid ring from the bounded queue of the bytes that it holds.
pub run_refines :
    {capacity : ℕ} (ops : List Op) {b : BlockingBuffer}
    → IsValid capacity b
    → run capacity b ops ≡ Queue.run capacity (view capacity b) ops
unfolding run Queue.run
run_refines [] v = refl
run_refines {capacity} (op ∷ ops) {b} v =
    rw (run_refines ops (call-IsValid v op), ← call_refines v op)
