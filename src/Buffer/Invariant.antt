-- ===== src/Buffer/Invariant.antt =====
-- The representation invariant of the ring, and that each method keeps it.
use tiny_cp.Base.{
  ℕ, zero, suc, ◌+◌, ◌-◌, ◌%◌, ◌≤◌, ◌<◌, ◌≡◌, ap, ◌∙◌, some, List, arith, length, min, length-take,
}
use tiny_cp.Buffer.{
  BlockingBuffer, Counted, Bytes, empty, store, write, fetch, read, discard, force_wake_up,
}
use tiny_cp.Buffer.Window.{write_pos-write_loop, pos-read_loop, round_skip}

-- The positions lie in the array, and the write position is `curr_len` steps past the other.
pub record IsValid (capacity : ℕ) (b : BlockingBuffer) : Type 0 where
  pub read_in : b.read_pos < capacity
  pub len_in : b.curr_len ≤ capacity
  pub aligned : b.write_pos ≡ (b.read_pos + b.curr_len) % capacity

pub empty-IsValid : (capacity : ℕ) → 0 < capacity → IsValid capacity empty
empty-IsValid zero h = elim h [ ]
empty-IsValid (suc n) h = omega arith

module _ {capacity : ℕ} {b : BlockingBuffer} where
  pub store-IsValid :
      (xs : List ℕ) → IsValid capacity b → IsValid capacity (store capacity b xs).after
  unfolding store
  store-IsValid xs v = record {
    read_in = v.read_in;
    len_in = omega arith;
    aligned =
        write_pos-write_loop capacity b.read_pos _ b.buffer b.curr_len b.write_pos v.aligned
        ∙ ap (λ (k : ℕ). (b.read_pos + (b.curr_len + k)) % capacity)
            (omega (arith, length-take (min (length xs) (capacity - b.curr_len)) xs));
  }

  pub fetch-IsValid : (n : ℕ) → IsValid capacity b → IsValid capacity (fetch capacity b n).after
  unfolding fetch
  fetch-IsValid n v = ground (
    arith,
    pos-read_loop capacity b.read_pos b.buffer (min n b.curr_len),
    round_skip capacity b.read_pos b.curr_len (min n b.curr_len),
  )

  pub discard-IsValid : (n : ℕ) → IsValid capacity b → IsValid capacity (discard capacity b n).after
  unfolding discard
  discard-IsValid n v = ground (arith, round_skip capacity b.read_pos b.curr_len (min n b.curr_len))

  pub force_wake_up-IsValid : IsValid capacity b → IsValid capacity (force_wake_up b)
  unfolding force_wake_up
  force_wake_up-IsValid v = record { read_in = v.read_in; len_in = v.len_in; aligned = v.aligned }

  pub write-IsValid :
      (xs : List ℕ) {out : Counted}
      → IsValid capacity b
      → write capacity b xs ≡ some out
      → IsValid capacity out.after
  unfolding write
  write-IsValid xs v e = ground (arith, store-IsValid xs v)

  pub read-IsValid :
      (n : ℕ) {out : Bytes}
      → IsValid capacity b
      → read capacity b n ≡ some out
      → IsValid capacity out.after
  unfolding read
  read-IsValid n v e = ground (arith, fetch-IsValid n v)
