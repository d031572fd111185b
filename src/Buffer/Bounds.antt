-- ===== src/Buffer/Bounds.antt =====
-- Which places of the array the loops touch.
use tiny_cp.Base.{
  ℕ, zero, suc, ◌+◌, ◌%◌, ◌≤◌, ◌<◌, ◌≡◌, refl, ap₂, List, [], ◌∷◌, arith, min, ◌-◌, length, ap,
}
use tiny_cp.Base.Memory.{Memory, poke}
use tiny_cp.Buffer.{BlockingBuffer, write_loop, read_loop, store, fetch, peek, discard}
use tiny_cp.Buffer.Invariant.{IsValid}

module _ (c : ℕ) where
  write_loop_outside :
      (xs : List ℕ) (m : Memory) (p i : ℕ) → p < c → c ≤ i → (write_loop c xs m p).buffer i ≡ m i
  unfolding write_loop
  write_loop_outside [] m p i hp hi = refl
  write_loop_outside (x ∷ xs) m p i hp hi =
      ground (arith, write_loop_outside xs (poke m p x) ((p + 1) % c) i)

  read_loop_inside :
      (m m' : Memory) (p n : ℕ)
      → p < c
      → ((i : ℕ) → i < c → m i ≡ m' i)
      → (read_loop c m p n).bytes ≡ (read_loop c m' p n).bytes
  unfolding read_loop
  read_loop_inside m m' p zero hp h = refl
  read_loop_inside m m' p (suc n) hp h =
      ap₂ ◌∷◌ (h p hp) (read_loop_inside m m' ((p + 1) % c) n (omega arith) h)

-- `write` stores nothing outside the array.
pub store_outside :
    (c : ℕ) {b : BlockingBuffer} (xs : List ℕ) (i : ℕ)
    → IsValid c b
    → c ≤ i
    → (store c b xs).after.buffer i ≡ b.buffer i
unfolding store
store_outside c {b} xs i v h = write_loop_outside c _ b.buffer b.write_pos i (omega arith) h

-- What `read` and `peek` give is decided by the array alone: nothing beyond it is read.
pub reads_inside :
    (c : ℕ) {b : BlockingBuffer} (m : Memory) (n offset : ℕ)
    → IsValid c b
    → ((i : ℕ) → i < c → b.buffer i ≡ m i)
    → ((fetch c b n).bytes ≡ (fetch c (record b { buffer = m }) n).bytes)
      × (peek c b n offset ≡ peek c (record b { buffer = m }) n offset)
unfolding fetch peek
reads_inside c {b} m n offset v h = (
  read_loop_inside c b.buffer m b.read_pos (min n b.curr_len) v.read_in h,
  ground (
    arith,
    read_loop_inside c b.buffer m ((b.read_pos + offset) % c) (min n (b.curr_len - offset))
        (omega arith) h,
  ),
)

length-read_loop : (c : ℕ) (m : Memory) (p n : ℕ) → length (read_loop c m p n).bytes ≡ n
unfolding read_loop
length-read_loop c m p zero = refl
length-read_loop c m p (suc n) = ap suc (length-read_loop c m ((p + 1) % c) n)

-- How many bytes `peek` gives.
pub length-peek :
    (c : ℕ) (b : BlockingBuffer) (n offset : ℕ)
    → length (peek c b n offset) ≡ min n (b.curr_len - offset)
unfolding peek
length-peek c b n offset =
    ground
      (arith, length-read_loop c b.buffer ((b.read_pos + offset) % c) (min n (b.curr_len - offset)))

-- How many bytes `discard` leaves.
pub size-discard :
    (c : ℕ) (b : BlockingBuffer) (n : ℕ) → (discard c b n).after.curr_len ≡ b.curr_len - n
unfolding discard
size-discard c b n = omega arith
