-- ===== src/Buffer.antt =====
-- BlockingBuffer.h: the byte ring of the send and the receive side of a socket, at any capacity.
-- A method that waits on a condition variable returns `none` where its predicate is false: the
-- calling thread sleeps, with the lock released and the buffer as it was.
-- The `notify` calls only wake such threads; they change no field.
pub mod Window
pub mod Invariant
pub mod Queue
pub mod Refinement
pub mod Run
pub mod Bounds
pub mod Waiting
mod Tests
use tiny_cp.Base.{
  ℕ, zero, suc, ◌+◌, ◌-◌, ◌%◌, min, Bool, true, false, ◌||◌, Option, none, some, List, [], ◌∷◌, ltb,
  leb, ◌==◌, if◌then◌else◌, length, take,
}
use tiny_cp.Base.Memory.{Memory, poke}

-- `buffer_` is `std::array<T, Size>`, read and written at indices below `Size`.
pub record BlockingBuffer : Type 0 where
  pub is_forcefully_woken_up : Bool
  pub read_pos : ℕ
  pub write_pos : ℕ
  pub curr_len : ℕ
  pub buffer : Memory

-- A buffer as it is constructed; `buffer_` is not initialised there.
abbrev pub empty : BlockingBuffer
empty = record {
  is_forcefully_woken_up = false;
  read_pos = 0;
  write_pos = 0;
  curr_len = 0;
  buffer = λ _. 0;
}

unfoldable pub force_wake_up : BlockingBuffer → BlockingBuffer
force_wake_up b = record b { is_forcefully_woken_up = true }

unfoldable pub size : BlockingBuffer → ℕ
size b = b.curr_len

-- A method of the class returns its count beside the new buffer.
abbrev pub Counted : Type 0
Counted = record { count : ℕ; after : BlockingBuffer }

-- What a reading method leaves in the caller's span.
abbrev pub Bytes : Type 0
Bytes = record { bytes : List ℕ; after : BlockingBuffer }

-- `Size` is the template's parameter.
module _ (capacity : ℕ) where
  -- `curr_len_ <= Size`, so the difference does not wrap.
  unfoldable pub available_capacity : BlockingBuffer → ℕ
  available_capacity b = capacity - b.curr_len

  -- `buffer_[write_pos_] = bytes[i]; write_pos_ = (write_pos_ + 1) % Size` for each byte
  pub write_loop : List ℕ → Memory → ℕ → record { buffer : Memory; write_pos : ℕ }
  write_loop [] m pos = record { buffer = m; write_pos = pos }
  write_loop (x ∷ xs) m pos = write_loop xs (poke m pos x) ((pos + 1) % capacity)

  -- `bytes[i] = buffer_[pos]; pos = (pos + 1) % Size`, `n` times
  pub read_loop : Memory → ℕ → ℕ → record { bytes : List ℕ; pos : ℕ }
  read_loop m pos zero = record { bytes = []; pos = pos }
  read_loop m pos (suc n) =
      let rest = read_loop m ((pos + 1) % capacity) n in
      record { bytes = m pos ∷ rest.bytes; pos = rest.pos }

  pub store : BlockingBuffer → List ℕ → Counted
  store b bytes =
      let count = min (length bytes) (capacity - b.curr_len) in
      let out = write_loop (take count bytes) b.buffer b.write_pos in
      record {
        count = count;
        after = record b {
          buffer = out.buffer;
          write_pos = out.write_pos;
          curr_len = b.curr_len + count;
        };
      }

  pub write : BlockingBuffer → List ℕ → Option Counted
  write b bytes =
      if ltb b.curr_len capacity || b.is_forcefully_woken_up then some (store b bytes) else none

  -- The part that `read` and `try_read` share; `n` is the size of the caller's span.
  pub fetch : BlockingBuffer → ℕ → Bytes
  fetch b n =
      let count = min n b.curr_len in
      let out = read_loop b.buffer b.read_pos count in
      record {
        bytes = out.bytes;
        after = record b { read_pos = out.pos; curr_len = b.curr_len - count };
      }

  pub read : BlockingBuffer → ℕ → Option Bytes
  read b n = if ltb 0 b.curr_len || b.is_forcefully_woken_up then some (fetch b n) else none

  pub try_read : BlockingBuffer → ℕ → Bytes
  try_read b n = if b.curr_len == 0 then record { bytes = []; after = b } else fetch b n

  pub peek : BlockingBuffer → ℕ → ℕ → List ℕ
  peek b n offset =
      if leb b.curr_len offset
      then []
      else (read_loop b.buffer ((b.read_pos + offset) % capacity)
          (min n (b.curr_len - offset))).bytes

  pub discard : BlockingBuffer → ℕ → Counted
  discard b count =
      let to_discard = min count b.curr_len in
      record {
        count = to_discard;
        after = record b {
          read_pos = (b.read_pos + to_discard) % capacity;
          curr_len = b.curr_len - to_discard;
        };
      }
