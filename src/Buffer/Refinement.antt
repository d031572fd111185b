-- ===== src/Buffer/Refinement.antt =====
-- A valid ring is the bounded queue of the bytes that it holds.
use tiny_cp.Base.{
  ℕ, ◌+◌, ◌-◌, ◌%◌, ◌≡◌, refl, sym, ◌∙◌, List, ◌++◌, arith, length, min, take, drop, length-take,
  take-min,
}
use native.Mathlib.Nat.{mod-eq_of_lt, add-zero, zero-add}
use tiny_cp.Buffer.{BlockingBuffer, store, fetch, peek, discard}
use tiny_cp.Buffer.Window.{
  window, length-window, take-window, drop-window, bytes-read_loop, window-write_loop,
  pos-read_loop, window-rebase,
}
use tiny_cp.Buffer.Invariant.{IsValid}
use tiny_cp.Buffer.Queue.{Queue}

module _ (capacity : ℕ) where
  -- The bytes that a ring holds, oldest first.
  abbrev pub contents : BlockingBuffer → List ℕ
  contents b = window capacity b.read_pos b.buffer 0 b.curr_len

  abbrev pub view : BlockingBuffer → Queue
  view b = record { items = contents b; woken = b.is_forcefully_woken_up }

module _ {capacity : ℕ} {b : BlockingBuffer} (v : IsValid capacity b) where
  pub length-contents : length (contents capacity b) ≡ b.curr_len
  length-contents = length-window capacity b.read_pos b.buffer 0 b.curr_len

  pub contents-store :
      (xs : List ℕ)
      → contents capacity (store capacity b xs).after
        ≡ contents capacity b ++ take (capacity - b.curr_len) xs
  unfolding store
  contents-store xs =
      let room = capacity - b.curr_len in
      let n = min (length xs) room in
      ground (
        arith,
        take-min room xs,
        length-take room xs,
        window-write_loop capacity b.read_pos (take n xs) b.buffer b.curr_len b.write_pos v.read_in,
      )

  pub bytes-fetch :
      (n : ℕ)
      → ((fetch capacity b n).bytes ≡ take n (contents capacity b))
        × (contents capacity (fetch capacity b n).after ≡ drop n (contents capacity b))
  unfolding fetch
  bytes-fetch n =
      let k = min n b.curr_len in
      (
        bytes-read_loop capacity b.read_pos b.buffer b.read_pos 0 k
              (rw (add-zero, mod-eq_of_lt v.read_in))
            ∙ sym (take-window capacity b.read_pos b.buffer 0 b.curr_len n),
        ground (
          arith,
          pos-read_loop capacity b.read_pos b.buffer k v.read_in,
          window-rebase capacity b.read_pos k b.buffer (b.curr_len - k),
          zero-add k,
          drop-window capacity b.read_pos b.buffer 0 b.curr_len n,
        ),
      )

  pub contents-discard :
      (n : ℕ) → contents capacity (discard capacity b n).after ≡ drop n (contents capacity b)
  unfolding discard
  contents-discard n =
      let k = min n b.curr_len in
      ground (
        arith,
        window-rebase capacity b.read_pos k b.buffer (b.curr_len - k),
        zero-add k,
        drop-window capacity b.read_pos b.buffer 0 b.curr_len n,
      )

  pub bytes-peek :
      (n offset : ℕ) → peek capacity b n offset ≡ take n (drop offset (contents capacity b))
  unfolding peek
  bytes-peek n offset =
      let k = min offset b.curr_len in
      ground (
        arith,
        zero-add k,
        drop-window capacity b.read_pos b.buffer 0 b.curr_len offset,
        take-window capacity b.read_pos b.buffer k (b.curr_len - k) n,
        bytes-read_loop capacity b.read_pos b.buffer ((b.read_pos + offset) % capacity) offset
            (min n (b.curr_len - offset)) refl,
      )

  pub count-store :
      (xs : List ℕ) → (store capacity b xs).count ≡ min (length xs) (capacity - b.curr_len)
  unfolding store
  count-store xs = refl

  pub count-discard : (n : ℕ) → (discard capacity b n).count ≡ min n b.curr_len
  unfolding discard
  count-discard n = refl

  pub woken-store :
      (xs : List ℕ) → (store capacity b xs).after.is_forcefully_woken_up ≡ b.is_forcefully_woken_up
  unfolding store
  woken-store xs = refl

  pub woken-fetch :
      (n : ℕ) → (fetch capacity b n).after.is_forcefully_woken_up ≡ b.is_forcefully_woken_up
  unfolding fetch
  woken-fetch n = refl

  pub woken-discard :
      (n : ℕ) → (discard capacity b n).after.is_forcefully_woken_up ≡ b.is_forcefully_woken_up
  unfolding discard
  woken-discard n = refl
