-- ===== src/Buffer/Waiting.antt =====
-- When a writer waits, and when a reader does not.
use tiny_cp.Base.{refl, true, ◌||◌, ltb, ℕ, ◌<◌, ◌≡◌, false, none, some, arith, List}
use tiny_cp.Buffer.{BlockingBuffer, read, fetch, write, store, size}

pub write_of_room :
    (c : ℕ) (b : BlockingBuffer) (xs : List ℕ) → size b < c → write c b xs ≡ some (store c b xs)
unfolding write size
write_of_room c b xs h = ground arith

pub write_of_full :
    (c : ℕ) (b : BlockingBuffer) (xs : List ℕ)
    → size b ≡ c
    → b.is_forcefully_woken_up ≡ false
    → write c b xs ≡ none
unfolding write size
write_of_full c b xs full asleep = ground arith

pub read_of_some :
    (c n : ℕ) (b : BlockingBuffer)
    → (ltb 0 b.curr_len || b.is_forcefully_woken_up) ≡ true
    → read c b n ≡ some (fetch c b n)
unfolding read
read_of_some c n b h = rw h refl

pub read_of_empty :
    (c n : ℕ) (b : BlockingBuffer)
    → b.curr_len ≡ 0
    → b.is_forcefully_woken_up ≡ false
    → read c b n ≡ none
unfolding read
read_of_empty c n b empty asleep = ground (arith, empty, asleep)
