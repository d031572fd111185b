-- ===== src/Buffer/Queue.antt =====
-- What the buffer promises: a queue of at most `capacity` bytes, oldest first, and a flag that
-- lets nobody wait any more.
use tiny_cp.Base.{
  ℕ, ◌-◌, min, Bool, true, ◌||◌, List, [], ◌∷◌, ◌++◌, ltb, if◌then◌else◌, length, take, drop,
}

pub record Queue : Type 0 where
  pub items : List ℕ
  pub woken : Bool

-- The calls of the class, with what each is given.
pub data Op : Type 0 where
  write : List ℕ → Op
  read try_read : ℕ → Op
  peek : ℕ → ℕ → Op
  discard : ℕ → Op
  size available_capacity force_wake_up : Op

-- What the caller sees. `waits` is a caller that sleeps on a condition variable.
pub data Reply : Type 0 where
  waits done : Reply
  count : ℕ → Reply
  bytes : List ℕ → Reply

module _ (capacity : ℕ) where
  unfoldable pub step : Queue → Op → Reply × Queue
  step q (write xs) =
      let room = capacity - length q.items in
      if ltb (length q.items) capacity || q.woken
      then (count (min (length xs) room), record q { items = q.items ++ take room xs })
      else (waits, q)
  step q (read n) =
      if ltb 0 (length q.items) || q.woken
      then (bytes (take n q.items), record q { items = drop n q.items })
      else (waits, q)
  step q (try_read n) = (bytes (take n q.items), record q { items = drop n q.items })
  step q (peek n offset) = (bytes (take n (drop offset q.items)), q)
  step q (discard n) = (count (min n (length q.items)), record q { items = drop n q.items })
  step q size = (count (length q.items), q)
  step q available_capacity = (count (capacity - length q.items), q)
  step q force_wake_up = (done, record q { woken = true })

  unfoldable pub run : Queue → List Op → List Reply
  run q [] = []
  run q (op ∷ ops) = let (r, q') = step q op in r ∷ run q' ops
