-- ===== src/Buffer/Window.antt =====
-- The bytes of a ring as a window that goes round the array, and the two loops over it.
use native.Mathlib.Nat.{add_assoc, mod-add-mod, mod-eq_of_lt, mod-eq-sub-mod, add-zero, zero-add}
use native.Mathlib.Numerals.{add-one}
use mathlib.Core.List.{append-nil, append_assoc}
use native.Mathlib.Decide.{dec_lt}
use tiny_cp.Base.{
  ℕ, zero, suc, ◌+◌, ◌-◌, ◌%◌, ◌≤◌, ◌<◌, ◌≡◌, ◌≢◌, refl, ap, ap₂, ◌∙◌, List, [], ◌∷◌, ◌++◌, arith,
  length, take, drop, min,
}
use tiny_cp.Base.Memory.{Memory, poke}
use tiny_cp.Buffer.{write_loop, read_loop}

-- One more step round the ring.
round_next : (c r i p : ℕ) → p ≡ (r + i) % c → (p + 1) % c ≡ (r + (i + 1)) % c
round_next c r i p e =
    ap (λ (t : ℕ). (t + 1) % c) e
    ∙ mod-add-mod (r + i) c 1
    ∙ ap (λ (t : ℕ). t % c) (add_assoc r i 1)

-- Two places fewer than `c` steps apart are different places.
round_apart : (c r a b : ℕ) → r < c → a < b → b < c → (r + a) % c ≢ (r + b) % c
round_apart c r a b hr hab hb e = elim (dec_lt (r + a) c) [
  | yes p ↦ elim (dec_lt (r + b) c) [
    | yes q ↦ omega (arith, mod-eq_of_lt p, mod-eq_of_lt q)
    | no q ↦ omega (
      arith,
      mod-eq_of_lt p,
      mod-eq-sub-mod {n = r + b} {m = c} (omega arith),
      mod-eq_of_lt {n = r + b - c} {m = c} (omega arith),
    )
  ]
  | no p ↦ omega (
    arith,
    mod-eq-sub-mod {n = r + a} {m = c} (omega arith),
    mod-eq_of_lt {n = r + a - c} {m = c} (omega arith),
    mod-eq-sub-mod {n = r + b} {m = c} (omega arith),
    mod-eq_of_lt {n = r + b - c} {m = c} (omega arith),
  )
]

module _ (c r : ℕ) where
  -- The `n` bytes that stand `i` steps and more after `r`.
  abbrev pub window : Memory → ℕ → ℕ → List ℕ
  window m i zero = []
  window m i (suc n) = m ((r + i) % c) ∷ window m (i + 1) n

  pub length-window : (m : Memory) (i n : ℕ) → length (window m i n) ≡ n
  length-window m i zero = refl
  length-window m i (suc n) = ap suc (length-window m (i + 1) n)

  pub take-window : (m : Memory) (i n k : ℕ) → take k (window m i n) ≡ window m i (min k n)
  take-window m i n zero = ap (window m i) {x = 0} {y = min 0 n} (omega arith)
  take-window m i zero (suc k) = ap (window m i) {x = 0} {y = min (suc k) 0} (omega arith)
  take-window m i (suc n) (suc k) =
      ap (◌∷◌ (m ((r + i) % c))) (take-window m (i + 1) n k)
      ∙ ap (window m i) {x = suc (min k n)} {y = min (suc k) (suc n)} (omega arith)

  pub drop-window :
      (m : Memory) (i n k : ℕ) → drop k (window m i n) ≡ window m (i + min k n) (n - min k n)
  drop-window m i n zero = ap₂ (window m) (omega arith) (omega arith)
  drop-window m i zero (suc k) =
      ap₂ (window m) {x = i} {y = i + min (suc k) 0} {u = 0} {v = 0 - min (suc k) 0} (omega arith)
        (omega arith)
  drop-window m i (suc n) (suc k) =
      drop-window m (i + 1) n k ∙ ap₂ (window m) (omega arith) (omega arith)

  pub bytes-read_loop :
      (m : Memory) (p i n : ℕ) → p ≡ (r + i) % c → (read_loop c m p n).bytes ≡ window m i n
  unfolding read_loop
  bytes-read_loop m p i zero e = refl
  bytes-read_loop m p i (suc n) e =
      ap₂ ◌∷◌ (ap m e) (bytes-read_loop m ((p + 1) % c) (i + 1) n (round_next c r i p e))

  -- A byte stored just past the window extends it.
  window-poke :
      (m : Memory) (x i n p : ℕ)
      → r < c
      → i + n < c
      → p ≡ (r + (i + n)) % c
      → window (poke m p x) i (suc n) ≡ window m i n ++ (x ∷ [])
  window-poke m x i zero p hr hn e =
      let here : (r + i) % c ≡ p = ground (arith, add-zero i) in ground arith
  window-poke m x i (suc n) p hr hn e =
      let there = round_apart c r i (i + suc n) hr (omega arith) hn in
      let next : p ≡ (r + (i + 1 + n)) % c = ground (arith, add_assoc i 1 n) in
      ground (arith, there, window-poke m x (i + 1) n p hr (omega arith) next)

  -- The loop of `write` appends what it is given, if there is room.
  pub window-write_loop :
      (xs : List ℕ) (m : Memory) (n p : ℕ)
      → r < c
      → n + length xs ≤ c
      → p ≡ (r + n) % c
      → window (write_loop c xs m p).buffer 0 (n + length xs) ≡ window m 0 n ++ xs
  unfolding write_loop
  window-write_loop [] m n p hr hn e = simp (add-zero, append-nil)
  window-write_loop (x ∷ xs) m n p hr hn e = rw shift (
      window-write_loop xs (poke m p x) (n + 1) ((p + 1) % c) hr (omega arith)
        (round_next c r n p e)
      ∙ ap (λ ys. ys ++ xs) (ap (window (poke m p x) 0) (add-one n) ∙ grown)
      ∙ append_assoc (window m 0 n) (x ∷ []) xs)
    where
      grown : window (poke m p x) 0 (suc n) ≡ window m 0 n ++ (x ∷ [])
      grown = window-poke m x 0 n p hr (omega arith) (rw zero-add e)

      shift : n + suc (length xs) ≡ n + 1 + length xs
      shift = omega arith

  pub write_pos-write_loop :
      (xs : List ℕ) (m : Memory) (n p : ℕ)
      → p ≡ (r + n) % c
      → (write_loop c xs m p).write_pos ≡ (r + (n + length xs)) % c
  unfolding write_loop
  write_pos-write_loop [] m n p e = rw add-zero e
  write_pos-write_loop (x ∷ xs) m n p e =
      rw shift (write_pos-write_loop xs (poke m p x) (n + 1) ((p + 1) % c) (round_next c r n p e))
    where
      shift : n + suc (length xs) ≡ n + 1 + length xs
      shift = omega arith

  pos-read_loop_from :
      (m : Memory) (p i n : ℕ) → p ≡ (r + i) % c → (read_loop c m p n).pos ≡ (r + (i + n)) % c
  unfolding read_loop
  pos-read_loop_from m p i zero e = rw add-zero e
  pos-read_loop_from m p i (suc n) e =
      rw shift (pos-read_loop_from m ((p + 1) % c) (i + 1) n (round_next c r i p e))
    where
      shift : i + suc n ≡ i + 1 + n
      shift = omega arith

  pub pos-read_loop : (m : Memory) (n : ℕ) → r < c → (read_loop c m r n).pos ≡ (r + n) % c
  pos-read_loop m n h =
      pos-read_loop_from m r 0 n (rw (add-zero, mod-eq_of_lt h))
      ∙ ap (λ (t : ℕ). (r + t) % c) (zero-add n)

-- Skipping `k` bytes at the front leaves the end of the window where it was.
pub round_skip : (c r len k : ℕ) → k ≤ len → ((r + k) % c + (len - k)) % c ≡ (r + len) % c
round_skip c r len k h =
    let sum : r + k + (len - k) ≡ r + len = omega arith in
    mod-add-mod (r + k) c (len - k) ∙ ap (λ (t : ℕ). t % c) sum

-- A window may as well start where its offset leads.
window-rebase_from :
    (c r k : ℕ) (m : Memory) (i n : ℕ) → window c ((r + k) % c) m i n ≡ window c r m (k + i) n
window-rebase_from c r k m i zero = refl
window-rebase_from c r k m i (suc n) =
    ap₂ ◌∷◌ (ap m (mod-add-mod (r + k) c i ∙ ap (λ (t : ℕ). t % c) (add_assoc r k i)))
      (window-rebase_from c r k m (i + 1) n ∙ ap (λ j. window c r m j n) (omega arith))

pub window-rebase :
    (c r k : ℕ) (m : Memory) (n : ℕ) → window c ((r + k) % c) m 0 n ≡ window c r m k n
window-rebase c r k m n = window-rebase_from c r k m 0 n ∙ ap (λ j. window c r m j n) (add-zero k)
