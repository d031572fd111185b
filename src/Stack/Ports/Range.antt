-- ===== src/Stack/Ports/Range.antt =====
-- Which port `allocate_ephemeral_port` gives.
use tiny_cp.Base.{
  ◌||◌, ℕ, zero, suc, ◌+◌, ◌≤◌, ◌<◌, ◌≡◌, ◌⊎◌, inl, inr, Bool, true, false, Bool-cases, ltb, leb,
  arith,
}
use tiny_cp.Tables.Listeners
use tiny_cp.Stack.State.{TcpStack}
use tiny_cp.Stack.Ports.{next_candidate, try_ports, allocate_ephemeral_port}

-- A port of the dynamic range that the table does not hold.
pub IsFree : (ℕ → Bool) → ℕ → Type 0
IsFree is_bound port = (49152 ≤ port) × (port < 65535) × (is_bound port ≡ false)

-- The ports that `n` rounds try, from the counter `next`.
Covered : ℕ → ℕ → ℕ → Type 0
Covered n next p = ((next ≤ p) × (p < next + n)) ⊎ ((p < next) × (p + 16384 < next + n))

AllBound : (ℕ → Bool) → (ℕ → Type 0) → Type 0
AllBound is_bound Q = (p : ℕ) → 49152 ≤ p → p < 65535 → Q p → is_bound p ≡ true

module _ (is_bound : ℕ → Bool) where
  search :
      (n next : ℕ)
      → 49152 ≤ next
      → next ≤ 65535
      → IsFree is_bound (try_ports n is_bound next).port ⊎ AllBound is_bound (Covered n next)
  unfolding IsFree Covered AllBound try_ports next_candidate
  search zero next low high = inr (λ p lo hi q. ground arith)
  search (suc n) next low high = elim (Bool-cases (leb 65535 next)) [
    | inl last ↦ elim (Bool-cases (is_bound 49152)) [
      | inl bound ↦ elim (search n 49152 (omega arith) (omega arith)) [
        | inl free ↦ inl (ground arith)
        | inr rest ↦ inr (λ p lo hi q. ground (arith, rest p))
      ]
      | inr free ↦ inl (ground arith)
    ]
    | inr more ↦ elim (Bool-cases (is_bound next)) [
      | inl bound ↦ elim (search n (next + 1) (omega arith) (ground arith)) [
        | inl free ↦ inl (ground arith)
        | inr rest ↦ inr (λ p lo hi q. ground (arith, rest p))
      ]
      | inr free ↦ inl (ground arith)
    ]
  ]

  -- The counter is out of range only in a first round, which tries 49152.
  reset_round :
      (n next : ℕ)
      → (leb 65535 next || ltb next 49152) ≡ true
      → IsFree is_bound (try_ports (suc n) is_bound next).port
        ⊎ (try_ports (suc n) is_bound next ≡ try_ports n is_bound 49152)
  unfolding IsFree try_ports next_candidate
  reset_round n next reset = elim (Bool-cases (is_bound 49152)) [
    | inl bound ↦ inr (ground arith)
    | inr free ↦ inl (ground arith)
  ]

  search_all :
      (next : ℕ)
      → IsFree is_bound (try_ports 16384 is_bound next).port
        ⊎ ((p : ℕ) → 49152 ≤ p → p < 65535 → is_bound p ≡ true)
  unfolding Covered AllBound
  search_all next = elim (Bool-cases (leb 65535 next || ltb next 49152)) [
    | inl reset ↦ elim (reset_round 16383 next reset) [
      | inl free ↦ inl free
      | inr same ↦ elim (search 16383 49152 (omega arith) (omega arith)) [
        | inl free ↦ inl (rw same free)
        | inr rest ↦ inr (λ p lo hi. rest p lo hi (inl (lo, omega arith)))
      ]
    ]
    | inr inside ↦ elim (search 16384 next (ground arith) (ground arith)) [
      | inl free ↦ inl free
      | inr rest ↦ inr (λ p lo hi. rest p lo hi (ground arith))
    ]
  ]

-- The port is one of 49152 to 65534 that no live socket is bound to, unless every one of these is
-- taken: the rounds of the loop suffice to try them all, wherever the counter stands.
pub allocate_ephemeral_port-IsFree :
    (s : TcpStack)
    → IsFree
        (λ port. Listeners.contains port s.listeners s.sockets)
        (allocate_ephemeral_port s).port
      ⊎ ((p : ℕ) → 49152 ≤ p → p < 65535 → Listeners.contains p s.listeners s.sockets ≡ true)
unfolding allocate_ephemeral_port
allocate_ephemeral_port-IsFree s =
    search_all (λ port. Listeners.contains port s.listeners s.sockets) s.next_port
