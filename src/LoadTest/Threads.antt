-- ===== src/LoadTest/Threads.antt =====
-- What one thread of the second phase adds to each counter.
use tiny_cp.Base.{
  ℕ, ◌+◌, ◌≡◌, refl, arith, List, [], ◌∷◌, ◌++◌, ltb, ◌==◌, if◌then◌else◌, length, Bool-cases, inl,
  inr,
}
use tiny_cp.LoadTest.{Add, Iteration, marker, failed_add, server_adds, concurrent_client_adds}
use tiny_cp.LoadTest.Counting.{tally, to_total, to_failed, to_completed}

-- The results of `send`: a client sends in each iteration, a server where it was given something.
unfoldable pub client_sends : List Iteration → List ℕ
client_sends [] = []
client_sends (i ∷ more) = i.sent ∷ client_sends more

unfoldable pub server_sends : List Iteration → List ℕ
server_sends [] = []
server_sends (i ∷ more) =
    let rest = server_sends more in if ltb 0 i.got then i.sent ∷ rest else rest

-- The iterations in which something was read.
unfoldable pub answered : List Iteration → ℕ
answered [] = 0
answered (i ∷ more) = (if ltb 0 i.got then 1 else 0) + answered more

-- The results that are the marker.
unfoldable pub marked : List ℕ → ℕ
marked [] = 0
marked (n ∷ ns) = (if n == marker then 1 else 0) + marked ns

pub marked-append : (ms ns : List ℕ) → marked (ms ++ ns) ≡ marked ms + marked ns
unfolding marked
marked-append [] ns = omega arith
marked-append (m ∷ ms) ns = omega (arith, marked-append ms ns)

-- What one call of `send` adds.
tally-failed_add :
    (weight : Add → ℕ) (sent : ℕ) (rest : List Add)
    → tally weight (failed_add sent ++ rest)
      ≡ (if sent == marker then weight Add.failed else 0) + tally weight rest
unfolding tally failed_add
tally-failed_add weight sent rest = elim (Bool-cases (sent == marker)) [
  | inl same ↦ rw same refl
  | inr other ↦ rw other (omega arith)
]

-- A thread by itself.
pub record ServerTally (is : List Iteration) : Type 0 where
  pub total : tally to_total (server_adds is) ≡ length (server_sends is)
  pub failed : tally to_failed (server_adds is) ≡ marked (server_sends is)
  pub completed : tally to_completed (server_adds is) ≡ 0

pub server_adds-ServerTally : (is : List Iteration) → ServerTally is
unfolding server_adds server_sends marked tally
server_adds-ServerTally [] = record { total = refl; failed = refl; completed = refl }
server_adds-ServerTally (i ∷ more) =
    let t = server_adds-ServerTally more in
    let added = λ (w : Add → ℕ). tally-failed_add w i.sent (server_adds more) in
    elim (Bool-cases (ltb 0 i.got)) [
      | inl given ↦ record {
        total = rw given (ground (arith, added to_total, t.total));
        failed = rw given (ground (arith, added to_failed, t.failed));
        completed = rw given (ground (arith, added to_completed, t.completed));
      }
      | inr nothing ↦ record {
        total = rw nothing (t.total);
        failed = rw nothing (t.failed);
        completed = rw nothing (t.completed);
      }
    ]

pub record ClientTally (is : List Iteration) : Type 0 where
  pub total : tally to_total (concurrent_client_adds is) ≡ length (client_sends is)
  pub failed : tally to_failed (concurrent_client_adds is) ≡ marked (client_sends is)
  pub completed : tally to_completed (concurrent_client_adds is) ≡ answered is

pub concurrent_client_adds-ClientTally : (is : List Iteration) → ClientTally is
unfolding concurrent_client_adds client_sends answered marked tally
concurrent_client_adds-ClientTally [] = record { total = refl; failed = refl; completed = refl }
concurrent_client_adds-ClientTally (i ∷ more) =
    let t = concurrent_client_adds-ClientTally more in
    let rest = concurrent_client_adds more in
    let behind = if ltb 0 i.got then Add.completed ∷ rest else rest in
    let added = λ (w : Add → ℕ). tally-failed_add w i.sent behind in
    elim (Bool-cases (ltb 0 i.got)) [
      | inl given ↦ record {
        total = rw given (ground (arith, rw given at (added to_total), t.total));
        failed = rw given (ground (arith, rw given at (added to_failed), t.failed));
        completed = rw given (ground (arith, rw given at (added to_completed), t.completed));
      }
      | inr nothing ↦ record {
        total = rw nothing (ground (arith, rw nothing at (added to_total), t.total));
        failed = rw nothing (ground (arith, rw nothing at (added to_failed), t.failed));
        completed = rw nothing (ground (arith, rw nothing at (added to_completed), t.completed));
      }
    ]
