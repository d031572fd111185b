-- ===== src/LoadTest/Report.antt =====
-- What the second phase of the load test reports of its calls.
use mathlib.Core.List.{Permᴰ}
use tiny_cp.Base.{
  ℕ, ◌+◌, ◌^◌, ◌<◌, ◌≡◌, refl, arith, List, [], ◌∷◌, ◌++◌, u64, ◌==◌, if◌then◌else◌, length,
  length-append,
}
use tiny_cp.Text.{codes}
use tiny_cp.LoadTest.{
  Add, Iteration, zero_counters, count, status, server_adds, concurrent_client_adds,
}
use tiny_cp.LoadTest.Counting.{
  count-Counts, tally, tally-append, tally-perm, to_total, to_failed, to_completed,
}
use tiny_cp.LoadTest.Threads.{
  client_sends, server_sends, answered, marked, marked-append, server_adds-ServerTally,
  concurrent_client_adds-ClientTally,
}

-- The two threads of a stream.
pub record Stream : Type 0 where
  pub client : List Iteration
  pub server : List Iteration

-- The additions of all threads, and the results of all calls of `send`.
unfoldable pub all_adds : List Stream → List Add
all_adds [] = []
all_adds (s ∷ ss) = concurrent_client_adds s.client ++ (server_adds s.server ++ all_adds ss)

unfoldable pub all_sends : List Stream → List ℕ
all_sends [] = []
all_sends (s ∷ ss) = client_sends s.client ++ (server_sends s.server ++ all_sends ss)

unfoldable pub all_answered : List Stream → ℕ
all_answered [] = 0
all_answered (s ∷ ss) = answered s.client + all_answered ss

record Tallied (ss : List Stream) : Type 0 where
  total : tally to_total (all_adds ss) ≡ length (all_sends ss)
  failed : tally to_failed (all_adds ss) ≡ marked (all_sends ss)
  completed : tally to_completed (all_adds ss) ≡ all_answered ss

all_adds-Tallied : (ss : List Stream) → Tallied ss
unfolding all_adds all_sends all_answered marked tally
all_adds-Tallied [] = record { total = refl; failed = refl; completed = refl }
all_adds-Tallied (s ∷ ss) =
    let t = all_adds-Tallied ss in
    let c = concurrent_client_adds-ClientTally s.client in
    let v = server_adds-ServerTally s.server in
    let split = λ (w : Add → ℕ).
      tally-append w (concurrent_client_adds s.client) (server_adds s.server ++ all_adds ss) in
    let split' = λ (w : Add → ℕ). tally-append w (server_adds s.server) (all_adds ss) in
    let sizes = length-append (client_sends s.client) (server_sends s.server ++ all_sends ss) in
    let sizes' = length-append (server_sends s.server) (all_sends ss) in
    let marks = marked-append (client_sends s.client) (server_sends s.server ++ all_sends ss) in
    let marks' = marked-append (server_sends s.server) (all_sends ss) in
    record {
      total =
          omega (arith, split to_total, split' to_total, sizes, sizes', t.total, c.total, v.total);
      failed =
          omega
            (arith, split to_failed, split' to_failed, marks, marks', t.failed, c.failed, v.failed);
      completed =
          omega
            (arith, split to_completed, split' to_completed, t.completed, c.completed, v.completed);
    }

-- In whatever order the threads of the streams add to the counters, the phase reports as its sends
-- the calls that it made, as completed the iterations in which a client read something, and
-- success just where no call of `send` returned 4544, each up to the width of the counters.
pub count-all_adds :
    (ss : List Stream) (schedule : List Add)
    → Permᴰ schedule (all_adds ss)
    → length (all_sends ss) < 2 ^ 64
    → marked (all_sends ss) < 2 ^ 64
    → ((count schedule zero_counters).total_sends ≡ length (all_sends ss))
      × ((count schedule zero_counters).completed_transactions ≡ u64 (all_answered ss))
      × (status (count schedule zero_counters)
          ≡ (if marked (all_sends ss) == 0 then codes "SUCCESS" else codes "DEGRADED"))
unfolding status
count-all_adds ss schedule p sends_in marks_in =
    let fresh =
      count-Counts schedule zero_counters
        (record { total_in = omega arith; failed_in = omega arith; completed_in = omega arith }) in
    let t = all_adds-Tallied ss in
    let failed : (count schedule zero_counters).failed_sends ≡ marked (all_sends ss) =
      omega (arith, fresh.failed, tally-perm to_failed p, t.failed) in
    (
      omega (arith, fresh.total, tally-perm to_total p, t.total),
      omega (arith, fresh.completed, tally-perm to_completed p, t.completed),
      rw failed refl,
    )
