-- ===== src/System/Rounds.antt =====
-- A round of the daemon is made of steps.
use tiny_cp.Base.{ℕ, ◌==◌, Bool-cases, inl, inr, List, [], ◌∷◌}
use tiny_cp.Tun.{Poll}
use tiny_cp.Stack.State.{Host, TcpStack}
use tiny_cp.Stack.Send.{process_dirty_blocks}
use tiny_cp.Stack.Handlers.{Outcome, returns, waits}
use tiny_cp.Stack.Input.{process_incoming_packet, read_incoming_packets}
use tiny_cp.Stack.Daemon.{after, drain_loopback, drain_tun, daemon_round}
use tiny_cp.System.{
  counts, flushes, takes, arrives, polls, sweeps, Run, here, step, join, take_batch,
}

module _ (host : Host) where
  -- Where a part of the round waits, what comes behind it is no step.
  run-after :
      (a o : Outcome) (next : ℕ → TcpStack → Outcome)
      → Run host a o
      → ((n : ℕ) (s : TcpStack) → Run host (returns n s) (next n s))
      → Run host a (after o next)
  run-after a (returns n s) next run more = join run (more n s)
  run-after a (waits id payload s) next run more = run

  run-drain_loopback :
      (batch : List (List ℕ)) (n : ℕ) (s : TcpStack)
      → Run host (returns n s) (drain_loopback host batch s)
  unfolding drain_loopback
  run-drain_loopback [] n s = step (counts n s) (here _)
  run-drain_loopback (packet ∷ batch) n s =
      run-after (returns n s) (process_incoming_packet host packet s) _
        (step (arrives packet n s) (here _))
        (λ m t. step (flushes m t) (run-drain_loopback batch 0 (process_dirty_blocks host t)))

  run-drain_tun :
      (found : List Poll) (n : ℕ) (s : TcpStack) → Run host (returns n s) (drain_tun host found s)
  unfolding drain_tun
  run-drain_tun [] n s = step (counts n s) (here _)
  run-drain_tun (poll ∷ found) n s =
      run-after (returns n s) (read_incoming_packets host poll s) _ (step (polls poll n s) (here _))
        (λ m t. elim (Bool-cases (m == 0)) [
          | inl idle ↦ rw idle (step (counts m t) (here _))
          | inr more ↦
              rw more (step (flushes m t) (run-drain_tun found 0 (process_dirty_blocks host t)))
        ])

  -- From any stack a round of the daemon is a run of steps, up to where the thread waits.
  pub daemon_round-Run :
      (found : List Poll) (n : ℕ) (s : TcpStack)
      → Run host (returns n s) (daemon_round host found s)
  unfolding daemon_round take_batch
  daemon_round-Run found n s =
      let flushed = process_dirty_blocks host s in
      step (flushes n s) (
        step (takes 0 flushed) (
          run-after (returns 0 (take_batch flushed))
            (drain_loopback host flushed.net.loopback_packet_queue (take_batch flushed)) _
            (run-drain_loopback flushed.net.loopback_packet_queue 0 (take_batch flushed))
            (λ m t.
              run-after (returns m t) (drain_tun host found t) _ (run-drain_tun found m t)
                (λ k u. step (sweeps k u) (here _)))))
