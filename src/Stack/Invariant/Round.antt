-- ===== src/Stack/Invariant/Round.antt =====
-- A round of the daemon keeps the blocks valid.
use tiny_cp.Base.{ℕ, ◌==◌, Bool-cases, inl, inr, List, [], ◌∷◌}
use tiny_cp.Tun.{Poll, tun_read}
use tiny_cp.Stack.State.{Host, TcpStack}
use tiny_cp.Stack.Handlers.{Outcome, returns, waits, stack_of}
use tiny_cp.Stack.Input.{read_incoming_packets}
use tiny_cp.Stack.Daemon.{after, drain_loopback, drain_tun, daemon_round}
use tiny_cp.Stack.Invariant.{IsValid, net-IsValid}
use tiny_cp.Stack.Invariant.Arriving.{process_incoming_packet-IsValid}
use tiny_cp.Stack.Invariant.Sending.{process_dirty_blocks-IsValid, check_retransmissions-IsValid}

returns-IsValid : (n : ℕ) {s : TcpStack} → IsValid s → IsValid (stack_of (returns n s))
unfolding stack_of
returns-IsValid n v = v

after-IsValid :
    (o : Outcome) (next : ℕ → TcpStack → Outcome)
    → IsValid (stack_of o)
    → ((n : ℕ) (s : TcpStack) → IsValid s → IsValid (stack_of (next n s)))
    → IsValid (stack_of (after o next))
unfolding stack_of
after-IsValid (returns n s) next v step = unfold stack_of in (step n s v)
after-IsValid (waits id payload s) next v step = v

module _ (host : Host) where
  pub read_incoming_packets-IsValid :
      (poll : Poll) {s : TcpStack}
      → IsValid s
      → IsValid (stack_of (read_incoming_packets host poll s))
  unfolding read_incoming_packets
  read_incoming_packets-IsValid poll v =
      let got = tun_read host.tun_device poll in
      elim (Bool-cases (got.count == 0)) [
        | inl idle ↦ rw idle (returns-IsValid 0 v)
        | inr some_bytes ↦ rw some_bytes (process_incoming_packet-IsValid host got.bytes v)
      ]

  drain_loopback-IsValid :
      (batch : List (List ℕ)) {s : TcpStack}
      → IsValid s
      → IsValid (stack_of (drain_loopback host batch s))
  unfolding drain_loopback
  drain_loopback-IsValid [] v = returns-IsValid 0 v
  drain_loopback-IsValid (packet ∷ batch) v =
      after-IsValid _ _ (process_incoming_packet-IsValid host packet v)
        (λ n s w. drain_loopback-IsValid batch (process_dirty_blocks-IsValid host s w))

  drain_tun-IsValid :
      (polls : List Poll) {s : TcpStack} → IsValid s → IsValid (stack_of (drain_tun host polls s))
  unfolding drain_tun
  drain_tun-IsValid [] v = returns-IsValid 0 v
  drain_tun-IsValid (poll ∷ polls) v =
      after-IsValid _ _ (read_incoming_packets-IsValid poll v) (λ n s w.
        elim (Bool-cases (n == 0)) [
          | inl idle ↦ rw idle (returns-IsValid 0 w)
          | inr more ↦ rw more (drain_tun-IsValid polls (process_dirty_blocks-IsValid host s w))
        ])

  -- A round of the daemon keeps the stack valid, whatever the packets of the queue and of the
  -- interface are, also where its thread comes to wait.
  pub daemon_round-IsValid :
      (polls : List Poll) {s : TcpStack}
      → IsValid s
      → IsValid (stack_of (daemon_round host polls s))
  unfolding daemon_round
  daemon_round-IsValid polls {s} v =
      after-IsValid _ _
        (drain_loopback-IsValid _ (net-IsValid (process_dirty_blocks-IsValid host s v) _))
        (λ n s' w.
          after-IsValid _ _ (drain_tun-IsValid polls w)
            (λ m s'' u. returns-IsValid 0 (check_retransmissions-IsValid host u)))
