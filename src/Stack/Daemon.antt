-- ===== src/Stack/Daemon.antt =====
-- One round of `lifecycle_`. Its inputs are the results of the `poll`s of that round, in order;
-- where they are used up the interface has nothing.
use tiny_cp.Base.{ℕ, List, [], ◌∷◌, ◌==◌, if◌then◌else◌}
use tiny_cp.Tun.{Poll}
use tiny_cp.Stack.State.{Host, TcpStack}
use tiny_cp.Stack.Send.{process_dirty_blocks, check_retransmissions}
use tiny_cp.Stack.Handlers.{Outcome, returns, waits}
use tiny_cp.Stack.Input.{process_incoming_packet, read_incoming_packets}

-- What is done once a handler has returned; a thread that waits does nothing more.
abbrev pub after : Outcome → (ℕ → TcpStack → Outcome) → Outcome
after (returns n s) next = next n s
after (waits id payload s) next = waits id payload s

-- The packets of the batch, each followed by the blocks that it has marked.
unfoldable pub drain_loopback : Host → List (List ℕ) → TcpStack → Outcome
drain_loopback host [] s = returns 0 s
drain_loopback host (packet ∷ batch) s =
    after (process_incoming_packet host packet s)
      (λ n s'. drain_loopback host batch (process_dirty_blocks host s'))

-- `while (read_incoming_packets_() > 0)`: a packet whose handler returns 0 ends the loop.
unfoldable pub drain_tun : Host → List Poll → TcpStack → Outcome
drain_tun host [] s = returns 0 s
drain_tun host (poll ∷ polls) s = after (read_incoming_packets host poll s) (λ n s'.
    let more = drain_tun host polls (process_dirty_blocks host s') in
    if n == 0 then returns 0 s' else more)

unfoldable pub daemon_round : Host → List Poll → TcpStack → Outcome
daemon_round host polls s =
    let flushed = process_dirty_blocks host s in
    let batch = flushed.net.loopback_packet_queue in
    let emptied = record flushed { net = record (flushed.net) { loopback_packet_queue = [] } } in
    after (drain_loopback host batch emptied) (λ n s'.
      after (drain_tun host polls s') (λ n s''. returns 0 (check_retransmissions host s'')))
