-- ===== src/System/Safety.antt =====
-- What holds of every stack that can come about.
use tiny_cp.Base.{ℕ, ◌≡◌, some}
use tiny_cp.Tcb.{Tcb}
use tiny_cp.Tcb.Invariant as Block
use tiny_cp.Stack.State.{Host, TcpStack, get_tcb}
use tiny_cp.Stack.Handlers.{Outcome, returns, waits, stack_of}
use tiny_cp.Stack.Invariant.{IsValid, new_stack-IsValid, net-IsValid, get_tcb-IsValid}
use tiny_cp.Stack.Invariant.Sending.{process_dirty_blocks-IsValid, check_retransmissions-IsValid}
use tiny_cp.Stack.Invariant.Receiving.{resume-IsValid}
use tiny_cp.Stack.Invariant.Arriving.{process_incoming_packet-IsValid}
use tiny_cp.Stack.Invariant.Round.{read_incoming_packets-IsValid}
use tiny_cp.Socket.Invariant.{
  bind-IsValid, listen-IsValid, start_connect-IsValid, accept-IsValid, send-IsValid, recv-IsValid,
  close-IsValid,
}
use tiny_cp.System.{
  Call, binds, listens, connects, accepts, sends, recvs, closes, over, Step, counts, flushes, takes,
  arrives, polls, sweeps, resumes, calls, ticks, Run, here, step, Reachable, take_batch,
}

call-IsValid : {host : Host} {s s' : TcpStack} → Call host s s' → IsValid s → IsValid s'
call-IsValid {host} (binds addr a s) v = bind-IsValid host v a
call-IsValid (listens k s) v = listen-IsValid v k
call-IsValid {host} (connects k addr a s) v = start_connect-IsValid host v k a
call-IsValid (accepts k s) v = accept-IsValid v k
call-IsValid (sends k xs s) v = send-IsValid v k xs
call-IsValid (recvs k n s) v = recv-IsValid v k n
call-IsValid {host} (closes k s) v = close-IsValid host v k

over-IsValid : (o : Outcome) {s : TcpStack} → IsValid s → IsValid (stack_of (over s o))
unfolding over stack_of
over-IsValid (returns n s) v = v
over-IsValid (waits id payload s) v = v

step-IsValid :
    {host : Host} {a b : Outcome} → Step host a b → IsValid (stack_of a) → IsValid (stack_of b)
unfolding stack_of take_batch
step-IsValid (counts n s) v = v
step-IsValid {host} (flushes n s) v = process_dirty_blocks-IsValid host s v
step-IsValid (takes n s) v = net-IsValid v _
step-IsValid {host} (arrives packet n s) v = process_incoming_packet-IsValid host packet v
step-IsValid {host} (polls poll n s) v = read_incoming_packets-IsValid host poll v
step-IsValid {host} (sweeps n s) v = check_retransmissions-IsValid host v
step-IsValid {host} (resumes id payload s) v = resume-IsValid host id v payload
step-IsValid (calls o call) v = over-IsValid o (call-IsValid call v)
step-IsValid (ticks o now) v =
    over-IsValid o (record { blocks = v.blocks; next_port_in = v.next_port_in })

run-IsValid :
    {host : Host} {a b : Outcome} → Run host a b → IsValid (stack_of a) → IsValid (stack_of b)
run-IsValid (here o) v = v
run-IsValid (step first run) v = run-IsValid run (step-IsValid first v)

-- Every control block that can be looked up in a reachable stack is valid: its numbers and its
-- addresses fit their types, both its positions lie in their ring, and no ring is overfull. This
-- holds for any packets, in any order with the calls of the application.
pub reachable-IsValid :
    (host : Host) (o : Outcome) (id : ℕ) {tcb : Tcb}
    → Reachable host o
    → get_tcb id (stack_of o) ≡ some tcb
    → Block.IsValid tcb
unfolding Reachable stack_of
reachable-IsValid host o id run found = get_tcb-IsValid (run-IsValid run new_stack-IsValid) id found
