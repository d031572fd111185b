-- ===== src/Workload/Quiet.antt =====
-- A stack all of whose blocks are closed and have received nothing: the daemon changes only the
-- times at which they were written.
use tiny_cp.Base.{
  ℕ, ◌≡◌, refl, arith, true, false, List, [], ◌∷◌, some, Option-cases, Bool-cases, ◌==◌, inl, inr,
}
use tiny_cp.Base.Map.{Map, nat_eq, AllValues, AllValues-insert, AllValues-lookup}
use tiny_cp.Tcb.{Tcb, TcpState}
use tiny_cp.Tables.Sockets
use tiny_cp.Stack.State.{Host, Net, TcpStack, get_tcb, put_tcb}
use tiny_cp.Stack.Send.{
  process_tcb, process_block, process_ids, process_dirty_blocks, may_send, is_due, retransmit,
  retransmit_all, check_retransmissions,
}
use tiny_cp.Stack.Handlers.{Outcome, returns, waits}
use tiny_cp.Stack.Lookups.{contains-put_other}
use tiny_cp.Stack.Daemon.{daemon_round, drain_loopback, drain_tun}

pub record Silent (tcb : Tcb) : Type 0 where
  pub closed : tcb.current_state ≡ TcpState.closed
  pub empty : tcb.recv_buffer.curr_len ≡ 0
  pub asleep : tcb.recv_buffer.is_forcefully_woken_up ≡ false

-- The stack has sent nothing, and the socket `b` lives.
pub record IsQuiet (b : ℕ) (s : TcpStack) : Type 0 where
  pub blocks : AllValues Silent s.sockets.sockets
  pub loopback : s.net.loopback_packet_queue ≡ []
  pub unsent : s.net.tun_out ≡ []
  pub alive : Sockets.contains b s.sockets ≡ true

pub put_tcb-IsQuiet :
    (b id : ℕ) (tcb : Tcb) (s : TcpStack) → Silent tcb → IsQuiet b s → IsQuiet b (put_tcb id tcb s)
unfolding put_tcb Sockets.store
put_tcb-IsQuiet b id tcb s silent q = record {
  blocks = AllValues-insert Silent id tcb s.sockets.sockets silent q.blocks;
  loopback = q.loopback;
  unsent = q.unsent;
  alive = contains-put_other b id tcb s q.alive;
}

pub get_tcb-Silent :
    (b id : ℕ) (s : TcpStack) {tcb : Tcb} → IsQuiet b s → get_tcb id s ≡ some tcb → Silent tcb
unfolding get_tcb Sockets.find_socket
get_tcb-Silent b id s q found = elim (Bool-cases (id == 0)) [
  | inl zero_id ↦ ground (arith, zero_id, found)
  | inr some_id ↦ AllValues-lookup Silent id s.sockets.sockets q.blocks (rw some_id at found)
]

-- A closed block sends nothing.
process_tcb-closed :
    (host : Host) (id : ℕ) (tcb : Tcb) (s : TcpStack)
    → Silent tcb
    → process_tcb host id tcb s ≡ record { tcb = record tcb { last_written = s.clock }; stack = s }
unfolding process_tcb may_send
process_tcb-closed host id tcb s silent = rw (silent.closed) refl

pub process_block-IsQuiet :
    (host : Host) (b id : ℕ) (s : TcpStack) → IsQuiet b s → IsQuiet b (process_block host id s)
unfolding process_block
process_block-IsQuiet host b id s q = elim (Option-cases (get_tcb id s)) [
  | inl absent ↦ rw (process_block, absent) q
  | inr (tcb, found) ↦
      let silent = get_tcb-Silent b id s q found in
      rw (process_block, found, process_tcb-closed host id tcb s silent)
        (put_tcb-IsQuiet b id (record tcb { last_written = s.clock }) s
          (record { closed = silent.closed; empty = silent.empty; asleep = silent.asleep }) q)
]

process_ids-IsQuiet :
    (host : Host) (b : ℕ) (ids : List ℕ) (s : TcpStack)
    → IsQuiet b s
    → IsQuiet b (process_ids host ids s)
unfolding process_ids
process_ids-IsQuiet host b [] s q = q
process_ids-IsQuiet host b (id ∷ ids) s q =
    process_ids-IsQuiet host b ids (process_block host id s) (process_block-IsQuiet host b id s q)

process_dirty_blocks-IsQuiet :
    (host : Host) (b : ℕ) (s : TcpStack) → IsQuiet b s → IsQuiet b (process_dirty_blocks host s)
unfolding process_dirty_blocks
process_dirty_blocks-IsQuiet host b s q =
    process_ids-IsQuiet host b s.dirty_socket_ids (record s { dirty_socket_ids = [] })
      (record { blocks = q.blocks; loopback = q.loopback; unsent = q.unsent; alive = q.alive })

retransmit_all-Silent :
    (host : Host) (now : ℕ) (m : Map ℕ Tcb) (net : Net)
    → AllValues Silent m
    → retransmit_all host now m net ≡ record { sockets = m; net = net }
unfolding retransmit_all retransmit is_due
retransmit_all-Silent host now [] net all = refl
retransmit_all-Silent host now ((id, tcb) ∷ m) net (silent, all) =
    rw (silent.closed, retransmit_all-Silent host now m net all) refl

check_retransmissions-IsQuiet :
    (host : Host) (b : ℕ) (s : TcpStack) → IsQuiet b s → IsQuiet b (check_retransmissions host s)
unfolding check_retransmissions
check_retransmissions-IsQuiet host b s q =
    rw (retransmit_all-Silent host s.clock s.sockets.sockets s.net q.blocks) q

-- The stack as a round of the daemon leaves it.
unfoldable pub stack_of : Outcome → TcpStack
stack_of (returns n s) = s
stack_of (waits id payload s) = s

-- A round without input.
pub daemon_round-IsQuiet :
    (host : Host) (b : ℕ) (s : TcpStack)
    → IsQuiet b s
    → IsQuiet b (stack_of (daemon_round host [] s))
unfolding daemon_round drain_loopback drain_tun stack_of
daemon_round-IsQuiet host b s q =
    let flushed = process_dirty_blocks-IsQuiet host b s q in
    let done = process_dirty_blocks host s in
    let emptied = record done { net = record (done.net) { loopback_packet_queue = [] } } in
    rw (flushed.loopback) (
      check_retransmissions-IsQuiet host b emptied (record {
        blocks = flushed.blocks;
        loopback = refl;
        unsent = flushed.unsent;
        alive = flushed.alive;
      }))
