-- ===== src/Stack/Handlers/Teardown.antt =====
-- The end of a connection: the tables when the last acknowledgement arrives.
use tiny_cp.Base.{ℕ, ◌≡◌, ◌≢◌, true, none, some, arith}
use tiny_cp.Base.Map.{nat_eq, lookup}
use tiny_cp.Stack.Lookups.{get-put_tcb, find_connections_tcb-put_tcb}
use tiny_cp.Tcb.{Tcb, TcpState, set_state}
use tiny_cp.Tcp.View
use tiny_cp.Tcp.View.{TcpPacketView}
use tiny_cp.Tables.Connections
use tiny_cp.Tables.Connections.{connection_key_eq, key}
use tiny_cp.Stack.State.{TcpStack, get_tcb, put_tcb, find_connections_tcb, destroy_connection}
use tiny_cp.Stack.Handlers.{last_ack_segment, destroy_own}

-- Where no connection has the two endpoints the other way round, nothing is destroyed.
destroy_own_misses :
    (tcb : Tcb) (s : TcpStack)
    → lookup (key tcb.src_address tcb.dst_address) s.connections ≡ none
    → destroy_own tcb s ≡ s
unfolding destroy_own destroy_connection Connections.destroy_connection
destroy_own_misses tcb s h = ground (arith, h)

-- The acknowledgement of its FIN closes a block in `LAST_ACK` or `CLOSING`, but the connection
-- stays in the tables: its remote and local endpoint still lead to the block, which is now in the
-- state `CLOSED`, unless another connection has the same two endpoints the other way round.
pub last_ack_segment_leaks :
    (id : ℕ) (packet : TcpPacketView) (s : TcpStack) (tcb : Tcb)
    → id ≢ 0
    → find_connections_tcb tcb.dst_address tcb.src_address s ≡ id
    → lookup (key tcb.src_address tcb.dst_address) s.connections ≡ none
    → View.ack packet ≡ true
    → View.ack_num_ntoh packet ≡ tcb.snd.nxt
    → let after = (last_ack_segment id packet s tcb).stack in
      (find_connections_tcb tcb.dst_address tcb.src_address after ≡ id)
      × (get_tcb id after ≡ some (set_state TcpState.closed tcb))
unfolding last_ack_segment put_tcb
last_ack_segment_leaks id packet s tcb nonzero found other ack num =
    let closed = set_state TcpState.closed tcb in
    ground (
      arith,
      destroy_own_misses tcb (put_tcb id closed s) other,
      find_connections_tcb-put_tcb tcb.dst_address tcb.src_address id id closed s nonzero found,
      get-put_tcb id closed s nonzero,
      ack,
      num,
    )
