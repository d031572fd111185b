-- ===== src/Stack/Close.antt =====
-- `close_connection` and `register_connection`.
pub mod Fin
use tiny_cp.Base.{ℕ, Bool, Option, none, some, ◌==◌, if◌then◌else◌, add32}
use tiny_cp.Address.{Ipv4Address}
use tiny_cp.Tcb.{Tcb, TcpState, set_state, close}
use tiny_cp.Tun.{get_usable_ip_address}
use tiny_cp.Tables.Connections
use tiny_cp.Stack.State.{Host, TcpStack, Sized, WithId, get_tcb, put_tcb, destroy_connection}
use tiny_cp.Stack.Output.{reply, fin_ack}
use tiny_cp.Stack.Send.{process_tcb}
use tiny_cp.Stack.Ports.{allocate_ephemeral_port}

-- Flushes unsent data, wakes the buffers, and sends the FIN; `process_block_` and `close()` work
-- on the same block, which is stored once they are done.
unfoldable pub send_fin : Host → ℕ → TcpState → TcpStack → Tcb → Sized
send_fin host id state s tcb =
    let flushed = process_tcb host id tcb s in
    let closing = set_state state (close flushed.tcb) in
    let sent = reply host closing fin_ack closing.snd.nxt closing.rcv.nxt flushed.stack in
    let counted = record closing { snd = record (closing.snd) { nxt = add32 closing.snd.nxt 1 } } in
    record { size = sent.size; stack = put_tcb id counted sent.stack }

-- The other states: no segment is sent.
unfoldable pub drop_connection : ℕ → TcpStack → Tcb → Sized
drop_connection id s tcb = record {
  size = 0;
  stack = destroy_connection tcb.src_address tcb.dst_address (put_tcb id (close tcb) s);
}

unfoldable pub close_in : Host → ℕ → TcpState → TcpStack → Tcb → Sized
close_in host id TcpState.established s tcb = send_fin host id TcpState.fin_wait_1 s tcb
close_in host id TcpState.close_wait s tcb = send_fin host id TcpState.last_ack s tcb
close_in host id _ s tcb = drop_connection id s tcb

unfoldable pub close_connection : Host → ℕ → TcpStack → Sized
close_connection host id s = elim (get_tcb id s) [
  | none ↦ record { size = 0; stack = s }
  | some tcb ↦ close_in host id tcb.current_state s tcb
]

-- `local_addr` with the address and the port filled in where they are 0.
unfoldable pub complete_address :
    Host → Ipv4Address → TcpStack → record { addr : Ipv4Address; stack : TcpStack }
complete_address host addr s =
    let address =
      if addr.address == 0 then (get_usable_ip_address host.os).address else addr.address in
    let port = allocate_ephemeral_port s in
    if addr.port == 0
    then record { addr = record { address = address; port = port.port }; stack = port.stack }
    else record { addr = record { address = address; port = addr.port }; stack = s }

unfoldable pub register_connection : Host → Ipv4Address → Ipv4Address → ℕ → TcpStack → WithId
register_connection host local_addr remote_addr socket_id s =
    let own = complete_address host local_addr s in
    let r =
      Connections.register_connection own.addr remote_addr socket_id own.stack.connections
        own.stack.sockets in
    record {
      id = r.id;
      stack = record (own.stack) { connections = r.connections; sockets = r.sockets };
    }
