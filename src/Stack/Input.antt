-- ===== src/Stack/Input.antt =====
-- `process_incoming_packet_` and `read_incoming_packets_`.
pub mod Transitions
use tiny_cp.Base.{ℕ, ◌&&◌, ◌||◌, not, none, some, List, ◌==◌, if◌then◌else◌}
use tiny_cp.Address.{Ipv4Address}
use tiny_cp.Tcb.{TcpState}
use tiny_cp.Ipv4.View as IpView
use tiny_cp.Tcp.View
use tiny_cp.Tcp.View.{TcpPacketView}
use tiny_cp.Tables.Listeners
use tiny_cp.Tun.{Poll, tun_read}
use tiny_cp.Stack.State.{Host, TcpStack, get_tcb, find_connections_tcb}
use tiny_cp.Stack.Handlers.{
  Outcome, returns, done, handle_closed_reset_response, handle_passive_open_syn,
  handle_syn_sent_state, handle_syn_received_state, handle_established_state,
  handle_fin_wait_1_state, handle_fin_wait_2_state, handle_closing_state, handle_last_ack_state,
}

-- The `switch` over the state of the socket that the segment is for.
unfoldable pub dispatch :
    Host → ℕ → Ipv4Address → Ipv4Address → TcpPacketView → TcpState → TcpStack → Outcome
dispatch host id src dst packet TcpState.closed s =
    done (handle_closed_reset_response host src dst packet s)
dispatch host id src dst packet TcpState.listen s =
    done (handle_passive_open_syn host src dst packet s)
dispatch host id src dst packet TcpState.syn_sent s = done (handle_syn_sent_state host id packet s)
dispatch host id src dst packet TcpState.syn_received s =
    done (handle_syn_received_state host id src packet s)
dispatch host id src dst packet TcpState.established s = handle_established_state host id packet s
dispatch host id src dst packet TcpState.fin_wait_1 s =
    done (handle_fin_wait_1_state host id packet s)
dispatch host id src dst packet TcpState.fin_wait_2 s =
    done (handle_fin_wait_2_state host id packet s)
dispatch host id src dst packet TcpState.close_wait s = returns 0 s
dispatch host id src dst packet TcpState.closing s = done (handle_closing_state id packet s)
dispatch host id src dst packet TcpState.last_ack s = done (handle_last_ack_state id packet s)
dispatch host id src dst packet TcpState.time_wait s = returns 0 s

-- A segment for which no connection is registered.
unfoldable pub unrouted : Host → Ipv4Address → Ipv4Address → TcpPacketView → TcpStack → Outcome
unrouted host src dst packet s =
    if Listeners.contains dst.port s.listeners s.sockets && View.syn packet && not (View.ack packet)
    then done (handle_passive_open_syn host src dst packet s)
    else done (handle_closed_reset_response host src dst packet s)

-- The part behind the two checks of validity.
unfoldable pub route : Host → Ipv4Address → Ipv4Address → TcpPacketView → TcpStack → Outcome
route host src dst packet s =
    let id = find_connections_tcb src dst s in
    let found : Outcome = elim (get_tcb id s) [
      | none ↦ done (handle_closed_reset_response host src dst packet s)
      | some tcb ↦ dispatch host id src dst packet tcb.current_state s
    ] in
    if id == 0 then unrouted host src dst packet s else found

unfoldable pub process_incoming_packet : Host → List ℕ → TcpStack → Outcome
process_incoming_packet host buffer s =
    let packet = IpView.payload buffer in
    let src : Ipv4Address = record {
      address = IpView.source_address_ntoh buffer;
      port = View.source_port_ntoh packet;
    } in
    let dst : Ipv4Address = record {
      address = IpView.destination_address_ntoh buffer;
      port = View.dest_port_ntoh packet;
    } in
    if not (IpView.valid buffer) || not (View.valid packet)
    then returns 0 s
    else route host src dst packet s

-- One read of the interface. Where `read` failed the count is far beyond the buffer's size, and
-- what the code then reads is not defined; the model has no bytes there, and returns 0.
unfoldable pub read_incoming_packets : Host → Poll → TcpStack → Outcome
read_incoming_packets host poll s =
    let got = tun_read host.tun_device poll in
    if got.count == 0 then returns 0 s else process_incoming_packet host got.bytes s
