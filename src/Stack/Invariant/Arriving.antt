-- ===== src/Stack/Invariant/Arriving.antt =====
-- Whatever bytes arrive, the blocks stay valid.
use tiny_cp.Base.{ℕ, not, ◌&&◌, ◌||◌, ◌==◌, Option-cases, inl, inr, Bool-cases, List}
use tiny_cp.Wire.{be16-lt, be32-lt}
use tiny_cp.Address.{Ipv4Address, IsEndpoint}
use tiny_cp.Tcb.{TcpState}
use tiny_cp.Tcp.View
use tiny_cp.Tcp.View.{TcpPacketView}
use tiny_cp.Tables.Listeners
use tiny_cp.Stack.State.{Host, TcpStack, get_tcb}
use tiny_cp.Stack.Invariant.{IsValid}
use tiny_cp.Ipv4.View as IpView
use tiny_cp.Stack.Invariant.Opening.{
  handle_closed_reset_response-IsValid, handle_passive_open_syn-IsValid,
  handle_syn_sent_state-IsValid, handle_syn_received_state-IsValid,
}
use tiny_cp.Stack.Invariant.Receiving.{handle_established_state-IsValid}
use tiny_cp.Stack.Invariant.Finishing.{
  handle_fin_wait_1_state-IsValid, handle_fin_wait_2_state-IsValid, handle_closing_state-IsValid,
  handle_last_ack_state-IsValid,
}
use tiny_cp.Stack.State.{find_connections_tcb}
use tiny_cp.Stack.Handlers.{stack_of}
use tiny_cp.Stack.Input.{dispatch, unrouted, route, process_incoming_packet}

module _ (host : Host) {src dst : Ipv4Address} (src_in : IsEndpoint src) (dst_in : IsEndpoint dst)
    (packet : TcpPacketView) {s : TcpStack} (v : IsValid s) where
  dispatch-IsValid :
      (id : ℕ) (state : TcpState) → IsValid (stack_of (dispatch host id src dst packet state s))
  unfolding dispatch stack_of
  dispatch-IsValid id TcpState.closed = handle_closed_reset_response-IsValid host src dst packet v
  dispatch-IsValid id TcpState.listen =
      handle_passive_open_syn-IsValid host src dst packet s src_in dst_in v
  dispatch-IsValid id TcpState.syn_sent = handle_syn_sent_state-IsValid host id packet v
  dispatch-IsValid id TcpState.syn_received = handle_syn_received_state-IsValid host id src packet v
  dispatch-IsValid id TcpState.established =
      unfold stack_of in (handle_established_state-IsValid host id v packet)
  dispatch-IsValid id TcpState.fin_wait_1 = handle_fin_wait_1_state-IsValid host id packet v
  dispatch-IsValid id TcpState.fin_wait_2 = handle_fin_wait_2_state-IsValid host id packet v
  dispatch-IsValid id TcpState.close_wait = v
  dispatch-IsValid id TcpState.closing = handle_closing_state-IsValid id packet v
  dispatch-IsValid id TcpState.last_ack = handle_last_ack_state-IsValid id packet v
  dispatch-IsValid id TcpState.time_wait = v

  unrouted-IsValid : IsValid (stack_of (unrouted host src dst packet s))
  unfolding unrouted stack_of
  unrouted-IsValid =
      elim (Bool-cases (
        Listeners.contains dst.port s.listeners s.sockets
        && View.syn packet
        && not (View.ack packet))) [
          | inl opens ↦
              rw opens (handle_passive_open_syn-IsValid host src dst packet s src_in dst_in v)
          | inr other ↦ rw other (handle_closed_reset_response-IsValid host src dst packet v)
        ]

  route-IsValid : IsValid (stack_of (route host src dst packet s))
  unfolding route
  route-IsValid =
      let id = find_connections_tcb src dst s in
      elim (Bool-cases (id == 0)) [
        | inl new ↦ rw new unrouted-IsValid
        | inr known ↦ elim (Option-cases (get_tcb id s)) [
          | inl absent ↦
              rw (route, known, absent)
                (unfold stack_of in (handle_closed_reset_response-IsValid host src dst packet v))
          | inr (tcb, found) ↦ rw (route, known, found) (dispatch-IsValid id tcb.current_state)
        ]
      ]

endpoints_of :
    (buffer : List ℕ) (packet : TcpPacketView)
    → IsEndpoint (record {
      address = IpView.source_address_ntoh buffer;
      port = View.source_port_ntoh packet;
    })
      × IsEndpoint (record {
        address = IpView.destination_address_ntoh buffer;
        port = View.dest_port_ntoh packet;
      })
unfolding IpView.source_address_ntoh IpView.destination_address_ntoh View.source_port_ntoh
    View.dest_port_ntoh
endpoints_of buffer packet = (
  record { address_in = be32-lt buffer 12; port_in = be16-lt packet 0 },
  record { address_in = be32-lt buffer 16; port_in = be16-lt packet 2 },
)

-- Whatever bytes arrive, every control block stays valid, also where the thread comes to wait.
pub process_incoming_packet-IsValid :
    (host : Host) (buffer : List ℕ) {s : TcpStack}
    → IsValid s
    → IsValid (stack_of (process_incoming_packet host buffer s))
unfolding process_incoming_packet
process_incoming_packet-IsValid host buffer v =
    let packet = IpView.payload buffer in
    let (src_in, dst_in) = endpoints_of buffer packet in
    elim (Bool-cases (not (IpView.valid buffer) || not (View.valid packet))) [
      | inl bad ↦ rw bad (unfold stack_of in v)
      | inr good ↦ rw good (route-IsValid host src_in dst_in packet v)
    ]
