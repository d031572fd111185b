-- ===== src/Stack/Send.antt =====
-- Sending what a socket has written: `process_block_`, `process_dirty_blocks_` and
-- `check_retransmissions_`.
pub mod Window
pub mod Retransmission
use tiny_cp.Base.{
  ℕ, ◌+◌, ◌-◌, ◌^◌, ◌%◌, Bool, true, false, ◌||◌, ◌&&◌, Option, none, some, List, [], ◌∷◌, ◌==◌,
  ltb, leb, min, length, if◌then◌else◌, u32, add32, sub32,
}
use tiny_cp.Base.Map.{Map}
use tiny_cp.Buffer
use tiny_cp.Tcb.{Tcb, TcpState, max_ipv4_packet_size}
use tiny_cp.Stack.State.{Host, Net, TcpStack, get_tcb, put_tcb, add_dirty_tcb}
use tiny_cp.Stack.Output.{create_writer_tcp_packet, write_packet, send_control_packet, syn_only}

-- The states in which `process_block_` sends data.
unfoldable pub may_send : TcpState → Bool
may_send TcpState.established = true
may_send TcpState.close_wait = true
may_send TcpState.fin_wait_1 = true
may_send TcpState.last_ack = true
may_send _ = false

abbrev pub is_syn_sent : TcpState → Bool
is_syn_sent TcpState.syn_sent = true
is_syn_sent _ = false

abbrev pub is_established : TcpState → Bool
is_established TcpState.established = true
is_established _ = false

-- `SND.NXT - SND.UNA`, of `uint32_t`
unfoldable pub in_flight : Tcb → ℕ
in_flight tcb = sub32 tcb.snd.nxt tcb.snd.una

-- `usable_window`
unfoldable pub usable_window : Tcb → ℕ
usable_window tcb = if ltb (in_flight tcb) tcb.snd.wnd then tcb.snd.wnd - in_flight tcb else 0

-- `std::min({limit, 1460, MAX_IPV4_PACKET_SIZE})`
abbrev pub segment_limit : ℕ → ℕ
segment_limit limit = min (min limit 1460) max_ipv4_packet_size

-- Unsent data remains, and the peer's window has room for some of it.
unfoldable pub has_sendable : Tcb → Bool
has_sendable tcb =
    ltb (in_flight tcb) (Buffer.size tcb.send_buffer) && ltb (in_flight tcb) tcb.snd.wnd

-- The bytes that `process_block_` peeks.
unfoldable pub next_bytes : Tcb → List ℕ
next_bytes tcb =
    Buffer.peek max_ipv4_packet_size tcb.send_buffer (segment_limit (usable_window tcb))
      (in_flight tcb)

-- A control block, and the stack around it, while a method runs on it.
pub record Flushed : Type 0 where
  pub tcb : Tcb
  pub stack : TcpStack

-- One data segment from a block that may send.
unfoldable pub send_next : Host → ℕ → Tcb → TcpStack → Flushed
send_next host id tcb s =
    let bytes = next_bytes tcb in
    if usable_window tcb == 0 || length bytes == 0
    then record { tcb = tcb; stack = s }
    else (let packet = create_writer_tcp_packet tcb bytes tcb.snd.nxt in
        let sent = record tcb {
          snd = record (tcb.snd) { nxt = add32 tcb.snd.nxt (length bytes) };
        } in
        let w = write_packet host tcb.src_address tcb.dst_address packet s.net in
        let s' = record s { net = w.net } in
        record { tcb = sent; stack = if has_sendable sent then add_dirty_tcb id s' else s' })

-- `process_block_` behind its lookup.
unfoldable pub process_tcb : Host → ℕ → Tcb → TcpStack → Flushed
process_tcb host id tcb s =
    let stamped = record tcb { last_written = s.clock } in
    if is_syn_sent tcb.current_state
    then (let w = send_control_packet host stamped syn_only stamped.snd.iss 0 s.net in
        record { tcb = stamped; stack = record s { net = w.net } })
    else (if may_send tcb.current_state
        then send_next host id stamped s
        else record { tcb = stamped; stack = s })

unfoldable pub process_block : Host → ℕ → TcpStack → TcpStack
process_block host id s = elim (get_tcb id s) [
  | none ↦ s
  | some tcb ↦ let f = process_tcb host id tcb s in put_tcb id f.tcb f.stack
]

unfoldable pub process_ids : Host → List ℕ → TcpStack → TcpStack
process_ids host [] s = s
process_ids host (id ∷ ids) s = process_ids host ids (process_block host id s)

-- The queue is swapped for an empty one first, so blocks that are marked again wait a round.
unfoldable pub process_dirty_blocks : Host → TcpStack → TcpStack
process_dirty_blocks host s =
    process_ids host s.dirty_socket_ids (record s { dirty_socket_ids = [] })

-- The bytes that `check_retransmissions_` peeks.
unfoldable pub oldest_bytes : Tcb → List ℕ
oldest_bytes tcb =
    Buffer.peek max_ipv4_packet_size tcb.send_buffer (segment_limit (in_flight tcb)) 0

-- The clock does not run backwards.
unfoldable pub is_due : ℕ → Tcb → Bool
is_due now tcb =
    is_established tcb.current_state
    && ltb 0 (in_flight tcb)
    && leb tcb.rto (now - tcb.last_written)

abbrev pub Retransmitted : Type 0
Retransmitted = record { tcb : Tcb; net : Net }

-- The body of the loop over the sockets.
unfoldable pub retransmit : Host → ℕ → Tcb → Net → Retransmitted
retransmit host now tcb net =
    let bytes = oldest_bytes tcb in
    if is_due now tcb && ltb 0 (length bytes)
    then (let packet = create_writer_tcp_packet tcb bytes tcb.snd.una in
        record {
          tcb = record tcb {
            last_written = now;
            retransmit_attempts = u32 (tcb.retransmit_attempts + 1);
          };
          net = (write_packet host tcb.src_address tcb.dst_address packet net).net;
        })
    else record { tcb = tcb; net = net }

abbrev pub Swept : Type 0
Swept = record { sockets : Map ℕ Tcb; net : Net }

-- `for_each_socket` goes through the table in some order; here it is the list's.
unfoldable pub retransmit_all : Host → ℕ → Map ℕ Tcb → Net → Swept
retransmit_all host now [] net = record { sockets = []; net = net }
retransmit_all host now ((id, tcb) ∷ rest) net =
    let r = retransmit host now tcb net in
    let swept = retransmit_all host now rest r.net in
    record { sockets = (id, r.tcb) ∷ swept.sockets; net = swept.net }

unfoldable pub check_retransmissions : Host → TcpStack → TcpStack
check_retransmissions host s =
    let swept = retransmit_all host s.clock s.sockets.sockets s.net in
    record s { sockets = record (s.sockets) { sockets = swept.sockets }; net = swept.net }
