-- ===== src/Stack/Output.antt =====
-- The packets that the stack makes, and `write_packet_`.
use tiny_cp.Base.{
  ℕ, Bool, true, false, ◌||◌, List, [], ◌∷◌, ◌++◌, ◌==◌, if◌then◌else◌, min, u16, ◌>>>◌,
}
use tiny_cp.Base.Memory.{span}
use tiny_cp.Address.{Ipv4Address}
use tiny_cp.Buffer.{available_capacity}
use tiny_cp.Tcb.{Tcb, max_ipv4_packet_size}
use tiny_cp.Tcp.Header
use tiny_cp.Tcp.Header.{TcpHeader}
use tiny_cp.Tcp.Packet.{TcpPacket}
use tiny_cp.Tcp.Packet
use tiny_cp.Ipv4.Header as IpHeader
use tiny_cp.Ipv4.Header.{Ipv4Header}
use tiny_cp.Ipv4.Packet as IpPacket
use tiny_cp.Ipv4.Packet.{Ipv4Packet}
use tiny_cp.Tun.{tun_write, get_usable_ip_address}
use tiny_cp.Stack.State.{Host, Net, TcpStack, Sized}

-- `free_wnd`
unfoldable pub free_window : Tcb → ℕ
free_window tcb = u16 (min (available_capacity max_ipv4_packet_size tcb.recv_buffer) 65535)

-- The header of a segment that carries data.
unfoldable pub writer_header : Tcb → ℕ → TcpHeader
writer_header tcb seq_num =
    let ports =
      Header.set_dest_port tcb.dst_address.port
        (Header.set_source_port tcb.src_address.port Header.zero_header) in
    let acked = Header.set_ack true (Header.set_data_offset 5 ports) in
    let numbered = Header.set_ack_num tcb.rcv.nxt (Header.set_seq_num seq_num acked) in
    Header.set_window (free_window tcb) numbered

unfoldable pub create_writer_tcp_packet : Tcb → List ℕ → ℕ → TcpPacket
create_writer_tcp_packet tcb bytes seq_num = record {
  header = writer_header tcb seq_num;
  payload = bytes;
}

-- The control bits that a caller asks for.
pub record Control : Type 0 where
  pub syn : Bool
  pub ack : Bool
  pub rst : Bool
  pub fin : Bool

-- The header of `send_control_packet_`; every caller leaves `window_size` at its default, 65535,
-- for which the free space of the receive buffer is advertised.
unfoldable pub control_header : Tcb → Control → ℕ → ℕ → ℕ → TcpHeader
control_header tcb c seq_num ack_num window_size =
    let ports =
      Header.set_dest_port tcb.dst_address.port
        (Header.set_source_port tcb.src_address.port Header.zero_header) in
    let sized = Header.set_data_offset 5 ports in
    let bits =
      Header.set_fin c.fin
        (Header.set_rst c.rst (Header.set_ack c.ack (Header.set_syn c.syn sized))) in
    let numbered = Header.set_ack_num ack_num (Header.set_seq_num seq_num bits) in
    Header.set_window (if window_size == 65535 then free_window tcb else window_size) numbered

-- The header of `send_raw_rst_`.
unfoldable pub reset_header : Ipv4Address → Ipv4Address → ℕ → ℕ → Bool → TcpHeader
reset_header src dst seq_num ack_num ack_flag =
    let ports =
      Header.set_dest_port dst.port (Header.set_source_port src.port Header.zero_header) in
    let bits = Header.set_ack ack_flag (Header.set_rst true (Header.set_data_offset 5 ports)) in
    Header.set_ack_num ack_num (Header.set_seq_num seq_num bits)

-- The IP header of `write_packet_`.
unfoldable pub ip_header : Ipv4Address → Ipv4Address → Ipv4Header
ip_header src dst =
    let first = IpHeader.set_ihl 5 (IpHeader.set_version 4 IpHeader.zero_header) in
    let addressed =
      IpHeader.set_destination_address dst.address
        (IpHeader.set_source_address src.address (IpHeader.set_ttl 255 first)) in
    IpHeader.set_fragment_offset 0 (IpHeader.set_protocol 6 addressed)

-- Packets to the stack's own address, to the loopback network or to their own source stay here.
unfoldable pub is_local : Host → Ipv4Address → Ipv4Address → Bool
is_local host src dst =
    src.address == dst.address
    || dst.address >>> 24 == 127
    || dst.address == (get_usable_ip_address host.os).address

-- The bytes of the segment, and of the datagram around it.
unfoldable pub segment_bytes : Host → Ipv4Address → Ipv4Address → TcpPacket → List ℕ
segment_bytes host src dst packet =
    let o = Packet.write packet max_ipv4_packet_size host.stack_memory src dst in
    span o.out 0 o.written

unfoldable pub datagram_bytes : Host → Ipv4Address → Ipv4Address → TcpPacket → List ℕ
datagram_bytes host src dst packet =
    let ip : Ipv4Packet = record {
      header = ip_header src dst;
      payload = segment_bytes host src dst packet;
    } in
    let o = IpPacket.write ip max_ipv4_packet_size host.stack_memory in span o.out 0 o.written

-- The size that a method returns, beside the packets that are under way then.
abbrev pub Written : Type 0
Written = record { size : ℕ; net : Net }

-- `ip_payload_size` is the number of the bytes.
unfoldable pub write_packet : Host → Ipv4Address → Ipv4Address → TcpPacket → Net → Written
write_packet host src dst packet net =
    let bytes = datagram_bytes host src dst packet in
    let ip : Ipv4Packet = record {
      header = ip_header src dst;
      payload = segment_bytes host src dst packet;
    } in
    if is_local host src dst
    then record {
      size = (IpPacket.write ip max_ipv4_packet_size host.stack_memory).written;
      net = record net { loopback_packet_queue = net.loopback_packet_queue ++ (bytes ∷ []) };
    }
    else record {
      size = tun_write host.os host.tun_device bytes;
      net = record net { tun_out = net.tun_out ++ (bytes ∷ []) };
    }

unfoldable pub send_control_packet : Host → Tcb → Control → ℕ → ℕ → Net → Written
send_control_packet host tcb c seq_num ack_num net =
    let packet : TcpPacket = record {
      header = control_header tcb c seq_num ack_num 65535;
      payload = [];
    } in
    write_packet host tcb.src_address tcb.dst_address packet net

unfoldable pub send_raw_rst : Host → Ipv4Address → Ipv4Address → ℕ → ℕ → Bool → Net → Written
send_raw_rst host src dst seq_num ack_num ack_flag net =
    let packet : TcpPacket = record {
      header = reset_header src dst seq_num ack_num ack_flag;
      payload = [];
    } in
    write_packet host src dst packet net

-- A send from a handler.
unfoldable pub reply : Host → Tcb → Control → ℕ → ℕ → TcpStack → Sized
reply host tcb c seq_num ack_num s =
    let w = send_control_packet host tcb c seq_num ack_num s.net in
    record { size = w.size; stack = record s { net = w.net } }

abbrev pub syn_only : Control
syn_only = record { syn = true; ack = false; rst = false; fin = false }

abbrev pub syn_ack : Control
syn_ack = record { syn = true; ack = true; rst = false; fin = false }

abbrev pub ack_only : Control
ack_only = record { syn = false; ack = true; rst = false; fin = false }

abbrev pub rst_only : Control
rst_only = record { syn = false; ack = false; rst = true; fin = false }

abbrev pub fin_ack : Control
fin_ack = record { syn = false; ack = true; rst = false; fin = true }
