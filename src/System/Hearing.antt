-- ===== src/System/Hearing.antt =====
-- A segment that one stack makes, as the stack of its peer sees it.
use tiny_cp.Base.{ℕ, ◌≤◌, ◌≡◌, refl, ◌∙◌, List, length, htonl}
use tiny_cp.Address.{IsEndpoint}
use tiny_cp.Tcb.{Tcb}
use tiny_cp.Tcp.Header
use tiny_cp.Tcp.Header.{TcpHeader, flag, data_offset}
use tiny_cp.Tcp.Packet
use tiny_cp.Tcp.Packet.{TcpPacket}
use tiny_cp.Tcp.View
use tiny_cp.Tcp.View.{TcpPacketView}
use tiny_cp.Stack.State.{Host, TcpStack}
use tiny_cp.Stack.Output.{Control, free_window, segment_bytes, datagram_bytes}
use tiny_cp.Stack.Segments.{Says, Says-IsSegment}
use tiny_cp.Stack.Delivery.{process_incoming_packet-datagram_bytes}
use tiny_cp.Stack.Input.{process_incoming_packet, route}

-- What a receiver reads from a segment that the block of its sender made.
pub record Hears (view : TcpPacketView) (sender : Tcb) (c : Control) (seq acked : ℕ)
    (payload : List ℕ) : Type 0 where
  pub syn : View.syn view ≡ c.syn
  pub ack : View.ack view ≡ c.ack
  pub rst : View.rst view ≡ c.rst
  pub fin : View.fin view ≡ c.fin
  pub seq_num : View.seq_num_ntoh view ≡ seq
  pub ack_num : View.ack_num_ntoh view ≡ acked
  pub window : View.window_ntoh view ≡ free_window sender
  pub bytes : View.payload view ≡ payload

-- `write` leaves all but the checksum of a header with a data offset alone.
record Same (g h : TcpHeader) : Type 0 where
  pub flags : (k : ℕ) → flag k g ≡ flag k h
  pub seq_num : Header.seq_num_ntoh g ≡ Header.seq_num_ntoh h
  pub ack_num : Header.ack_num_ntoh g ≡ Header.ack_num_ntoh h
  pub window : Header.window_ntoh g ≡ Header.window_ntoh h

Same-outgoing :
    (p : TcpPacket) (src dst : ℕ)
    → data_offset p.header ≡ 5
    → Same (Packet.outgoing p src dst) p.header
unfolding Packet.outgoing Packet.sized Header.set_checksum flag Header.seq_num_ntoh
    Header.ack_num_ntoh Header.window_ntoh
Same-outgoing p src dst h =
    rw h (record { flags = λ k. refl; seq_num = refl; ack_num = refl; window = refl })

-- The stack that reads a segment of a block routes it between the two endpoints of the block, and
-- hears what its sender said.
pub heard :
    (host receiver : Host) (sender : Tcb) (h : TcpHeader) (c : Control) (seq acked : ℕ)
    (payload : List ℕ) (s : TcpStack)
    → IsEndpoint sender.src_address
    → IsEndpoint sender.dst_address
    → Says h sender c seq acked
    → length payload ≤ 65495
    → let p : TcpPacket = record { header = h; payload = payload } in
      let view = segment_bytes host sender.src_address sender.dst_address p in
      (process_incoming_packet receiver
          (datagram_bytes host sender.src_address sender.dst_address p)
          s
        ≡ route receiver sender.src_address sender.dst_address view s)
      × Hears view sender c seq acked payload
heard host receiver sender h c seq acked payload s src_in dst_in says fits =
    let p : TcpPacket = record { header = h; payload = payload } in
    let (routed, bytes, agrees) =
      process_incoming_packet-datagram_bytes host receiver sender.src_address sender.dst_address p s
        src_in dst_in (Says-IsSegment payload says fits) in
    let same =
      Same-outgoing p (htonl sender.src_address.address) (htonl sender.dst_address.address)
        says.offset in
    (
      routed,
      record {
        syn = agrees.flag 1 ∙ same.flags 1 ∙ says.syn;
        ack = agrees.flag 4 ∙ same.flags 4 ∙ says.ack;
        rst = agrees.flag 2 ∙ same.flags 2 ∙ says.rst;
        fin = agrees.flag 0 ∙ same.flags 0 ∙ says.fin;
        seq_num = agrees.seq_num_ntoh ∙ same.seq_num ∙ says.seq_num;
        ack_num = agrees.ack_num_ntoh ∙ same.ack_num ∙ says.ack_num;
        window = agrees.window_ntoh ∙ same.window ∙ says.window;
        bytes = bytes;
      },
    )
