-- ===== src/Tcp/Mirror.antt =====
-- `TcpPacketView` over the bytes that `TcpHeader::serialize` writes: each getter of the view gives
-- what the getter of the header gives.
use tiny_cp.Base.{
  ℕ, ◌*◌, ◌/◌, ◌%◌, ◌^◌, ◌<◌, ◌≡◌, ap, ◌∙◌, List, ◌++◌, htons, htonl, htons-htons, htonl-htonl,
  bytes16, bytes32, bit_and, ltb,
}
use tiny_cp.Wire.{be16, be32, be16_of_swap, be32_of_swap}
use tiny_cp.Tcp.Header
use tiny_cp.Tcp.Raw
use tiny_cp.Tcp.View
use tiny_cp.Tcp.Header.{TcpHeader, serialize}

-- The fields fit their types.
pub record IsValid (h : TcpHeader) : Type 0 where
  pub source_port_in : h.source_port < 2 ^ 16
  pub dest_port_in : h.dest_port < 2 ^ 16
  pub seq_num_in : h.seq_num < 2 ^ 32
  pub ack_num_in : h.ack_num < 2 ^ 32
  pub control_in : h.control < 2 ^ 16
  pub window_in : h.window < 2 ^ 16
  pub checksum_in : h.checksum < 2 ^ 16
  pub urgent_pointer_in : h.urgent_pointer < 2 ^ 16

-- The words of the view, at the offsets that the getters use.
pub record Mirrors (v : List ℕ) (h : TcpHeader) : Type 0 where
  pub source : be16 v 0 ≡ htons h.source_port
  pub dest : be16 v 2 ≡ htons h.dest_port
  pub seq : be32 v 4 ≡ htonl h.seq_num
  pub ack : be32 v 8 ≡ htonl h.ack_num
  pub control : be16 v 12 ≡ htons h.control
  pub window : be16 v 14 ≡ htons h.window
  pub check : be16 v 16 ≡ htons h.checksum
  pub urgent : be16 v 18 ≡ htons h.urgent_pointer

pub serialize-Mirrors : (h : TcpHeader) (rest : List ℕ) → Mirrors (serialize h ++ rest) h
unfolding serialize be16 be32 bytes16 bytes32
serialize-Mirrors h rest = record {
  source = be16_of_swap h.source_port;
  dest = be16_of_swap h.dest_port;
  seq = be32_of_swap h.seq_num;
  ack = be32_of_swap h.ack_num;
  control = be16_of_swap h.control;
  window = be16_of_swap h.window;
  check = be16_of_swap h.checksum;
  urgent = be16_of_swap h.urgent_pointer;
}

-- Every getter that the two classes share.
pub record Agrees (v : List ℕ) (h : TcpHeader) : Type 0 where
  pub source_port : View.source_port v ≡ Raw.source_port h
  pub dest_port : View.dest_port v ≡ Raw.dest_port h
  pub seq_num : View.seq_num v ≡ Raw.seq_num h
  pub ack_num : View.ack_num v ≡ Raw.ack_num h
  pub control : View.control v ≡ Raw.control h
  pub window : View.window v ≡ Raw.window h
  pub checksum : View.checksum v ≡ Raw.checksum h
  pub urgent_pointer : View.urgent_pointer v ≡ Raw.urgent_pointer h
  pub source_port_ntoh : View.source_port_ntoh v ≡ Header.source_port_ntoh h
  pub dest_port_ntoh : View.dest_port_ntoh v ≡ Header.dest_port_ntoh h
  pub seq_num_ntoh : View.seq_num_ntoh v ≡ Header.seq_num_ntoh h
  pub ack_num_ntoh : View.ack_num_ntoh v ≡ Header.ack_num_ntoh h
  pub data_offset : View.data_offset v ≡ Header.data_offset h
  pub header_length : View.header_length v ≡ Header.header_length h
  pub flags : View.flags v ≡ Header.flags h
  pub flag : (bit : ℕ) → View.flag bit v ≡ Header.flag bit h
  pub window_ntoh : View.window_ntoh v ≡ Header.window_ntoh h
  pub checksum_ntoh : View.checksum_ntoh v ≡ Header.checksum_ntoh h
  pub urgent_pointer_ntoh : View.urgent_pointer_ntoh v ≡ Header.urgent_pointer_ntoh h

-- Each getter of the view over the serialized header, whatever bytes follow it, gives what the
-- getter of the header gives: the raw ones, the interpreted ones and the control bits.
pub serialize-Agrees : (h : TcpHeader) (rest : List ℕ) → IsValid h → Agrees (serialize h ++ rest) h
unfolding View.source_port View.dest_port View.seq_num View.ack_num View.control View.window
    View.checksum View.urgent_pointer View.source_port_ntoh View.dest_port_ntoh View.seq_num_ntoh
    View.ack_num_ntoh View.header_length View.flag View.window_ntoh View.checksum_ntoh
    View.urgent_pointer_ntoh Header.source_port_ntoh Header.dest_port_ntoh Header.seq_num_ntoh
    Header.ack_num_ntoh Header.header_length Header.flag Header.window_ntoh Header.checksum_ntoh
    Header.urgent_pointer_ntoh Raw.source_port Raw.dest_port Raw.seq_num Raw.ack_num Raw.control
    Raw.window Raw.checksum Raw.urgent_pointer
serialize-Agrees h rest v =
    let m = serialize-Mirrors h rest in
    record {
      source_port = ap htons m.source ∙ htons-htons h.source_port v.source_port_in;
      dest_port = ap htons m.dest ∙ htons-htons h.dest_port v.dest_port_in;
      seq_num = ap htonl m.seq ∙ htonl-htonl h.seq_num v.seq_num_in;
      ack_num = ap htonl m.ack ∙ htonl-htonl h.ack_num v.ack_num_in;
      control = ap htons m.control ∙ htons-htons h.control v.control_in;
      window = ap htons m.window ∙ htons-htons h.window v.window_in;
      checksum = ap htons m.check ∙ htons-htons h.checksum v.checksum_in;
      urgent_pointer = ap htons m.urgent ∙ htons-htons h.urgent_pointer v.urgent_pointer_in;
      source_port_ntoh = m.source;
      dest_port_ntoh = m.dest;
      seq_num_ntoh = m.seq;
      ack_num_ntoh = m.ack;
      data_offset = ap (λ w. w / 4096 % 256) m.control;
      header_length = ap (λ w. w / 4096 % 256 * 4 % 256) m.control;
      flags = ap (λ w. bit_and w 63) m.control;
      flag = λ bit. ap (λ w. ltb 0 (bit_and (bit_and w 63 / 2 ^ bit) 1)) m.control;
      window_ntoh = m.window;
      checksum_ntoh = m.check;
      urgent_pointer_ntoh = m.urgent;
    }
