-- ===== src/Tcp/Print.antt =====
-- TcpPacket.cpp: `PrintTcpHeader`, the dump that `operator<<` writes of a `TcpHeader` and of a
-- `TcpPacketView`. The template's parameter is the record of the getters that it calls.
use tiny_cp.Base.{ℕ, ◌≡◌, refl, Bool, ◌||◌, List, [], ◌∷◌, ◌++◌, if◌then◌else◌}
use tiny_cp.Text.{Bytes, codes, decimal, hex, written, when}
use tiny_cp.Tcp.Header
use tiny_cp.Tcp.Header.{TcpHeader, serialize}
use tiny_cp.Tcp.View
use tiny_cp.Tcp.View.{TcpPacketView}
use tiny_cp.Tcp.Mirror.{IsValid, serialize-Agrees}

-- The class `Header` of the template; `flag bit` is the getter of a control bit.
pub record Getters (H : Type 0) : Type 0 where
  pub source_port_ntoh : H → ℕ
  pub dest_port_ntoh : H → ℕ
  pub seq_num_ntoh : H → ℕ
  pub ack_num_ntoh : H → ℕ
  pub data_offset : H → ℕ
  pub header_length : H → ℕ
  pub flag : ℕ → H → Bool
  pub window_ntoh : H → ℕ
  pub checksum_ntoh : H → ℕ
  pub urgent_pointer_ntoh : H → ℕ

abbrev pub header_getters : Getters TcpHeader
header_getters = record {
  source_port_ntoh = Header.source_port_ntoh;
  dest_port_ntoh = Header.dest_port_ntoh;
  seq_num_ntoh = Header.seq_num_ntoh;
  ack_num_ntoh = Header.ack_num_ntoh;
  data_offset = Header.data_offset;
  header_length = Header.header_length;
  flag = Header.flag;
  window_ntoh = Header.window_ntoh;
  checksum_ntoh = Header.checksum_ntoh;
  urgent_pointer_ntoh = Header.urgent_pointer_ntoh;
}

abbrev pub view_getters : Getters TcpPacketView
view_getters = record {
  source_port_ntoh = View.source_port_ntoh;
  dest_port_ntoh = View.dest_port_ntoh;
  seq_num_ntoh = View.seq_num_ntoh;
  ack_num_ntoh = View.ack_num_ntoh;
  data_offset = View.data_offset;
  header_length = View.header_length;
  flag = View.flag;
  window_ntoh = View.window_ntoh;
  checksum_ntoh = View.checksum_ntoh;
  urgent_pointer_ntoh = View.urgent_pointer_ntoh;
}

-- The lambda `print_flag`, called for one flag after the other: `printed` says whether a name
-- stands before, and where none was printed `None` is.
pub print_flags : Bool → List (Bool × Bytes) → Bytes
print_flags printed [] = if printed then [] else codes "None"
print_flags printed ((set, name) ∷ more) =
    let rest = print_flags (printed || set) more in
    if set then when printed (codes " ") ++ (name ++ rest) else rest

pub print_tcp_header : {H : Type 0} → Getters H → H → Bytes
unfolding written
print_tcp_header {H} get h = written (
    codes "TCP Header {\n"
    ∷ codes "  Source Port:        "
    ∷ decimal (get.source_port_ntoh h)
    ∷ codes "\n"
    ∷ codes "  Destination Port:   "
    ∷ decimal (get.dest_port_ntoh h)
    ∷ codes "\n"
    ∷ codes "  Sequence Number:    0x"
    ∷ hex 8 (get.seq_num_ntoh h) []
    ∷ codes "\n"
    ∷ codes "  Ack Number:         0x"
    ∷ hex 8 (get.ack_num_ntoh h) []
    ∷ codes "\n"
    ∷ codes "  Data Offset:        "
    ∷ decimal (get.data_offset h)
    ∷ codes " ("
    ∷ decimal (get.header_length h)
    ∷ codes " bytes)\n"
    ∷ codes "  Flags:              "
    ∷ print_flags Bool.false (
        (get.flag 5 h, codes "URG")
        ∷ (get.flag 4 h, codes "ACK")
        ∷ (get.flag 3 h, codes "PSH")
        ∷ (get.flag 2 h, codes "RST")
        ∷ (get.flag 1 h, codes "SYN")
        ∷ (get.flag 0 h, codes "FIN")
        ∷ [])
    ∷ codes "\n"
    ∷ codes "  Window:             0x"
    ∷ hex 4 (get.window_ntoh h) []
    ∷ codes "\n"
    ∷ codes "  Checksum:           0x"
    ∷ hex 4 (get.checksum_ntoh h) []
    ∷ codes "\n"
    ∷ codes "  Urgent Pointer:     0x"
    ∷ hex 4 (get.urgent_pointer_ntoh h) []
    ∷ codes "\n}"
    ∷ [])

-- The dump of the view over the bytes that a header is serialized to, whatever bytes follow, is
-- the dump of the header.
pub print_tcp_header-serialize :
    (h : TcpHeader) (rest : List ℕ)
    → IsValid h
    → print_tcp_header view_getters (serialize h ++ rest) ≡ print_tcp_header header_getters h
unfolding print_tcp_header
print_tcp_header-serialize h rest v =
    let a = serialize-Agrees h rest v in
    rw
      (
        a.source_port_ntoh,
        a.dest_port_ntoh,
        a.seq_num_ntoh,
        a.ack_num_ntoh,
        a.data_offset,
        a.header_length,
        a.flag 5,
        a.flag 4,
        a.flag 3,
        a.flag 2,
        a.flag 1,
        a.flag 0,
        a.window_ntoh,
        a.checksum_ntoh,
        a.urgent_pointer_ntoh,
      )
      refl
