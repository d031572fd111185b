-- ===== src/Tcp/Header.antt =====
-- The class `TcpHeader`: its fields as they lie in memory, in network byte order, with the getters
-- and setters in host order, and its bytes on the wire.
use tiny_cp.Base.{
  ℕ, ◌-◌, ◌*◌, ◌/◌, ◌^◌, Bool, List, ◌++◌, bit_and, bit_or, u8, u16, ◌<<◌, ◌>>>◌, ltb, htons, htonl,
  bytes16, bytes32, if◌then◌else◌, take, drop, ◌∷◌,
}
use tiny_cp.Checksum.{ones_complement_checksum, compute_tcp_checksum}

-- `control` is `data_offset_and_reserved_and_control_bits_`.
pub record TcpHeader : Type 0 where
  pub source_port : ℕ
  pub dest_port : ℕ
  pub seq_num : ℕ
  pub ack_num : ℕ
  pub control : ℕ
  pub window : ℕ
  pub checksum : ℕ
  pub urgent_pointer : ℕ

-- `TcpHeader header{}`
abbrev pub zero_header : TcpHeader
zero_header = record {
  source_port = 0;
  dest_port = 0;
  seq_num = 0;
  ack_num = 0;
  control = 0;
  window = 0;
  checksum = 0;
  urgent_pointer = 0;
}

unfoldable pub source_port_ntoh : TcpHeader → ℕ
source_port_ntoh h = htons h.source_port

unfoldable pub dest_port_ntoh : TcpHeader → ℕ
dest_port_ntoh h = htons h.dest_port

unfoldable pub seq_num_ntoh : TcpHeader → ℕ
seq_num_ntoh h = htonl h.seq_num

unfoldable pub ack_num_ntoh : TcpHeader → ℕ
ack_num_ntoh h = htonl h.ack_num

unfoldable pub control_ntoh : TcpHeader → ℕ
control_ntoh h = htons h.control

unfoldable pub data_offset : TcpHeader → ℕ
data_offset h = u8 (htons h.control >>> 12)

unfoldable pub header_length : TcpHeader → ℕ
unfolding data_offset
header_length h = u8 (data_offset h * 4)

unfoldable pub flags : TcpHeader → ℕ
flags h = bit_and (htons h.control) 0x3F

-- `(flags() >> bit) & 1`, as a `bool`
unfoldable pub flag : ℕ → TcpHeader → Bool
unfolding flags
flag bit h = ltb 0 (bit_and (flags h >>> bit) 1)

abbrev pub urg : TcpHeader → Bool
urg = flag 5

abbrev pub ack : TcpHeader → Bool
ack = flag 4

abbrev pub psh : TcpHeader → Bool
psh = flag 3

abbrev pub rst : TcpHeader → Bool
rst = flag 2

abbrev pub syn : TcpHeader → Bool
syn = flag 1

abbrev pub fin : TcpHeader → Bool
fin = flag 0

unfoldable pub window_ntoh : TcpHeader → ℕ
window_ntoh h = htons h.window

unfoldable pub checksum_ntoh : TcpHeader → ℕ
checksum_ntoh h = htons h.checksum

unfoldable pub urgent_pointer_ntoh : TcpHeader → ℕ
urgent_pointer_ntoh h = htons h.urgent_pointer

unfoldable pub set_source_port : ℕ → TcpHeader → TcpHeader
set_source_port port h = record h { source_port = htons port }

unfoldable pub set_dest_port : ℕ → TcpHeader → TcpHeader
set_dest_port port h = record h { dest_port = htons port }

unfoldable pub set_seq_num : ℕ → TcpHeader → TcpHeader
set_seq_num seq h = record h { seq_num = htonl seq }

unfoldable pub set_ack_num : ℕ → TcpHeader → TcpHeader
set_ack_num ack_num h = record h { ack_num = htonl ack_num }

unfoldable pub set_data_offset : ℕ → TcpHeader → TcpHeader
set_data_offset words h =
    let word = htons h.control in
    record h { control = htons (u16 (bit_or (bit_and word 0x0FFF) (bit_and words 0xF << 12))) }

unfoldable pub set_header_length : ℕ → TcpHeader → TcpHeader
set_header_length bytes h = set_data_offset (bytes / 4) h

unfoldable pub set_flags : ℕ → TcpHeader → TcpHeader
set_flags new h =
    let word = htons h.control in
    record h { control = htons (u16 (bit_or (bit_and word 0xFFC0) (bit_and new 0x3F))) }

-- `~mask` of a 16-bit mask, once the result is cast back to 16 bits, is `0xFFFF - mask`.
unfoldable pub set_flag : ℕ → Bool → TcpHeader → TcpHeader
set_flag bit b h =
    let word = htons h.control in
    let mask = u16 (2 ^ bit) in
    record h {
      control = htons (if b then u16 (bit_or word mask) else u16 (bit_and word (0xFFFF - mask)));
    }

abbrev pub set_urg : Bool → TcpHeader → TcpHeader
set_urg = set_flag 5

abbrev pub set_ack : Bool → TcpHeader → TcpHeader
set_ack = set_flag 4

abbrev pub set_psh : Bool → TcpHeader → TcpHeader
set_psh = set_flag 3

abbrev pub set_rst : Bool → TcpHeader → TcpHeader
set_rst = set_flag 2

abbrev pub set_syn : Bool → TcpHeader → TcpHeader
set_syn = set_flag 1

abbrev pub set_fin : Bool → TcpHeader → TcpHeader
set_fin = set_flag 0

unfoldable pub set_window : ℕ → TcpHeader → TcpHeader
set_window size h = record h { window = htons size }

unfoldable pub set_checksum : ℕ → TcpHeader → TcpHeader
set_checksum check h = record h { checksum = htons check }

unfoldable pub set_urgent_pointer : ℕ → TcpHeader → TcpHeader
set_urgent_pointer pointer h = record h { urgent_pointer = htons pointer }

-- `memcpy` of the packed struct
unfoldable pub serialize : TcpHeader → List ℕ
serialize h =
    bytes16 h.source_port
    ++ (bytes16 h.dest_port
        ++ (bytes32 h.seq_num
            ++ (bytes32 h.ack_num
                ++ (bytes16 h.control
                    ++ (bytes16 h.window ++ (bytes16 h.checksum ++ bytes16 h.urgent_pointer))))))

-- The header alone, with its checksum bytes put to zero.
unfoldable pub header_checksum : TcpHeader → ℕ
header_checksum h =
    let wire = serialize h in ones_complement_checksum (take 16 wire ++ (0 ∷ 0 ∷ drop 18 wire))

-- The full checksum; the caller has put the checksum field to zero.
unfoldable pub compute_checksum : ℕ → ℕ → List ℕ → TcpHeader → ℕ
compute_checksum src_ip_net dst_ip_net payload h =
    compute_tcp_checksum src_ip_net dst_ip_net (serialize h) payload
