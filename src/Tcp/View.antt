-- ===== src/Tcp/View.antt =====
-- The class `TcpPacketView`: the fields of a segment read from its bytes.
use tiny_cp.Base.{
  ℕ, ◌*◌, Bool, ◌&&◌, Option, none, some, List, bit_and, u8, ◌>>>◌, ltb, leb, htons, htonl,
  if◌then◌else◌, length, drop,
}
use tiny_cp.Wire.{be16, be32}

-- The view is its bytes.
abbrev pub TcpPacketView : Type 0
TcpPacketView = List ℕ

abbrev pub min_length : ℕ
min_length = 20

-- The raw getters: network byte order.
unfoldable pub source_port : TcpPacketView → ℕ
source_port v = htons (be16 v 0)

unfoldable pub dest_port : TcpPacketView → ℕ
dest_port v = htons (be16 v 2)

unfoldable pub seq_num : TcpPacketView → ℕ
seq_num v = htonl (be32 v 4)

unfoldable pub ack_num : TcpPacketView → ℕ
ack_num v = htonl (be32 v 8)

unfoldable pub control : TcpPacketView → ℕ
control v = htons (be16 v 12)

unfoldable pub window : TcpPacketView → ℕ
window v = htons (be16 v 14)

unfoldable pub checksum : TcpPacketView → ℕ
checksum v = htons (be16 v 16)

unfoldable pub urgent_pointer : TcpPacketView → ℕ
urgent_pointer v = htons (be16 v 18)

-- The getters in host order.
unfoldable pub source_port_ntoh : TcpPacketView → ℕ
source_port_ntoh v = be16 v 0

unfoldable pub dest_port_ntoh : TcpPacketView → ℕ
dest_port_ntoh v = be16 v 2

unfoldable pub seq_num_ntoh : TcpPacketView → ℕ
seq_num_ntoh v = be32 v 4

unfoldable pub ack_num_ntoh : TcpPacketView → ℕ
ack_num_ntoh v = be32 v 8

unfoldable pub data_offset : TcpPacketView → ℕ
data_offset v = u8 (be16 v 12 >>> 12)

unfoldable pub header_length : TcpPacketView → ℕ
unfolding data_offset
header_length v = u8 (data_offset v * 4)

unfoldable pub flags : TcpPacketView → ℕ
flags v = bit_and (be16 v 12) 0x3F

-- `(flags() >> bit) & 1`, as a `bool`
unfoldable pub flag : ℕ → TcpPacketView → Bool
unfolding flags
flag bit v = ltb 0 (bit_and (flags v >>> bit) 1)

abbrev pub urg : TcpPacketView → Bool
urg = flag 5

abbrev pub ack : TcpPacketView → Bool
ack = flag 4

abbrev pub psh : TcpPacketView → Bool
psh = flag 3

abbrev pub rst : TcpPacketView → Bool
rst = flag 2

abbrev pub syn : TcpPacketView → Bool
syn = flag 1

abbrev pub fin : TcpPacketView → Bool
fin = flag 0

unfoldable pub window_ntoh : TcpPacketView → ℕ
window_ntoh v = be16 v 14

unfoldable pub checksum_ntoh : TcpPacketView → ℕ
checksum_ntoh v = be16 v 16

unfoldable pub urgent_pointer_ntoh : TcpPacketView → ℕ
urgent_pointer_ntoh v = be16 v 18

unfoldable pub valid : TcpPacketView → Bool
valid v =
    leb min_length (length v)
    && leb min_length (header_length v)
    && leb (header_length v) (length v)

unfoldable pub payload : TcpPacketView → List ℕ
payload v = drop (header_length v) v

unfoldable pub parse : List ℕ → Option TcpPacketView
parse bytes = if valid bytes then some bytes else none

unfoldable pub size : TcpPacketView → ℕ
size v = length v

unfoldable pub control_ntoh : TcpPacketView → ℕ
control_ntoh v = be16 v 12
