-- ===== src/Address/Parse.antt =====
-- IPv4.h: `IPv4Address::from_string`.

use tiny_cp.Base.{
  ℕ, ◌^◌, ◌-◌, ◌&&◌, Option, none, some, bit_or, u32, ◌<<◌, ◌==◌, ◌>>=◌, if◌then◌else◌,
}
use tiny_cp.Text.{Bytes, before, after}
use tiny_cp.Text.Stream.{read_number, extract, extract_char}
use tiny_cp.Address.{Ipv4Address, no_address}

abbrev pub max_uint32 : ℕ
max_uint32 = 2 ^ 32 - 1

abbrev pub max_uint16 : ℕ
max_uint16 = 2 ^ 16 - 1

-- `(a << 24) | (b << 16) | (c << 8) | d` in 32 bits
unfoldable pub join_octets : ℕ → ℕ → ℕ → ℕ → ℕ
join_octets a b c d = bit_or (bit_or (bit_or (u32 (a << 24)) (u32 (b << 16))) (u32 (c << 8))) d

-- `ss >> a >> dot1 >> b >> dot2 >> c >> dot3 >> d`, and the test of the three characters.
unfoldable pub parse_ip : Bytes → Option ℕ
parse_ip s0 = do
  a ← extract max_uint32 s0
  dot1 ← extract_char (a.1)
  b ← extract max_uint32 (dot1.1)
  dot2 ← extract_char (b.1)
  c ← extract max_uint32 (dot2.1)
  dot3 ← extract_char (c.1)
  d ← extract max_uint32 (dot3.1)
  if dot1.0 == b'.' && dot2.0 == b'.' && dot3.0 == b'.'
      then some (join_octets (a.0) (b.0) (c.0) (d.0))
      else none

-- `p_ss >> p`: also a failed extraction stores a number, 0 or the largest.
unfoldable pub parse_port : Option Bytes → ℕ
parse_port none = 0
parse_port (some s) = (read_number max_uint16 s).value

abbrev pub with_port : ℕ → Option ℕ → Ipv4Address
with_port p none = no_address
with_port p (some ip) = record { address = ip; port = p }

unfoldable pub from_string : Bytes → Ipv4Address
from_string str = with_port (parse_port (after b':' str)) (parse_ip (before b':' str))
