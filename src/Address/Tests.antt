-- ===== src/Address/Tests.antt =====
-- `from_string` at texts that are addresses and at texts that are none.
use tiny_cp.Base.{◌≡◌, none, refl, htonl}
use tiny_cp.Text.{codes, digits, decimal, before, after}
use tiny_cp.Text.Stream.{
  extract, extract_char, read_number, read_sign, read_digits, skip_space, is_space, in_range, scan,
}
use tiny_cp.Tun.{get_usable_ip_address}
use tiny_cp.Address.{no_address}
use tiny_cp.Address.Parse.{from_string, parse_ip, parse_port, join_octets}
use tiny_cp.Address.Print.{print_ip, dotted}

print_text : print_ip 0x0200000A ≡ codes "10.0.0.2"
unfolding print_ip dotted decimal digits htonl
print_text = refl

with_a_port : from_string (codes "10.0.0.2:8080") ≡ record { address = 0x0A000002; port = 8080 }
unfolding from_string parse_ip parse_port join_octets before after extract extract_char read_number
    read_sign read_digits skip_space is_space in_range scan
with_a_port = refl

-- A port above the largest gives the largest.
large_port : from_string (codes "10.0.0.2:70000") ≡ record { address = 0x0A000002; port = 65535 }
unfolding from_string parse_ip parse_port join_octets before after extract extract_char read_number
    read_sign read_digits skip_space is_space in_range scan
large_port = refl

-- An octet above 255 runs into the next one.
large_octet : from_string (codes "10.0.1.256") ≡ record { address = 0x0A000100; port = 0 }
unfolding from_string parse_ip parse_port join_octets before after extract extract_char read_number
    read_sign read_digits skip_space is_space in_range scan
large_octet = refl

three_octets : from_string (codes "10.0.2") ≡ no_address
unfolding from_string parse_ip parse_port before after extract extract_char read_number read_sign
    read_digits skip_space is_space in_range scan
three_octets = refl

-- The address of an interface that has none.
fallback :
    from_string (codes "10.0.0.2")
    ≡ get_usable_ip_address (record { write = λ bytes. none; interface_address = none })
unfolding from_string parse_ip parse_port join_octets before after extract extract_char read_number
    read_sign read_digits skip_space is_space in_range scan get_usable_ip_address
fallback = refl
