-- ===== src/Address/Print.antt =====
-- IPv4Packet.cpp: the lambda `print_ip` of `PrintIPv4Header`, and what `from_string` reads from
-- the text that it writes.
use tiny_cp.Base.{
  ℕ, ◌+◌, ◌*◌, ◌/◌, ◌%◌, ◌^◌, ◌<◌, ◌≡◌, refl, ap, sym, ◌∙◌, arith, some, false, ◌++◌, ◌∷◌, [],
  htonl, htonl-lt, bit_and, ◌>>>◌, ◌<<◌,
}
use tiny_cp.Base.Bits.{and_mask}
use tiny_cp.Wire.{or_of_bytes}
use tiny_cp.Text.{Bytes, decimal, has}
use mathlib.Core.List.{append-nil}
use native.Mathlib.Nat.{mod-eq_of_lt}
use tiny_cp.Text.Split.{has-append, before-append, after-append, before_whole, after_whole}
use tiny_cp.Text.Stream.{extract, extract_char, skip_space, is_space}
use tiny_cp.Text.Decimal.{
  Ends, Opens, decimal-Opens, extract-decimal, read_number-decimal, has-decimal,
}
use tiny_cp.Address.Parse.{
  from_string, parse_ip, parse_port, join_octets, with_port, max_uint32, max_uint16,
}

-- Four numbers with dots between them.
unfoldable pub dotted : ℕ → ℕ → ℕ → ℕ → Bytes
dotted a b c d = decimal a ++ (b'.' ∷ decimal b ++ (b'.' ∷ decimal c ++ (b'.' ∷ decimal d)))

-- The address is in network order.
unfoldable pub print_ip : ℕ → Bytes
unfolding dotted
print_ip raw =
    let address = htonl raw in
    dotted (bit_and (address >>> 24) 0xFF) (bit_and (address >>> 16) 0xFF)
      (bit_and (address >>> 8) 0xFF) (bit_and address 0xFF)

extract_dot : (s : Bytes) → extract_char (b'.' ∷ s) ≡ some (b'.', s)
unfolding extract_char skip_space is_space
extract_dot s = refl

octet :
    (a : ℕ) (rest : Bytes)
    → a < 256
    → Ends rest
    → extract max_uint32 (decimal a ++ rest) ≡ some (a, rest)
octet a rest h ends = extract-decimal max_uint32 a rest (omega arith) (omega arith) ends

octet_last : (a : ℕ) → a < 256 → extract max_uint32 (decimal a) ≡ some (a, [])
octet_last a h = ap (extract max_uint32) (sym (append-nil (decimal a))) ∙ octet a [] h tt

parse_ip-dotted :
    (a b c d : ℕ)
    → a < 256
    → b < 256
    → c < 256
    → d < 256
    → parse_ip (dotted a b c d) ≡ some (join_octets a b c d)
unfolding parse_ip dotted
parse_ip-dotted a b c d ha hb hc hd =
    let d_text = b'.' ∷ decimal d in
    let c_text = b'.' ∷ decimal c ++ d_text in
    let b_text = b'.' ∷ decimal b ++ c_text in
    rw
      (
        octet a b_text ha refl,
        extract_dot (decimal b ++ c_text),
        octet b c_text hb refl,
        extract_dot (decimal c ++ d_text),
        octet c d_text hc refl,
        extract_dot (decimal d),
        octet_last d hd,
      )
      refl

no_colon-dotted : (a b c d : ℕ) → has b':' (dotted a b c d) ≡ false
unfolding dotted has
no_colon-dotted a b c d =
    let absent = λ (n : ℕ). has-decimal b':' n refl in
    rw
      (
        has-append b':' (decimal a),
        has-append b':' (decimal b),
        has-append b':' (decimal c),
        absent a,
        absent b,
        absent c,
        absent d,
      )
      refl

join_octets-lem :
    (a b c d : ℕ)
    → a < 256
    → b < 256
    → c < 256
    → d < 256
    → join_octets a b c d ≡ a * 2 ^ 24 + b * 2 ^ 16 + c * 256 + d
unfolding join_octets
join_octets-lem a b c d ha hb hc hd =
    let fits = λ (n : ℕ) (h : n < 2 ^ 32). mod-eq_of_lt h in
    rw (fits (a << 24) (omega arith), fits (b << 16) (omega arith), fits (c << 8) (omega arith))
      (or_of_bytes a b c d ha hb hc hd)

octets_of :
    (ip : ℕ)
    → ip < 2 ^ 32
    → join_octets (ip / 2 ^ 24 % 256) (ip / 2 ^ 16 % 256) (ip / 2 ^ 8 % 256) (ip % 256) ≡ ip
octets_of ip h = omega (
  arith,
  join_octets-lem (ip / 2 ^ 24 % 256) (ip / 2 ^ 16 % 256) (ip / 2 ^ 8 % 256) (ip % 256)
      (omega arith) (omega arith) (omega arith) (omega arith),
)

print_ip-dotted :
    (raw : ℕ)
    → print_ip raw
      ≡ dotted
          (htonl raw / 2 ^ 24 % 256)
          (htonl raw / 2 ^ 16 % 256)
          (htonl raw / 2 ^ 8 % 256)
          (htonl raw % 256)
unfolding print_ip
print_ip-dotted raw =
    let low = and_mask 8 in
    rw (low (htonl raw >>> 24), low (htonl raw >>> 16), low (htonl raw >>> 8), low (htonl raw)) refl

-- What is read from a text without a colon, alone and with a port behind a colon.
pub from_string-no_port :
    (s : Bytes) → has b':' s ≡ false → from_string s ≡ with_port 0 (parse_ip s)
unfolding from_string parse_port
from_string-no_port s h = rw (before_whole b':' s h, after_whole b':' s h) refl

pub from_string-with_port :
    (s : Bytes) (port : ℕ)
    → has b':' s ≡ false
    → port < 2 ^ 16
    → from_string (s ++ (b':' ∷ decimal port)) ≡ with_port port (parse_ip s)
unfolding from_string parse_port
from_string-with_port s port h fits =
    rw
      (
        before-append b':' s (decimal port) h,
        after-append b':' s (decimal port) h,
        read_number-decimal max_uint16 port (omega arith) (omega arith),
      )
      refl

-- The text of an address has no colon, and it is read as that address.
pub no_colon-print_ip : (raw : ℕ) → has b':' (print_ip raw) ≡ false
no_colon-print_ip raw = rw (print_ip-dotted raw) (no_colon-dotted _ _ _ _)

pub parse_ip-print_ip : (raw : ℕ) → parse_ip (print_ip raw) ≡ some (htonl raw)
parse_ip-print_ip raw =
    let ip = htonl raw in
    rw
      (
        print_ip-dotted raw,
        parse_ip-dotted (ip / 2 ^ 24 % 256) (ip / 2 ^ 16 % 256) (ip / 2 ^ 8 % 256) (ip % 256)
            (omega arith) (omega arith) (omega arith) (omega arith),
        octets_of ip (htonl-lt raw),
      )
      refl

-- The text that `print_ip` writes of an address in network order is read by `from_string` as that
-- address in host order, with port 0.
pub from_string-print_ip :
    (raw : ℕ) → from_string (print_ip raw) ≡ record { address = htonl raw; port = 0 }
from_string-print_ip raw =
    rw (from_string-no_port (print_ip raw) (no_colon-print_ip raw), parse_ip-print_ip raw) refl

pub print_ip-Opens : (raw : ℕ) → Opens (print_ip raw)
unfolding dotted
print_ip-Opens raw = rw (print_ip-dotted raw) (decimal-Opens _ _ (omega arith))
