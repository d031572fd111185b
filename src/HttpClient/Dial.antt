-- ===== src/HttpClient/Dial.antt =====
-- The address that the client connects to.
use tiny_cp.Base.{ℕ, ◌^◌, ◌<◌, ◌≡◌, refl, arith, [], ◌∷◌, some, false, ◌||◌, htonl, u16}
use native.Mathlib.Nat.{mod-eq_of_lt}
use tiny_cp.Text.{Bytes, codes, decimal, bytes_eq}
use tiny_cp.Text.Decimal.{Opens, stoi-decimal}
use tiny_cp.Address.Print.{
  print_ip, print_ip-Opens, no_colon-print_ip, parse_ip-print_ip, from_string-with_port,
}
use tiny_cp.HttpClient.{Target, Arguments, parse_arguments, target_endpoint, server_addr}

-- A text that begins with a digit is no option.
not_help : (s : Bytes) → Opens s → bytes_eq s (codes "--help") || bytes_eq s (codes "-h") ≡ false
not_help s o = rw (o.parts) (ground (arith, o.digit))

server_addr-print_ip :
    (t : Target) (raw : ℕ)
    → t.ip_str ≡ print_ip raw
    → t.port < 2 ^ 16
    → server_addr t ≡ record { address = htonl raw; port = t.port }
unfolding server_addr target_endpoint
server_addr-print_ip t raw named fits =
    rw
      (
        named,
        from_string-with_port (print_ip raw) t.port (no_colon-print_ip raw) fits,
        parse_ip-print_ip raw,
      )
      refl

-- Called with an address as `print_ip` writes it and a port in decimal, the client connects to
-- that address and that port, whatever path follows.
pub server_addr-parse_arguments :
    (raw port : ℕ) (path : Bytes)
    → port < 2 ^ 16
    → (t : Target) × (parse_arguments (print_ip raw ∷ decimal port ∷ path ∷ [])
        ≡ some (Arguments.fetch_from t))
      × (server_addr t ≡ record { address = htonl raw; port = port })
      × (t.path ≡ path)
unfolding parse_arguments
server_addr-parse_arguments raw port path fits =
    let t : Target = record {
      ip_str = print_ip raw;
      port = port;
      path = path;
      host_header = print_ip raw;
    } in
    let cast : u16 port ≡ port = mod-eq_of_lt fits in
    (
      t,
      rw (not_help (print_ip raw) (print_ip-Opens raw), stoi-decimal port (omega arith), cast) refl,
      server_addr-print_ip t raw refl fits,
      refl,
    )
