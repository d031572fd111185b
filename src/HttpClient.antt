-- ===== src/HttpClient.antt =====
-- http_client.cpp: the program that fetches a page. What the socket's calls return is a
-- parameter; the banners and the timing are left out.
pub mod Dial
pub mod Response
mod Tests
use tiny_cp.Base.{
  ℕ, zero, suc, ◌+◌, ◌-◌, ◌^◌, List, [], ◌∷◌, ◌++◌, Option, none, some, Bool, true, false, not,
  ◌||◌, ◌==◌, if◌then◌else◌, ◌>>=◌, length, u16,
}
use tiny_cp.Text.{Bytes, codes, decimal, written, bytes_eq, when}
use tiny_cp.Text.Stream.{stoi}
use tiny_cp.Address.{Ipv4Address}
use tiny_cp.Address.Parse.{from_string}

-- The variables that the arguments set.
pub record Target : Type 0 where
  pub ip_str : Bytes
  pub port : ℕ
  pub path : Bytes
  pub host_header : Bytes

abbrev pub default_target : Target
default_target = record {
  ip_str = codes "172.217.171.174";
  port = 80;
  path = codes "/";
  host_header = codes "google.com";
}

-- `static_cast<uint16_t>(...)` of an `int`
abbrev pub to_port : Bool × ℕ → ℕ
to_port (negative, n) = if negative then u16 (2 ^ 32 - n) else u16 n

pub data Arguments : Type 0 where
  fetch_from : Target → Arguments
  help : Arguments

-- The arguments behind the address, whose text is also the default of the `Host` header.
abbrev pub parse_rest : Bytes → List Bytes → Option Target
parse_rest ip [] = some (record default_target { ip_str = ip; host_header = ip })
parse_rest ip (port ∷ []) = stoi port >>= λ p.
    some (record default_target { ip_str = ip; port = to_port p; host_header = ip })
parse_rest ip (port ∷ path ∷ []) = stoi port >>= λ p.
    some (record { ip_str = ip; port = to_port p; path = path; host_header = ip })
parse_rest ip (port ∷ path ∷ host ∷ _) = stoi port >>= λ p.
    some (record { ip_str = ip; port = to_port p; path = path; host_header = host })

-- `none` is the exception of a `std::stoi` that reads no number.
unfoldable pub parse_arguments : List Bytes → Option Arguments
parse_arguments [] = some (Arguments.fetch_from default_target)
parse_arguments (ip ∷ rest) =
    if bytes_eq ip (codes "--help") || bytes_eq ip (codes "-h")
    then some Arguments.help
    else parse_rest ip rest >>= λ t. some (Arguments.fetch_from t)

unfoldable pub target_endpoint : Target → Bytes
target_endpoint t = t.ip_str ++ (b':' ∷ decimal t.port)

unfoldable pub server_addr : Target → Ipv4Address
server_addr t = from_string (target_endpoint t)

unfoldable pub request : Target → Bytes
unfolding written
request t = written (
    codes "GET "
    ∷ t.path
    ∷ codes " HTTP/1.1\r\n"
    ∷ codes "Host: "
    ∷ t.host_header
    ∷ codes "\r\n"
    ∷ codes "User-Agent: TinyCP/1.0 (Educational TCP Stack)\r\n"
    ∷ codes "Accept: */*\r\n"
    ∷ codes "Connection: close\r\n\r\n"
    ∷ [])

-- The loop over `recv`: the bytes before the first call that gives none; `none` while there was
-- no such call yet.
unfoldable pub receive : List (List ℕ) → List ℕ → Option (List ℕ)
receive [] response_data = none
receive (got ∷ chunks) response_data =
    let more = receive chunks (response_data ++ got) in
    if length got == 0 then some response_data else more

-- What the program does once `connect` has returned: the bytes it gives to `send`, the warning
-- about a short count, the response it prints, and the exit status.
pub record Fetched : Type 0 where
  pub sent_request : Option Bytes
  pub warning : Bytes
  pub response : Option (List ℕ)
  pub status : ℕ

abbrev pub short_count : ℕ → Bytes → Bytes
short_count sent text = when (not (sent == length text)) (
    codes "Warning: Only "
    ++ (decimal sent ++ (codes " of " ++ (decimal (length text) ++ codes " bytes sent."))))

abbrev fetched : Target → ℕ → Option (List ℕ) → Option Fetched
fetched t sent none = none
fetched t sent (some body) = some (record {
  sent_request = some (request t);
  warning = short_count sent (request t);
  response = some body;
  status = 0;
})

-- `established` is whether the state is ESTABLISHED then, `sent` what `send` returned.
pub fetch : Target → Bool → ℕ → List (List ℕ) → Option Fetched
fetch t established sent chunks =
    if established
    then fetched t sent (receive chunks [])
    else some (record { sent_request = none; warning = []; response = none; status = 1 })
