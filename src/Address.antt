-- ===== src/Address.antt =====
-- IPv4.h: the struct `IPv4Address`, an address and a port, and its `operator==`.
pub mod Parse
pub mod Print
mod Tests
use mathlib.Core.Logic.{◌↔◌}
use tiny_cp.Base.{ℕ, ◌<◌, ◌^◌, Bool, true, ◌&&◌, ◌==◌, ◌≡◌, arith}
use tiny_cp.Base.Map.{Eq}

pub record Ipv4Address : Type 0 where
  pub address : ℕ
  pub port : ℕ

-- `IPv4Address{}`
abbrev pub no_address : Ipv4Address
no_address = record { address = 0; port = 0 }

-- `operator==` by default: field by field.
abbrev pub address_eq : Ipv4Address → Ipv4Address → Bool
address_eq a b = a.address == b.address && a.port == b.port

pub address_eq_iff : (a b : Ipv4Address) → (address_eq a b ≡ true) ↔ (a ≡ b)
address_eq_iff a b = ground arith

instance abbrev pub ipv4_address_eq : Eq Ipv4Address
ipv4_address_eq = record { beq = address_eq; beq_iff = address_eq_iff }

-- An endpoint whose address and port fit their types.
pub record IsEndpoint (a : Ipv4Address) : Type 0 where
  pub address_in : a.address < 2 ^ 32
  pub port_in : a.port < 2 ^ 16

pub no_address-IsEndpoint : IsEndpoint no_address
no_address-IsEndpoint = record { address_in = omega arith; port_in = omega arith }
