-- ===== src/Tun.antt =====
-- TunDevice.h and TunDevice.cpp: the network interface. The operating system is a parameter: what
-- its calls return.
pub mod Device
mod Tests
use tiny_cp.Base.{ℕ, ◌+◌, ◌-◌, ◌^◌, Bool, Option, none, some, List, [], u32, length, if◌then◌else◌}
use tiny_cp.Address.{Ipv4Address}

-- What the system calls of the interface return; `none` is a negative result.
pub record Os : Type 0 where
  -- `::write(fd, buf, len)`
  pub write : List ℕ → Option ℕ
  -- the address that `getifaddrs` lists for the interface, in host order
  pub interface_address : Option ℕ

-- What one `poll` finds: nothing, an event that is no input, or input, and then what `read` gives.
pub data Poll : Type 0 where
  idle other : Poll
  input : Option (List ℕ) → Poll

pub record TunDevice : Type 0 where
  pub is_open : Bool

-- A count as the code takes it, and the bytes that are in the buffer then.
abbrev pub Received : Type 0
Received = record { count : ℕ; bytes : List ℕ }

-- A failed `read` returns -1, which the cast makes the largest `size_t`.
unfoldable pub polled_read : Poll → Received
polled_read Poll.idle = record { count = 0; bytes = [] }
polled_read Poll.other = record { count = 0; bytes = [] }
polled_read (Poll.input none) = record { count = 2 ^ 64 - 1; bytes = [] }
polled_read (Poll.input (some bytes)) = record { count = length bytes; bytes = bytes }

unfoldable pub tun_read : TunDevice → Poll → Received
tun_read d poll = if d.is_open then polled_read poll else record { count = 0; bytes = [] }

-- `bytes > 0 ? bytes : 0`
abbrev positive : Option ℕ → ℕ
positive none = 0
positive (some n) = n

unfoldable pub tun_write : Os → TunDevice → List ℕ → ℕ
tun_write os d bytes = if d.is_open then positive (os.write bytes) else 0

-- The address after the interface's own, or 10.0.0.2.
abbrev pub usable : Option ℕ → ℕ
usable none = 0x0A000002
usable (some ip) = u32 (ip + 1)

unfoldable pub get_usable_ip_address : Os → Ipv4Address
get_usable_ip_address os = record { address = usable os.interface_address; port = 0 }
