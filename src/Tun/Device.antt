-- ===== src/Tun/Device.antt =====
-- TunDevice.cpp: the constructor, `tun_alloc` and the destructor. What `open` and `ioctl` return is
-- a parameter, and the descriptors that are closed are listed.
use tiny_cp.Base.{ℕ, ◌≡◌, refl, Bool, true, false, List, [], ◌∷◌, ◌++◌, Option, none, some, take}
use tiny_cp.Text.{Bytes, codes}
use tiny_cp.Tun.{TunDevice}

-- `open` gives a descriptor or fails; `ioctl(TUNSETIFF)` on a requested name gives the name of the
-- interface or fails.
pub record Driver : Type 0 where
  pub open_tun : Option ℕ
  pub set_interface : Bytes → Option Bytes

-- The fields `fd` and `name_`; a descriptor that is negative is `none`.
pub record Opened : Type 0 where
  pub fd : Option ℕ
  pub name : Bytes

-- What became of the process and its descriptors: `exit(1)`, or a device.
pub data Construction : Type 0 where
  exits : Construction
  constructs : Opened → (closed : List ℕ) → Construction

-- `sizeof(name_) - 1` and `sizeof(ifr.ifr_name)`
abbrev pub name_capacity : ℕ
name_capacity = 255

abbrev pub interface_capacity : ℕ
interface_capacity = 16

-- The rest of `tun_alloc` once the descriptor is open.
unfoldable pub set_up : ℕ → Bytes → Option Bytes → Construction
set_up fd_out dev none = Construction.constructs (record { fd = none; name = dev }) (fd_out ∷ [])
set_up fd_out dev (some name) =
    Construction.constructs (record { fd = some fd_out; name = name }) []

unfoldable pub tun_alloc : Driver → Bytes → Option ℕ → Construction
tun_alloc driver dev none = Construction.exits
tun_alloc driver dev (some fd_out) =
    set_up fd_out dev (driver.set_interface (take interface_capacity dev))

-- `name_` before `tun_alloc`: no name is `tun0`.
abbrev pub requested_name : Option Bytes → Bytes
requested_name none = codes "tun0"
requested_name (some dev_name) = take name_capacity dev_name

unfoldable pub construct : Driver → Option Bytes → Construction
construct driver dev_name = tun_alloc driver (requested_name dev_name) driver.open_tun

-- `~TunDevice()`: the descriptors that it closes.
unfoldable pub destruct : Opened → List ℕ
destruct device = elim (device.fd) [ none ↦ [] | some fd ↦ fd ∷ [] ]

-- What `tun_read` and `tun_write` test.
abbrev pub is_open : Option ℕ → Bool
is_open none = false
is_open (some fd) = true

unfoldable pub device_of : Opened → TunDevice
device_of device = record { is_open = is_open device.fd }

abbrev pub opened : Option ℕ → List ℕ
opened none = []
opened (some fd) = fd ∷ []

-- The descriptors that are closed over the life of a device.
unfoldable pub closed_by : Construction → List ℕ
closed_by Construction.exits = []
closed_by (Construction.constructs device closed) = closed ++ destruct device

closed_by-set_up :
    (fd : ℕ) (dev : Bytes) (name : Option Bytes) → closed_by (set_up fd dev name) ≡ fd ∷ []
unfolding closed_by set_up destruct
closed_by-set_up fd dev none = refl
closed_by-set_up fd dev (some name) = refl

closed_by-tun_alloc :
    (driver : Driver) (dev : Bytes) (o : Option ℕ) → closed_by (tun_alloc driver dev o) ≡ opened o
unfolding closed_by tun_alloc
closed_by-tun_alloc driver dev none = refl
closed_by-tun_alloc driver dev (some fd) =
    closed_by-set_up fd dev (driver.set_interface (take interface_capacity dev))

-- Whether the `ioctl` succeeds or not, the descriptor that `open` gave is closed once over the
-- life of the device, and no other is closed.
pub closed_by-construct :
    (driver : Driver) (dev_name : Option Bytes)
    → closed_by (construct driver dev_name) ≡ opened driver.open_tun
unfolding construct
closed_by-construct driver dev_name =
    closed_by-tun_alloc driver (requested_name dev_name) driver.open_tun
