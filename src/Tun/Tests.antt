-- ===== src/Tun/Tests.antt =====
-- Two constructions of the interface.
use tiny_cp.Base.{◌≡◌, refl, [], ◌∷◌, none, some, false}
use tiny_cp.Text.{codes}
use tiny_cp.Tun.Device.{Driver, Construction, construct, tun_alloc, set_up, device_of}

abbrev granting : Driver
granting = record { open_tun = some 5; set_interface = λ name. some name }

abbrev refusing : Driver
refusing = record { open_tun = some 5; set_interface = λ name. none }

named :
    construct granting none
    ≡ Construction.constructs (record { fd = some 5; name = codes "tun0" }) []
unfolding construct tun_alloc set_up
named = refl

closed_early :
    construct refusing none
    ≡ Construction.constructs (record { fd = none; name = codes "tun0" }) (5 ∷ [])
unfolding construct tun_alloc set_up
closed_early = refl

shut : device_of (record { fd = none; name = [] }) ≡ record { is_open = false }
unfolding device_of
shut = refl
