-- ===== src/Ipv4/Checked.antt =====
-- The checksum that `IPv4Packet::write` puts into the header.
use tiny_cp.Base.{
  ℕ, ◌+◌, ◌^◌, ◌<◌, ◌≡◌, refl, ap, ◌∙◌, arith, ◌++◌, length, bytes16, bytes16-htons, bytes32,
}
use tiny_cp.Checksum.{ones_complement_checksum}
use tiny_cp.Checksum.Sum.{IsBytes}
use tiny_cp.Checksum.Verify.{
  with_word, ones_complement_checksum-lt, ones_complement_checksum_verifies,
}
use tiny_cp.Ipv4.Header.{Ipv4Header, front, back, serialize, set_checksum, compute_checksum}
use tiny_cp.Ipv4.Mirror.{IsValid}

serialize-set_checksum :
    (x : ℕ) (h : Ipv4Header)
    → x < 2 ^ 16
    → serialize (set_checksum x h) ≡ with_word (front h) x (back h)
unfolding serialize set_checksum
serialize-set_checksum x h lt = ap (λ w. front h ++ (w ++ back h)) (bytes16-htons x lt)

front-IsBytes : (h : Ipv4Header) → IsValid h → IsBytes (front h)
unfolding front bytes16
front-IsBytes h v = omega arith

back-IsBytes : (h : Ipv4Header) → IsBytes (back h)
unfolding back bytes32
back-IsBytes h = omega arith

length-parts : (h : Ipv4Header) → (length (front h) ≡ 5 + 5) × (length (back h) ≡ 8)
unfolding front back bytes16 bytes32
length-parts h = (refl, refl)

zeroed-IsBytes : (h : Ipv4Header) → IsValid h → IsBytes (with_word (front h) 0 (back h))
unfolding front back bytes16 bytes32
zeroed-IsBytes h v = omega arith

length-zeroed : (h : Ipv4Header) → length (with_word (front h) 0 (back h)) ≡ 20
unfolding front back bytes16 bytes32
length-zeroed h = refl

-- `set_checksum(compute_checksum())` makes a header whose own checksum is zero.
pub set_checksum_verifies :
    (h : Ipv4Header)
    → IsValid h
    → ones_complement_checksum (serialize (set_checksum (compute_checksum h) h)) ≡ 0
unfolding compute_checksum
set_checksum_verifies h v =
    let lt =
      ones_complement_checksum-lt (with_word (front h) 0 (back h)) (zeroed-IsBytes h v)
        (omega (arith, length-zeroed h)) in
    let parts = length-parts h in
    ap ones_complement_checksum (serialize-set_checksum (compute_checksum h) h lt)
    ∙ ones_complement_checksum_verifies 5 (front h) (back h) parts.0 (front-IsBytes h v)
        (back-IsBytes h) (omega (arith, parts))
