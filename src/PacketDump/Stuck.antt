-- ===== src/PacketDump/Stuck.antt =====
-- `DumpFromFile` at bytes that the view accepts and that declare a total length of 0.
use tiny_cp.Base.{ℕ, zero, suc, ◌+◌, ◌<◌, ◌≡◌, refl, arith, List, none, some, length, drop, lt→ltb}
use tiny_cp.Ipv4.View
use tiny_cp.PacketDump.{dump_loop}

-- At such bytes no number of rounds is enough: the loop stands where it is.
pub dump_loop-stuck :
    (fuel : ℕ) (data_bytes : List ℕ) (offset count : ℕ) (packet : List ℕ)
    → offset < length data_bytes
    → View.parse (drop offset data_bytes) ≡ some packet
    → View.total_length_ntoh packet ≡ 0
    → dump_loop fuel data_bytes offset count ≡ none
unfolding dump_loop
dump_loop-stuck zero data_bytes offset count packet more parsed empty = refl
dump_loop-stuck (suc fuel) data_bytes offset count packet more parsed empty =
    let same : offset + View.total_length_ntoh packet ≡ offset = omega (arith, empty) in
    rw
      (
        lt→ltb offset (length data_bytes) more,
        parsed,
        same,
        dump_loop-stuck fuel data_bytes offset (suc count) packet more parsed empty,
      )
      refl
