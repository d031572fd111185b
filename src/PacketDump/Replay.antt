-- ===== src/PacketDump/Replay.antt =====
-- A capture file is the datagrams that `IPv4Packet::write` gave out, one behind the other.
use native.Mathlib.Nat.{zero-add}
use tiny_cp.Base.{
  ℕ, zero, suc, ◌+◌, ◌<◌, ◌≡◌, refl, sym, ap, ◌∙◌, arith, List, [], ◌∷◌, ◌++◌, some, length, drop,
  drop-drop, drop-append, length-append, lt→ltb,
}
use tiny_cp.Base.Memory.{Memory}
use tiny_cp.Text.{Bytes, codes, decimal}
use tiny_cp.Ipv4.Packet.{Ipv4Packet, outgoing}
use tiny_cp.Ipv4.RoundTrip.{CanWrite, Begins, datagram, datagram-Begins}
use tiny_cp.Ipv4.Print.{header_getters, print_ipv4_header, print_of_agreeing}
use tiny_cp.Ipv4.View
use tiny_cp.PacketDump.{dump_loop, dump_packet, dump_text, rounds, dump_from_file}

-- A packet with the span that it is written into.
pub record Capture : Type 0 where
  pub packet : Ipv4Packet
  pub capacity : ℕ
  pub span : Memory

abbrev pub datagram_of : Capture → List ℕ
datagram_of c = datagram c.packet c.capacity c.span

unfoldable pub file : List Capture → List ℕ
file [] = []
file (c ∷ cs) = datagram_of c ++ file cs

unfoldable pub AllCanWrite : List Capture → Type 0
AllCanWrite [] = Unit
AllCanWrite (c ∷ cs) = CanWrite c.packet c.capacity × AllCanWrite cs

-- The dump of each packet as it was sent.
unfoldable pub texts : List Capture → Bytes
texts [] = []
texts (c ∷ cs) =
    dump_text (print_ipv4_header header_getters (outgoing c.packet)) c.packet.payload ++ texts cs

dump_packet-Begins :
    (p : Ipv4Packet) (v rest : List ℕ)
    → Begins p v rest
    → dump_packet (v ++ rest) ≡ dump_text (print_ipv4_header header_getters (outgoing p)) p.payload
unfolding dump_packet
dump_packet-Begins p v rest b =
    rw (print_of_agreeing (v ++ rest) (outgoing p) b.fields, b.payload) refl

dump_loop-file :
    (cs : List Capture) (fuel : ℕ) (data_bytes : List ℕ) (offset count : ℕ)
    → AllCanWrite cs
    → drop offset data_bytes ≡ file cs
    → offset + length (file cs) ≡ length data_bytes
    → length (file cs) < fuel
    → dump_loop fuel data_bytes offset count
      ≡ some (record { out = texts cs; err = []; packet_count = count + length cs })
unfolding dump_loop file texts AllCanWrite
dump_loop-file cs zero data_bytes offset count can at whole enough = absurd (omega arith)
dump_loop-file [] (suc fuel) data_bytes offset count can at whole enough = ground arith
dump_loop-file (c ∷ cs) (suc fuel) data_bytes offset count can at whole enough =
    let v = datagram_of c in
    let b = datagram-Begins c.packet c.capacity c.span (file cs) (can.0) in
    let size = length-append v (file cs) in
    let next : drop (offset + View.total_length_ntoh (v ++ file cs)) data_bytes ≡ file cs =
      sym (drop-drop offset (View.total_length_ntoh (v ++ file cs)) data_bytes)
      ∙ ap (drop (View.total_length_ntoh (v ++ file cs))) at
      ∙ drop-append (View.total_length_ntoh (v ++ file cs)) v (file cs) (sym b.total) in
    let ih =
      dump_loop-file cs fuel data_bytes (offset + View.total_length_ntoh (v ++ file cs)) (suc count)
        (can.1) next (omega (arith, b.total)) (omega (arith, b.long)) in
    rw
      (
        lt→ltb offset (length data_bytes) (omega (arith, b.long)),
        at,
        b.accepted,
        ih,
        dump_packet-Begins c.packet v (file cs) b,
      )
      (ground arith)

-- A file that holds the datagrams `write` gave out for packets that can be written is printed
-- packet by packet: each as its header went out, with its payload, in their order; nothing is
-- skipped, the count is that of the packets, and the exit status is 0.
pub dump_from_file-file :
    (path : Bytes) (cs : List Capture)
    → AllCanWrite cs
    → dump_from_file path (some (file cs))
      ≡ some (record {
        status = 0;
        out = texts cs ++ (codes "Read " ++ (decimal (length cs) ++ codes " packet(s)\n"));
        err = [];
      })
unfolding dump_from_file
dump_from_file-file path cs can =
    let whole : 0 + length (file cs) ≡ length (file cs) = omega arith in
    rw
      (
        dump_loop-file cs (rounds (file cs)) (file cs) 0 0 can refl whole (omega arith),
        zero-add (length cs),
      )
      refl
