-- ===== src/PacketDump/Tests.antt =====
-- The packet dump at small files.
use mathlib.Core.Option.{none-ne-some, some_inj}
use tiny_cp.Base.{
  ℕ, ◌<◌, ◌≡◌, refl, sym, ◌∙◌, arith, length-drop, List, [], ◌∷◌, ◌++◌, none, some, length, drop,
}
use tiny_cp.Text.{codes, decimal, hex, digits, written, hex_digit}
use tiny_cp.Ipv4.View
use tiny_cp.PacketDump.{
  Exit, Command, dump_loop, dump_from_file, print_payload, print_bytes, command_of, rounds,
}
use tiny_cp.PacketDump.Loop.{here, behind, Leads-le, Advances, dump_from_file_returns}
use tiny_cp.PacketDump.Stuck.{dump_loop-stuck}
use tiny_cp.PacketDump.Replay.{Capture, file, texts, AllCanWrite, dump_from_file-file}
use tiny_cp.Ipv4.Header.{Ipv4Header, zero_header, version, header_length}
use tiny_cp.Ipv4.Packet.{header_len}
use tiny_cp.Ipv4.Mirror.{IsValid}

payload_text : print_payload (1 ∷ 255 ∷ []) ≡ codes "  Payload:         2 bytes\n    01 ff \n"
unfolding print_payload print_bytes written decimal digits hex hex_digit
payload_text = refl

no_payload : print_payload [] ≡ codes "  Payload:         0 bytes\n"
unfolding print_payload print_bytes written decimal
no_payload = refl

replay : command_of (codes "--file" ∷ codes "a" ∷ []) ≡ Command.from_file (codes "a")
unfolding command_of
replay = refl

missing_value : command_of (codes "--tun" ∷ []) ≡ Command.usage
unfolding command_of
missing_value = refl

-- Twenty bytes of version 4 whose header length and total length are 0.
abbrev hollow : List ℕ
hollow = 64 ∷ 0 ∷ 0 ∷ 0 ∷ 0 ∷ 0 ∷ 0 ∷ 0 ∷ 0 ∷ 0 ∷ 0 ∷ 0 ∷ 0 ∷ 0 ∷ 0 ∷ 0 ∷ 0 ∷ 0 ∷ 0 ∷ 0 ∷ []

hollow_accepted : View.parse hollow ≡ some hollow
unfolding View.parse View.valid View.version View.header_length View.ihl View.total_length_ntoh
    tiny_cp.Wire.be16
hollow_accepted = refl

hollow_total : View.total_length_ntoh hollow ≡ 0
unfolding View.total_length_ntoh tiny_cp.Wire.be16
hollow_total = refl

dump_loop-stuck_example : dump_loop (rounds hollow) hollow 0 0 ≡ none
dump_loop-stuck_example =
    dump_loop-stuck (rounds hollow) hollow 0 0 hollow (omega arith) hollow_accepted hollow_total

-- Four bytes that are no datagram.
abbrev junk : List ℕ
junk = 1 ∷ 2 ∷ 3 ∷ 4 ∷ []

short_rejected : (v : List ℕ) → length v < 20 → View.parse v ≡ none
unfolding View.parse View.valid
short_rejected v h = ground arith

-- A datagram of twenty bytes, and a byte behind it.
abbrev one_datagram : List ℕ
one_datagram =
    69 ∷ 0 ∷ 0 ∷ 20 ∷ 0 ∷ 0 ∷ 0 ∷ 0 ∷ 0 ∷ 0 ∷ 0 ∷ 0 ∷ 0 ∷ 0 ∷ 0 ∷ 0 ∷ 0 ∷ 0 ∷ 0 ∷ 0 ∷ 7 ∷ []

datagram_accepted :
    (packet : List ℕ) → View.parse one_datagram ≡ some packet → View.total_length_ntoh packet ≡ 20
unfolding View.parse View.valid View.version View.header_length View.ihl View.total_length_ntoh
    tiny_cp.Wire.be16
datagram_accepted packet e = rw (sym (some_inj.0 e)) refl

one_datagram-Advances : Advances one_datagram 0
unfolding Advances
one_datagram-Advances offset packet (here _) e = omega (arith, datagram_accepted packet e)
one_datagram-Advances offset packet (behind first e0 more) e =
    let past = Leads-le more in
    let moved = datagram_accepted first e0 in
    let rejected =
      short_rejected (drop offset one_datagram) (omega (arith, length-drop offset one_datagram)) in
    absurd (none-ne-some packet (sym rejected ∙ e))

dump_from_file_returns_example : (e : Exit) × (dump_from_file [] (some one_datagram) ≡ some e)
dump_from_file_returns_example = dump_from_file_returns [] one_datagram one_datagram-Advances

trailing_text :
    dump_from_file [] (some junk)
    ≡ some (record {
      status = 0;
      out = codes "Read 0 packet(s)\n";
      err = codes "Skipping 4 trailing bytes: not a valid IPv4 packet\n";
    })
unfolding dump_from_file dump_loop View.parse View.valid decimal digits
trailing_text = refl

abbrev header : Ipv4Header
header = record zero_header {
  version_ihl = 0x45;
  ttl = 64;
  protocol = 6;
  source_address = 0x0100007F;
  destination_address = 0x0200000A;
}

header-IsValid : IsValid header
header-IsValid = record {
  version_ihl_in = omega arith;
  type_of_service_in = omega arith;
  total_length_in = omega arith;
  identification_in = omega arith;
  flags_fragment_offset_in = omega arith;
  ttl_in = omega arith;
  protocol_in = omega arith;
  checksum_in = omega arith;
  source_address_in = omega arith;
  destination_address_in = omega arith;
}

abbrev capture_of : List ℕ → Capture
capture_of payload = record {
  packet = record { header = header; payload = payload };
  capacity = 64;
  span = λ _. 0;
}

abbrev two_packets : List Capture
two_packets = capture_of (72 ∷ 105 ∷ []) ∷ capture_of [] ∷ []

two_packets-AllCanWrite : AllCanWrite two_packets
unfolding AllCanWrite version header_len header_length tiny_cp.Ipv4.Header.ihl
two_packets-AllCanWrite = (
  record {
    fields = header-IsValid;
    four = refl;
    long = omega arith;
    fits = omega arith;
    small = omega arith;
  },
  (
    record {
      fields = header-IsValid;
      four = refl;
      long = omega arith;
      fits = omega arith;
      small = omega arith;
    },
    tt,
  ),
)

dump_from_file-file_example :
    dump_from_file [] (some (file two_packets))
    ≡ some (record {
      status = 0;
      out = texts two_packets ++ (codes "Read " ++ (decimal 2 ++ codes " packet(s)\n"));
      err = [];
    })
dump_from_file-file_example = dump_from_file-file [] two_packets two_packets-AllCanWrite
