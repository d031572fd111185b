-- ===== src/PacketDump.antt =====
-- PacketDump.cpp: the program that prints captured datagrams, from a file or from the interface.
-- What it writes is the value: standard output and standard error as texts, and the exit status.
pub mod Loop
pub mod Replay
pub mod Stuck
mod Tests
use tiny_cp.Base.{
  ℕ, zero, suc, ◌+◌, ◌-◌, ◌%◌, min, List, [], ◌∷◌, ◌++◌, Option, none, some, Bool, true, false,
  ◌&&◌, ◌||◌, ◌==◌, ltb, if◌then◌else◌, length, take, drop,
}
use tiny_cp.Base.Memory.{Memory, copy_n, span}
use tiny_cp.Text.{Bytes, codes, decimal, hex, written, when, bytes_eq}
use tiny_cp.Ipv4.View
use tiny_cp.Ipv4.View.{Ipv4PacketView}
use tiny_cp.Ipv4.Print.{view_getters, print_ipv4_header}
use tiny_cp.Tun.{TunDevice, Poll, Received, tun_read}

abbrev pub max_bytes : ℕ
max_bytes = 64

-- The loop over the bytes that are shown, from index `i`.
pub print_bytes : ℕ → ℕ → List ℕ → Bytes
print_bytes shown i [] = []
print_bytes shown i (b ∷ bs) =
    when (i % 16 == 0) (codes "    ")
    ++ (hex 2 b []
        ++ (codes " "
            ++ (when (i % 16 == 15 || i == shown - 1) (codes "\n")
                ++ print_bytes shown (i + 1) bs)))

pub print_payload : List ℕ → Bytes
unfolding written
print_payload payload =
    let shown = min (length payload) max_bytes in
    written (
      codes "  Payload:         "
      ∷ decimal (length payload)
      ∷ codes " bytes"
      ∷ when (ltb shown (length payload)) (codes " (showing first 64)")
      ∷ codes "\n"
      ∷ print_bytes shown 0 (take shown payload)
      ∷ [])

-- `DumpPacket`: the header as it is printed, and the payload.
unfoldable pub dump_text : Bytes → List ℕ → Bytes
dump_text header payload = header ++ (codes "\n" ++ (print_payload payload ++ codes "\n"))

unfoldable pub dump_packet : Ipv4PacketView → Bytes
dump_packet packet = dump_text (print_ipv4_header view_getters packet) (View.payload packet)

pub record Output : Type 0 where
  pub out : Bytes
  pub err : Bytes
  pub packet_count : ℕ

abbrev pub finished : ℕ → Output
finished count = record { out = []; err = []; packet_count = count }

-- `break` at bytes that are no datagram
abbrev pub trailing : ℕ → ℕ → Output
trailing left count = record {
  out = [];
  err = codes "Skipping " ++ (decimal left ++ codes " trailing bytes: not a valid IPv4 packet\n");
  packet_count = count;
}

abbrev pub print_before : Bytes → Option Output → Option Output
print_before text none = none
print_before text (some o) = some (record o { out = text ++ o.out })

-- One round at the bytes from `offset` on: what is done with a packet, or with what is none.
abbrev pub one_round :
    Option Ipv4PacketView → ℕ → ℕ → (Ipv4PacketView → Option Output) → Option Output
one_round none left count next = some (trailing left count)
one_round (some packet) left count next = print_before (dump_packet packet) (next packet)

-- `while (offset < data.size())`, for at most `fuel` rounds; `none` when they are used up.
unfoldable pub dump_loop : ℕ → List ℕ → ℕ → ℕ → Option Output
dump_loop zero data_bytes offset count = none
dump_loop (suc fuel) data_bytes offset count =
    let next = λ (packet : Ipv4PacketView).
      dump_loop fuel data_bytes (offset + View.total_length_ntoh packet) (suc count) in
    if ltb offset (length data_bytes)
    then one_round (View.parse (drop offset data_bytes)) (length data_bytes - offset) count next
    else some (finished count)

pub record Exit : Type 0 where
  pub status : ℕ
  pub out : Bytes
  pub err : Bytes

abbrev pub summary : Option Output → Option Exit
summary none = none
summary (some o) = some (record {
  status = 0;
  out = o.out ++ (codes "Read " ++ (decimal o.packet_count ++ codes " packet(s)\n"));
  err = o.err;
})

-- The rounds that a file is given: one more than it has bytes.
abbrev pub rounds : List ℕ → ℕ
rounds data_bytes = suc (length data_bytes)

-- `DumpFromFile`; the contents of the file are `none` where it cannot be opened.
unfoldable pub dump_from_file : Bytes → Option (List ℕ) → Option Exit
dump_from_file path none =
    some (record { status = 1; out = []; err = codes "Cannot open file: " ++ (path ++ codes "\n") })
dump_from_file path (some data_bytes) = summary (dump_loop (rounds data_bytes) data_bytes 0 0)

abbrev pub buffer_size : ℕ
buffer_size = 65536

-- What a round of `DumpFromTun` prints of the bytes that were read.
abbrev pub dump_read : ℕ → Option Ipv4PacketView → Output
dump_read count none = record {
  out = codes "Read " ++ (decimal count ++ codes " bytes\n");
  err = codes "Not a valid IPv4 packet, skipping\n";
  packet_count = 0;
}
dump_read count (some packet) = record {
  out = codes "Read " ++ (decimal count ++ (codes " bytes\n" ++ dump_packet packet));
  err = [];
  packet_count = 1;
}

-- One round of the endless loop of `DumpFromTun`: the buffer keeps the bytes of earlier rounds.
-- `tun_read` never gives more bytes than the buffer has, but for the count of a failed `read`.
unfoldable pub dump_tun_round : TunDevice → Poll → Memory → Output × Memory
dump_tun_round tun poll buf =
    let got = tun_read tun poll in
    let filled = copy_n got.bytes buf 0 in
    let output = dump_read got.count (View.parse (span filled 0 got.count)) in
    if got.count == 0 then (finished 0, filled) else (output, filled)

-- What `main` does for a command line, less the program's name.
pub data Command : Type 0 where
  from_tun : Bytes → Command
  from_file : Bytes → Command
  usage : Command

pub command_of : List Bytes → Command
command_of [] = Command.from_tun (codes "tun0")
command_of (flag ∷ value ∷ []) =
    if bytes_eq flag (codes "--file")
    then Command.from_file value
    else if bytes_eq flag (codes "--tun")
    then Command.from_tun value
    else Command.usage
command_of _ = Command.usage
