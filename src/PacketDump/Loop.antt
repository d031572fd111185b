-- ===== src/PacketDump/Loop.antt =====
-- When the loop of `DumpFromFile` ends.
use tiny_cp.Base.{
  ℕ, zero, suc, ◌+◌, ◌-◌, ◌<◌, ◌≤◌, ◌≡◌, refl, ap, arith, List, ◌++◌, Option, some, length, drop,
  ltb, Bool-cases, inl, inr, Option-cases, ltb→lt,
}
use tiny_cp.Ipv4.View
use tiny_cp.PacketDump.{
  Output, Exit, dump_loop, dump_packet, print_before, trailing, finished, summary, dump_from_file,
  rounds,
}
use tiny_cp.Text.{Bytes, codes, decimal}

-- The offsets that the loop comes to from an offset: each lies behind a datagram of the file, as far
-- as that datagram declares.
pub data Leads (data_bytes : List ℕ) : ℕ → ℕ → Type 0 where
  here : (offset : ℕ) → Leads data_bytes offset offset
  behind :
      {offset last : ℕ} (packet : List ℕ)
      → View.parse (drop offset data_bytes) ≡ some packet
      → Leads data_bytes (offset + View.total_length_ntoh packet) last
      → Leads data_bytes offset last

pub Leads-le : {data_bytes : List ℕ} {first last : ℕ} → Leads data_bytes first last → first ≤ last
Leads-le (here offset) = omega arith
Leads-le (behind packet e more) = omega (arith, Leads-le more)

-- Every datagram that the loop comes to from an offset declares some length.
unfoldable pub Advances : List ℕ → ℕ → Type 0
Advances data_bytes first =
    (offset : ℕ) (packet : List ℕ)
    → Leads data_bytes first offset
    → View.parse (drop offset data_bytes) ≡ some packet
    → 0 < View.total_length_ntoh packet

abbrev Ends : Option Output → Type 0
Ends o = (r : Output) × (o ≡ some r)

print_before-Ends : (text : Bytes) (o : Option Output) → Ends o → Ends (print_before text o)
print_before-Ends text o (r, e) = (record r { out = text ++ r.out }, ap (print_before text) e)

dump_loop-Ends :
    (fuel : ℕ) (data_bytes : List ℕ) (offset count : ℕ)
    → Advances data_bytes offset
    → length data_bytes - offset < fuel
    → Ends (dump_loop fuel data_bytes offset count)
unfolding dump_loop Advances
dump_loop-Ends zero data_bytes offset count adv enough = absurd (omega arith)
dump_loop-Ends (suc fuel) data_bytes offset count adv enough =
    elim (Bool-cases (ltb offset (length data_bytes))) [
      | inr h ↦ (finished count, rw h refl)
      | inl h ↦ elim (Option-cases (View.parse (drop offset data_bytes))) [
        | inl e ↦ (trailing (length data_bytes - offset) count, rw (h, e) refl)
        | inr (packet, e) ↦
            let more = ltb→lt _ _ h in
            let moved = adv offset packet (here offset) e in
            let ih =
              dump_loop-Ends fuel data_bytes (offset + View.total_length_ntoh packet) (suc count)
                (λ last p more. adv last p (behind packet e more)) (omega (arith, moved)) in
            rw (h, e) (print_before-Ends (dump_packet packet) _ ih)
      ]
    ]

-- Where every datagram that the loop comes to, from the start of the file, declares some length, it
-- ends within its rounds, and `DumpFromFile` returns.
pub dump_from_file_returns :
    (path : Bytes) (data_bytes : List ℕ)
    → Advances data_bytes 0
    → (e : Exit) × (dump_from_file path (some data_bytes) ≡ some e)
unfolding dump_from_file
dump_from_file_returns path data_bytes adv =
    let (r, e) = dump_loop-Ends (rounds data_bytes) data_bytes 0 0 adv (omega arith) in
    (
      record {
        status = 0;
        out = r.out ++ (codes "Read " ++ (decimal r.packet_count ++ codes " packet(s)\n"));
        err = r.err;
      },
      ap summary e,
    )
