-- ===== src/Benchmark/Tests.antt =====
-- The benchmark at a few bytes.
use tiny_cp.Base.{ℕ, ◌≡◌, ◌≢◌, refl, arith, List, [], ◌∷◌, ◌++◌, true, false, none, some, length}
use tiny_cp.Text.{Bytes, codes, bytes_eq}
use tiny_cp.Benchmark.{
  Options, default_config, parse_options, started, tx_chunk, tx_bytes, client_loop, server_loop,
  checksum_match, echoes,
}
use tiny_cp.Benchmark.Verified.{
  Sends, Receives, sent_bytes, received_bytes, checksum_match_of_stream, checksum_match_detects,
}

chunk_bytes : tx_chunk 4 ≡ 1 ∷ 2 ∷ 3 ∷ 4 ∷ []
unfolding tx_chunk tx_bytes
chunk_bytes = refl

help_ends :
    parse_options (codes "--bidirectional" ∷ codes "-h" ∷ []) default_config ≡ some Options.help
unfolding parse_options
help_ends = refl

-- An option that lacks its value is passed over.
no_value : parse_options (codes "--mb" ∷ []) default_config ≡ some (Options.run default_config)
unfolding parse_options
no_value = refl

bad_value : parse_options (codes "--mb" ∷ codes "x" ∷ []) default_config ≡ none
unfolding parse_options tiny_cp.Text.Stream.stoul tiny_cp.Text.Stream.read_number
    tiny_cp.Text.Stream.skip_space tiny_cp.Text.Stream.is_space tiny_cp.Text.Stream.read_sign
    tiny_cp.Text.Stream.read_digits
bad_value = refl

-- Two calls of `send`, of a chunk of three bytes and of its first two, arrive as four and one.
abbrev counts : List ℕ
counts = 3 ∷ 2 ∷ []

abbrev chunk : List ℕ
chunk = 1 ∷ 2 ∷ 3 ∷ []

abbrev chunks : ℕ → List (List ℕ)
chunks last = (1 ∷ 2 ∷ 3 ∷ 1 ∷ []) ∷ (last ∷ []) ∷ []

sends : Sends 5 chunk 0 counts
unfolding Sends
sends = (omega arith, omega arith, (omega arith, omega arith, tt))

receives : (last : ℕ) → Receives 5 6 0 (chunks last)
unfolding Receives
receives last = (omega arith, omega arith, omega arith, (omega arith, omega arith, omega arith, tt))

arrived : received_bytes (chunks 2) ≡ sent_bytes chunk counts
unfolding received_bytes sent_bytes
arrived = refl

all_sent : length (sent_bytes chunk counts) ≡ 5
unfolding sent_bytes
all_sent = refl

checksum_match_of_stream_example :
    checksum_match (client_loop 5 chunk counts started) (server_loop 5 (chunks 2) started) 5 ≡ true
checksum_match_of_stream_example =
    checksum_match_of_stream 5 6 chunk counts (chunks 2) sends (receives 2) arrived all_sent

four : List ℕ
four = 1 ∷ 2 ∷ 3 ∷ 1 ∷ []

sent_parts : sent_bytes chunk counts ≡ four ++ (2 ∷ [])
unfolding sent_bytes four
sent_parts = refl

received_parts : received_bytes (chunks 9) ≡ four ++ (9 ∷ [])
unfolding received_bytes four
received_parts = refl

apart : ◌≢◌ {A = ℕ} 2 9
apart = λ e. omega arith

checksum_match_detects_example :
    checksum_match (client_loop 5 chunk counts started) (server_loop 5 (chunks 9) started) 5 ≡ false
checksum_match_detects_example =
    checksum_match_detects 5 6 chunk counts (chunks 9) four [] 2 9 sends (receives 9) sent_parts
      received_parts (omega arith) (omega arith) apart

-- What is echoed ends with the bytes that were asked for.
echoed : echoes 4 (chunks 2) 0 ≡ (1 ∷ 2 ∷ 3 ∷ 1 ∷ []) ∷ []
unfolding echoes
echoed = refl
