-- ===== src/Benchmark.antt =====
-- throughput_benchmark.cpp: the program that streams bytes through a connection and compares the
-- checksums of what was sent and of what was received. What `send` and `recv` return, one call
-- after the other, is a parameter; the two threads share nothing else. Timing and the progress
-- display are left out.
pub mod Sum
pub mod Verified
mod Tests
use tiny_cp.Base.{
  ℕ, zero, suc, ◌+◌, ◌-◌, ◌*◌, ◌%◌, ◌^◌, min, List, [], ◌∷◌, ◌++◌, Option, none, some, Bool, true,
  false, ◌&&◌, ◌||◌, ◌==◌, ltb, leb, if◌then◌else◌, ◌>>=◌, length, take, u8, u32, u64,
}
use tiny_cp.Text.{Bytes, codes, bytes_eq}
use tiny_cp.Text.Stream.{stoul}

pub record BenchmarkConfig : Type 0 where
  pub total_mb : ℕ
  pub chunk_size : ℕ
  pub bidirectional : Bool

abbrev pub default_config : BenchmarkConfig
default_config = record { total_mb = 50; chunk_size = 16384; bidirectional = false }

-- `--help` ends the program at once.
pub data Options : Type 0 where
  run : BenchmarkConfig → Options
  help : Options

-- The options that need no value, and what is done with the arguments behind them.
abbrev plain_option : Bytes → BenchmarkConfig → (BenchmarkConfig → Option Options) → Option Options
plain_option arg config next =
    if bytes_eq arg (codes "--bidirectional")
    then next (record config { bidirectional = true })
    else if bytes_eq arg (codes "--help") || bytes_eq arg (codes "-h")
    then some Options.help
    else next config

-- The loop over the arguments; `none` is the exception of a `std::stoul` that reads no number.
pub parse_options : List Bytes → BenchmarkConfig → Option Options
parse_options [] config = some (Options.run config)
parse_options (arg ∷ []) config = plain_option arg config (λ c. some (Options.run c))
parse_options (arg ∷ value ∷ more) config =
    let skip = parse_options more in
    let next = parse_options (value ∷ more) in
    if bytes_eq arg (codes "--mb")
    then stoul value >>= (λ n. skip (record config { total_mb = n }))
    else if bytes_eq arg (codes "--gb")
    then stoul value >>= (λ n. skip (record config { total_mb = u64 (n * 1024) }))
    else if bytes_eq arg (codes "--chunk")
    then stoul value >>= (λ n. skip (record config { chunk_size = n }))
    else plain_option arg config next

unfoldable pub total_bytes : BenchmarkConfig → ℕ
total_bytes config = u64 (u64 (config.total_mb * 1024) * 1024)

-- `FastChecksum`
unfoldable pub fast_checksum : List ℕ → ℕ → ℕ
fast_checksum [] sum = sum
fast_checksum (b ∷ bs) sum = fast_checksum bs (u32 (sum * 31 + b))

-- The bytes of `tx_chunk` from index `i`, `n` of them.
pub tx_bytes : ℕ → ℕ → List ℕ
tx_bytes i zero = []
tx_bytes i (suc n) = u8 (i % 251 + 1) ∷ tx_bytes (i + 1) n

unfoldable pub tx_chunk : ℕ → List ℕ
tx_chunk chunk_size = tx_bytes 0 chunk_size

-- The variables of a thread: the bytes so far and their checksum.
pub record Progress : Type 0 where
  pub total : ℕ
  pub csum : ℕ

abbrev pub started : Progress
started = record { total = 0; csum = 0 }

-- `if (sent > 0) { ... }`
unfoldable pub count_sent : List ℕ → ℕ → Progress → Progress
count_sent chunk sent p =
    if ltb 0 sent
    then record { total = p.total + sent; csum = fast_checksum (take sent chunk) p.csum }
    else p

unfoldable pub count_received : List ℕ → Progress → Progress
count_received got p = record { total = p.total + length got; csum = fast_checksum got p.csum }

-- The loop of the client, for the calls of `send` that returned `counts`.
unfoldable pub client_loop : ℕ → List ℕ → List ℕ → Progress → Progress
client_loop total_size chunk [] p = p
client_loop total_size chunk (sent ∷ counts) p =
    let more = client_loop total_size chunk counts (count_sent chunk sent p) in
    if ltb p.total total_size then more else p

-- The loop of the server, for the calls of `recv` that gave `chunks`; one of no bytes is the end.
unfoldable pub server_loop : ℕ → List (List ℕ) → Progress → Progress
server_loop total_size [] p = p
server_loop total_size (got ∷ chunks) p =
    let more = server_loop total_size chunks (count_received got p) in
    if ltb p.total total_size then (if length got == 0 then p else more) else p

-- In the bidirectional mode each chunk is sent back.
unfoldable pub echoes : ℕ → List (List ℕ) → ℕ → List (List ℕ)
echoes total_size [] total = []
echoes total_size (got ∷ chunks) total =
    let more = echoes total_size chunks (total + length got) in
    if ltb total total_size then (if length got == 0 then [] else got ∷ more) else []

unfoldable pub checksum_match : Progress → Progress → ℕ → Bool
checksum_match tx rx total_size = tx.csum == rx.csum && rx.total == total_size
