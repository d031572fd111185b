-- ===== src/LoadTest.antt =====
-- load_test.cpp: the program that counts what many echoing connections do. What `send` and `recv`
-- return in each iteration is a parameter; the threads share atomic counters only, and a schedule
-- is the order in which their additions take place. Rates and times are left out.
pub mod Counting
pub mod Threads
pub mod Report
mod Tests
use tiny_cp.Base.{
  ℕ, ◌+◌, List, [], ◌∷◌, ◌++◌, Option, none, some, Bool, true, false, ◌||◌, ◌==◌, ltb,
  if◌then◌else◌, ◌>>=◌, u64,
}
use tiny_cp.Text.{Bytes, codes, bytes_eq}
use tiny_cp.Text.Stream.{stoul}

pub record LoadTestConfig : Type 0 where
  pub single_stream_iterations : ℕ
  pub concurrent_streams : ℕ
  pub concurrent_iterations_per_stream : ℕ
  pub payload_size : ℕ

abbrev pub default_config : LoadTestConfig
default_config = record {
  single_stream_iterations = 1000;
  concurrent_streams = 8;
  concurrent_iterations_per_stream = 100;
  payload_size = 64;
}

-- `--help` ends the program at once.
pub data Options : Type 0 where
  run : LoadTestConfig → Options
  help : Options

abbrev last_option : Bytes → LoadTestConfig → (LoadTestConfig → Option Options) → Option Options
last_option arg config next =
    if bytes_eq arg (codes "--help") || bytes_eq arg (codes "-h")
    then some Options.help
    else next config

-- The loop over the arguments; `none` is the exception of a `std::stoul` that reads no number.
pub parse_options : List Bytes → LoadTestConfig → Option Options
parse_options [] config = some (Options.run config)
parse_options (arg ∷ []) config = last_option arg config (λ c. some (Options.run c))
parse_options (arg ∷ value ∷ more) config =
    let skip = parse_options more in
    let next = parse_options (value ∷ more) in
    if bytes_eq arg (codes "--iterations")
    then stoul value >>= (λ n. skip (record config { single_stream_iterations = n }))
    else if bytes_eq arg (codes "--streams")
    then stoul value >>= (λ n. skip (record config { concurrent_streams = n }))
    else if bytes_eq arg (codes "--per-stream")
    then stoul value >>= (λ n. skip (record config { concurrent_iterations_per_stream = n }))
    else if bytes_eq arg (codes "--payload")
    then stoul value >>= (λ n. skip (record config { payload_size = n }))
    else last_option arg config next

-- What `send` and `recv` return in one iteration of a thread.
pub record Iteration : Type 0 where
  pub sent : ℕ
  pub got : ℕ

-- A `fetch_add(1)` on one of the counters.
pub data Add : Type 0 where
  total failed completed : Add

abbrev pub marker : ℕ
marker = 4544

unfoldable pub failed_add : ℕ → List Add
failed_add sent = if sent == marker then Add.failed ∷ [] else []

-- The additions of the server's thread, in both phases.
unfoldable pub server_adds : List Iteration → List Add
server_adds [] = []
server_adds (i ∷ more) =
    let rest = server_adds more in
    if ltb 0 i.got then Add.total ∷ (failed_add i.sent ++ rest) else rest

-- The additions of the client's thread: in the second phase an answer completes a transaction.
unfoldable pub single_client_adds : List Iteration → List Add
single_client_adds [] = []
single_client_adds (i ∷ more) = Add.total ∷ (failed_add i.sent ++ single_client_adds more)

unfoldable pub concurrent_client_adds : List Iteration → List Add
concurrent_client_adds [] = []
concurrent_client_adds (i ∷ more) =
    let rest = concurrent_client_adds more in
    Add.total ∷ (failed_add i.sent ++ (if ltb 0 i.got then Add.completed ∷ rest else rest))

pub record Counters : Type 0 where
  pub total_sends : ℕ
  pub failed_sends : ℕ
  pub completed_transactions : ℕ

abbrev pub zero_counters : Counters
zero_counters = record { total_sends = 0; failed_sends = 0; completed_transactions = 0 }

unfoldable pub fetch_add : Add → Counters → Counters
fetch_add Add.total c = record c { total_sends = u64 (c.total_sends + 1) }
fetch_add Add.failed c = record c { failed_sends = u64 (c.failed_sends + 1) }
fetch_add Add.completed c = record c { completed_transactions = u64 (c.completed_transactions + 1) }

-- The counters once all threads are joined.
unfoldable pub count : List Add → Counters → Counters
count [] c = c
count (a ∷ schedule) c = count schedule (fetch_add a c)

unfoldable pub status : Counters → Bytes
status c = if c.failed_sends == 0 then codes "SUCCESS" else codes "DEGRADED"
