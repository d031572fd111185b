-- ===== src/LoadTest/Tests.antt =====
-- The counters of two small streams.
use mathlib.Core.List.{Permᴰ}
use tiny_cp.Base.{◌≡◌, ◌<◌, ◌^◌, refl, arith, List, [], ◌∷◌, some, u64, ◌==◌, if◌then◌else◌, length}
use tiny_cp.Text.{codes}
use tiny_cp.LoadTest.{
  Add, Iteration, Options, default_config, parse_options, zero_counters, count, status, server_adds,
  single_client_adds, concurrent_client_adds, failed_add, fetch_add,
}
use tiny_cp.LoadTest.Threads.{client_sends, server_sends, marked}
use tiny_cp.LoadTest.Report.{Stream, all_adds, all_sends, all_answered, count-all_adds}

-- Nothing was sent, or read.
abbrev lost : Iteration
lost = record { sent = 0; got = 0 }

-- All of a payload of 4544 bytes was sent.
abbrev whole : Iteration
whole = record { sent = 4544; got = 4544 }

abbrev streams : Iteration → List Stream
streams i = record { client = i ∷ []; server = i ∷ [] } ∷ []

-- The server counts its send before the client has counted the answer.
abbrev schedule : List Add
schedule = Add.total ∷ Add.failed ∷ Add.total ∷ Add.completed ∷ Add.failed ∷ []

schedule_perm : Permᴰ schedule (all_adds (streams whole))
unfolding all_adds concurrent_client_adds server_adds failed_add
schedule_perm = Permᴰ.cons refl (Permᴰ.cons refl (Permᴰ.swap refl refl))

few_sends :
    (length (all_sends (streams whole)) < 2 ^ 64) × (marked (all_sends (streams whole)) < 2 ^ 64)
unfolding all_sends client_sends server_sends marked
few_sends = (omega arith, omega arith)

count-all_adds_example :
    ((count schedule zero_counters).total_sends ≡ length (all_sends (streams whole)))
    × ((count schedule zero_counters).completed_transactions ≡ u64 (all_answered (streams whole)))
    × (status (count schedule zero_counters)
        ≡ (if marked (all_sends (streams whole)) == 0 then codes "SUCCESS" else codes "DEGRADED"))
count-all_adds_example =
    count-all_adds (streams whole) schedule schedule_perm (few_sends.0) (few_sends.1)

-- A run in which every call fails is a success.
lost_succeeds :
    status (count (single_client_adds (lost ∷ lost ∷ [])) zero_counters) ≡ codes "SUCCESS"
unfolding status count single_client_adds failed_add fetch_add
lost_succeeds = refl

-- And one in which every call sends all is not, where the payload has 4544 bytes.
whole_degrades : status (count (single_client_adds (whole ∷ [])) zero_counters) ≡ codes "DEGRADED"
unfolding status count single_client_adds failed_add fetch_add
whole_degrades = refl

help_ends : parse_options (codes "--help" ∷ []) default_config ≡ some Options.help
unfolding parse_options
help_ends = refl
