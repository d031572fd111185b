-- ===== src/HttpClient/Tests.antt =====
-- The client at one command line and one response.
use tiny_cp.Base.{ℕ, ◌≡◌, refl, arith, List, [], ◌∷◌, ◌++◌, some, true, htonl}
use tiny_cp.Text.{codes, decimal}
use tiny_cp.Address.Print.{print_ip}
use tiny_cp.HttpClient.{
  Target, Arguments, Fetched, default_target, parse_arguments, server_addr, request, fetch,
}
use tiny_cp.HttpClient.Dial.{server_addr-parse_arguments}
use tiny_cp.HttpClient.Response.{AllSome, stream, fetch-stream}

-- 10.0.0.3 in network order
server_addr-parse_arguments_example :
    (t : Target) × (parse_arguments (print_ip 0x0300000A ∷ decimal 8080 ∷ codes "/a" ∷ [])
      ≡ some (Arguments.fetch_from t))
    × (server_addr t ≡ record { address = htonl 0x0300000A; port = 8080 })
    × (t.path ≡ codes "/a")
server_addr-parse_arguments_example =
    server_addr-parse_arguments 0x0300000A 8080 (codes "/a") (omega arith)

abbrev chunks : List (List ℕ)
chunks = codes "HTTP" ∷ codes "/1.1" ∷ []

chunks-AllSome : AllSome chunks
unfolding AllSome
chunks-AllSome = (omega arith, (omega arith, tt))

fetch-stream_example :
    (f : Fetched) × (fetch default_target true 3 (chunks ++ ([] ∷ [])) ≡ some f)
    × (f.sent_request ≡ some (request default_target))
    × (f.response ≡ some (stream chunks))
    × (f.status ≡ 0)
fetch-stream_example = fetch-stream default_target 3 chunks [] chunks-AllSome

joined : stream chunks ≡ codes "HTTP/1.1"
unfolding stream
joined = refl

help_first : parse_arguments (codes "-h" ∷ codes "x" ∷ []) ≡ some Arguments.help
unfolding parse_arguments
help_first = refl
