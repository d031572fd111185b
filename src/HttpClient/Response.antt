-- ===== src/HttpClient/Response.antt =====
-- What the client prints as the response.
use mathlib.Core.List.{append_assoc, append-nil}
use tiny_cp.Base.{
  ℕ, ◌<◌, ◌≡◌, refl, sym, ap, arith, List, [], ◌∷◌, ◌++◌, some, true, false, ◌==◌, length,
}
use tiny_cp.HttpClient.{Target, Fetched, fetch, request, receive, short_count}

-- Each of the calls of `recv` gave some bytes.
unfoldable pub AllSome : List (List ℕ) → Type 0
AllSome [] = Unit
AllSome (got ∷ chunks) = (0 < length got) × AllSome chunks

unfoldable pub stream : List (List ℕ) → List ℕ
stream [] = []
stream (got ∷ chunks) = got ++ stream chunks

receive-stream :
    (chunks later : List (List ℕ)) (front : List ℕ)
    → AllSome chunks
    → receive (chunks ++ ([] ∷ later)) front ≡ some (front ++ stream chunks)
unfolding receive AllSome stream
receive-stream [] later front s = ap some (sym (append-nil front))
receive-stream (got ∷ chunks) later front (present, rest) =
    let going : (length got == 0) ≡ false = ground (arith, present) in
    rw (going, receive-stream chunks later (front ++ got) rest)
      (ap some (append_assoc front got (stream chunks)))

-- On a connection that is established the client sends its request, and once `recv` gives no more
-- bytes the response is all that it gave before, joined in order; what came later is not read.
pub fetch-stream :
    (t : Target) (sent : ℕ) (chunks later : List (List ℕ))
    → AllSome chunks
    → (f : Fetched) × (fetch t true sent (chunks ++ ([] ∷ later)) ≡ some f)
      × (f.sent_request ≡ some (request t))
      × (f.response ≡ some (stream chunks))
      × (f.status ≡ 0)
unfolding fetch
fetch-stream t sent chunks later s = rw (receive-stream chunks later [] s) (
  record {
    sent_request = some (request t);
    warning = short_count sent (request t);
    response = some (stream chunks);
    status = 0;
  },
  refl,
  refl,
  refl,
  refl,
)
