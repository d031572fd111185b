-- ===== src/Benchmark/Verified.antt =====
-- The verdict of the benchmark on what went through the connection.
use tiny_cp.Base.{
  ℕ, zero, suc, ◌+◌, ◌-◌, ◌<◌, ◌≤◌, ◌≡◌, ◌≢◌, refl, arith, List, [], ◌∷◌, ◌++◌, true, false, ◌==◌,
  lt→ltb, min, length, length-append, length-take, take,
}
use tiny_cp.Benchmark.{
  Progress, started, count_sent, count_received, fast_checksum, client_loop, server_loop,
  checksum_match,
}
use tiny_cp.Benchmark.Sum.{fast_checksum-append, fast_checksum_detects}

-- The calls of `send` were made while bytes were left, each at the next chunk, and none took more
-- than it was given.
unfoldable pub Sends : ℕ → List ℕ → ℕ → List ℕ → Type 0
Sends total_size chunk total [] = Unit
Sends total_size chunk total (sent ∷ counts) =
    (total < total_size)
    × (sent ≤ min (length chunk) (total_size - total))
    × Sends total_size chunk (total + sent) counts

-- The calls of `recv` were made while bytes were missing, and each gave some, as many at most as
-- it was asked for.
unfoldable pub Receives : ℕ → ℕ → ℕ → List (List ℕ) → Type 0
Receives total_size room total [] = Unit
Receives total_size room total (got ∷ chunks) =
    (total < total_size)
    × (0 < length got)
    × (length got ≤ min room (total_size - total))
    × Receives total_size room (total + length got) chunks

-- What the client put into the stream, and what the server took from it.
unfoldable pub sent_bytes : List ℕ → List ℕ → List ℕ
sent_bytes chunk [] = []
sent_bytes chunk (sent ∷ counts) = take sent chunk ++ sent_bytes chunk counts

unfoldable pub received_bytes : List (List ℕ) → List ℕ
received_bytes [] = []
received_bytes (got ∷ chunks) = got ++ received_bytes chunks

count_sent_lem :
    (chunk : List ℕ) (sent : ℕ) (p : Progress)
    → count_sent chunk sent p
      ≡ record { total = p.total + sent; csum = fast_checksum (take sent chunk) p.csum }
unfolding count_sent fast_checksum
count_sent_lem chunk zero p = ground arith
count_sent_lem chunk (suc n) p = ground arith

-- After its calls the client has counted and summed what it put into the stream.
client_loop-sent_bytes :
    (total_size : ℕ) (chunk counts : List ℕ) (p : Progress)
    → Sends total_size chunk p.total counts
    → client_loop total_size chunk counts p ≡ record {
      total = p.total + length (sent_bytes chunk counts);
      csum = fast_checksum (sent_bytes chunk counts) p.csum;
    }
unfolding client_loop sent_bytes Sends fast_checksum
client_loop-sent_bytes total_size chunk [] p s = ground arith
client_loop-sent_bytes total_size chunk (sent ∷ counts) p (more, fits, rest) =
    let next : Progress = record {
      total = p.total + sent;
      csum = fast_checksum (take sent chunk) p.csum;
    } in
    let ih = client_loop-sent_bytes total_size chunk counts next rest in
    let size = length-append (take sent chunk) (sent_bytes chunk counts) in
    let taken = length-take sent chunk in
    let sum : p.total + sent + length (sent_bytes chunk counts)
        ≡ p.total + length (take sent chunk ++ sent_bytes chunk counts) =
      omega (arith, size, taken, fits) in
    rw
      (
        lt→ltb p.total total_size more,
        count_sent_lem chunk sent p,
        ih,
        fast_checksum-append (take sent chunk) (sent_bytes chunk counts) p.csum,
        sum,
      )
      refl

-- And the server what it took from it.
server_loop-received_bytes :
    (total_size room : ℕ) (chunks : List (List ℕ)) (p : Progress)
    → Receives total_size room p.total chunks
    → server_loop total_size chunks p ≡ record {
      total = p.total + length (received_bytes chunks);
      csum = fast_checksum (received_bytes chunks) p.csum;
    }
unfolding server_loop received_bytes Receives fast_checksum count_received
server_loop-received_bytes total_size room [] p s = ground arith
server_loop-received_bytes total_size room (got ∷ chunks) p (more, some_got, fits, rest) =
    let next : Progress = record {
      total = p.total + length got;
      csum = fast_checksum got p.csum;
    } in
    let ih = server_loop-received_bytes total_size room chunks next rest in
    let sum : p.total + length got + length (received_bytes chunks)
        ≡ p.total + length (got ++ received_bytes chunks) =
      omega (arith, length-append got (received_bytes chunks)) in
    let present : (length got == 0) ≡ false = ground (arith, some_got) in
    rw
      (
        lt→ltb p.total total_size more,
        present,
        ih,
        fast_checksum-append got (received_bytes chunks) p.csum,
        sum,
      )
      refl

-- If the bytes that the calls of `recv` gave are the bytes that the calls of `send` took, and they
-- are all that were to be transferred, then the benchmark reports success, however the two sides
-- cut the stream.
pub checksum_match_of_stream :
    (total_size room : ℕ) (chunk counts : List ℕ) (chunks : List (List ℕ))
    → Sends total_size chunk 0 counts
    → Receives total_size room 0 chunks
    → received_bytes chunks ≡ sent_bytes chunk counts
    → length (sent_bytes chunk counts) ≡ total_size
    → checksum_match
        (client_loop total_size chunk counts started)
        (server_loop total_size chunks started)
        total_size
      ≡ true
unfolding checksum_match
checksum_match_of_stream total_size room chunk counts chunks s r same whole =
    rw
      (
        client_loop-sent_bytes total_size chunk counts started s,
        server_loop-received_bytes total_size room chunks started r,
        same,
      )
      (ground (arith, whole))

-- If the received bytes are the sent ones but for one byte, it reports failure.
pub checksum_match_detects :
    (total_size room : ℕ) (chunk counts : List ℕ) (chunks : List (List ℕ)) (xs ys : List ℕ)
    (x y : ℕ)
    → Sends total_size chunk 0 counts
    → Receives total_size room 0 chunks
    → sent_bytes chunk counts ≡ xs ++ (x ∷ ys)
    → received_bytes chunks ≡ xs ++ (y ∷ ys)
    → x < 256
    → y < 256
    → x ≢ y
    → checksum_match
        (client_loop total_size chunk counts started)
        (server_loop total_size chunks started)
        total_size
      ≡ false
unfolding checksum_match
checksum_match_detects total_size room chunk counts chunks xs ys x y s r sent got hx hy apart =
    let differ : fast_checksum (xs ++ (x ∷ ys)) 0 ≢ fast_checksum (xs ++ (y ∷ ys)) 0 =
      λ e. apart (fast_checksum_detects xs ys x y 0 hx hy e) in
    rw
      (
        client_loop-sent_bytes total_size chunk counts started s,
        server_loop-received_bytes total_size room chunks started r,
        sent,
        got,
      )
      (ground (arith, differ))
