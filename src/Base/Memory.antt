-- ===== src/Base/Memory.antt =====
-- A byte array as a function of the index: what the C++ code leaves uninitialised has some value,
-- and a write changes one index. Bounds are statements about the indices that are used.
use Prim.Native.Nat.{ℕ, zero, suc, ◌+◌, ◌<◌, ◌≤◌}
use mathlib.Core.Path.{◌≡◌, refl, ap₂, ◌∙◌}
use mathlib.Core.Logic.{◌⊎◌}
use mathlib.Core.List.{List, [], ◌∷◌, ◌++◌, append_assoc}
use native.Mathlib.Nat.{zero-add}
use native.Mathlib.Omega.{arith}
use tiny_cp.Base.Tests.{◌==◌, if◌then◌else◌}
use tiny_cp.Base.Lists.{length}

abbrev pub Memory : Type 0
Memory = ℕ → ℕ

abbrev pub poke : Memory → ℕ → ℕ → Memory
poke m i v j = if i == j then v else m j

-- `std::copy_n(bytes, n, out + off)`
pub copy_n : List ℕ → Memory → ℕ → Memory
copy_n [] m off = m
copy_n (b ∷ bs) m off = copy_n bs (poke m off b) (off + 1)

-- The span of `n` bytes from `off`.
pub span : Memory → ℕ → ℕ → List ℕ
span m off zero = []
span m off (suc n) = m off ∷ span m (off + 1) n

copy_n_outside :
    (bs : List ℕ) (m : Memory) (off i : ℕ)
    → (i < off) ⊎ (off + length bs ≤ i)
    → copy_n bs m off i ≡ m i
unfolding copy_n
copy_n_outside [] m off i h = refl
copy_n_outside (b ∷ bs) m off i h = ground (arith, copy_n_outside bs (poke m off b) (off + 1) i)

-- A span that the copy does not touch is as before.
span-copy_n_outside :
    (bs : List ℕ) (m : Memory) (off i n : ℕ) → i + n ≤ off → span (copy_n bs m off) i n ≡ span m i n
unfolding span
span-copy_n_outside bs m off i zero h = refl
span-copy_n_outside bs m off i (suc n) h =
    ground (arith, copy_n_outside bs m off i, span-copy_n_outside bs m off (i + 1) n)

-- What was copied in is read back.
span-copy_n : (bs : List ℕ) (m : Memory) (off : ℕ) → span (copy_n bs m off) off (length bs) ≡ bs
unfolding copy_n span
span-copy_n [] m off = refl
span-copy_n (b ∷ bs) m off =
    ground (
      arith,
      copy_n_outside bs (poke m off b) (off + 1) off,
      span-copy_n bs (poke m off b) (off + 1),
    )

span-append : (m : Memory) (off n k : ℕ) → span m off (n + k) ≡ span m off n ++ span m (off + n) k
unfolding span
span-append m off zero k = ground arith
span-append m off (suc n) k =
    let e : suc n + k ≡ suc (n + k) = omega arith in
    let e' : off + suc n ≡ off + 1 + n = omega arith in rw (e, e', span-append m (off + 1) n k)

pub length-span : (m : Memory) (off n : ℕ) → length (span m off n) ≡ n
unfolding span
length-span m off zero = refl
length-span m off (suc n) = omega (arith, length-span m (off + 1) n)

-- `len` bytes are in place, and a payload behind them at `len + gap`: the span up to its end.
pub span_placed :
    (wire payload : List ℕ) (m : Memory) (gap : ℕ)
    → let out = copy_n payload (copy_n wire m 0) (length wire + gap) in
      span out 0 (length wire + gap + length payload)
      ≡ wire ++ (span (copy_n wire m 0) (length wire) gap ++ payload)
span_placed wire payload m gap =
    let n = length wire in
    let header = copy_n wire m 0 in
    let out = copy_n payload header (n + gap) in
    let first =
      span-copy_n_outside payload header (n + gap) 0 n (omega arith) ∙ span-copy_n wire m 0 in
    let middle = span-copy_n_outside payload header (n + gap) n gap (omega arith) in
    let last = span-copy_n payload header (n + gap) in
    span-append out 0 (n + gap) (length payload)
    ∙ ap₂ ◌++◌ (span-append out 0 n gap ∙ ap₂ ◌++◌ first (rw zero-add middle)) (rw zero-add last)
    ∙ append_assoc wire (span header n gap) payload
