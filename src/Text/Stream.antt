-- ===== src/Text/Stream.antt =====
-- `operator>>` of a `std::stringstream` in the C locale, in base ten.
use tiny_cp.Base.{
  ℕ, ◌+◌, ◌-◌, ◌*◌, ◌%◌, ◌^◌, Bool, true, false, ◌&&◌, ◌||◌, [], ◌∷◌, Option, none, some, ltb, leb,
  ◌==◌, if◌then◌else◌,
}
use tiny_cp.Text.{Bytes}

unfoldable pub is_space : ℕ → Bool
is_space c = c == 32 || (leb 9 c && leb c 13)

-- A formatted extraction skips the white space first.
unfoldable pub skip_space : Bytes → Bytes
skip_space [] = []
skip_space (c ∷ s) = let rest = skip_space s in if is_space c then rest else c ∷ s

abbrev pub is_digit : ℕ → Bool
is_digit c = leb b'0' c && leb c b'9'

-- The digits that stand first, read onto `n`, and what follows them.
unfoldable pub scan : Bytes → ℕ → ℕ × Bytes
scan [] n = (n, [])
scan (c ∷ s) n = let more = scan s (n * 10 + (c - b'0')) in if is_digit c then more else (n, c ∷ s)

-- What an extraction leaves: the variable, whether the stream is still good, and the rest.
abbrev pub Number : Type 0
Number = record { value : ℕ; good : Bool; rest : Bytes }

-- A number above the largest gives the largest and fails; a minus sign negates modulo its
-- successor.
unfoldable pub in_range : ℕ → Bool → ℕ × Bytes → Number
in_range max negative (n, rest) =
    if ltb max n then record { value = max; good = false; rest = rest } else record {
      value = if negative then (max + 1 - n) % (max + 1) else n;
      good = true;
      rest = rest;
    }

-- There must be a digit.
unfoldable pub read_digits : ℕ → Bool → Bytes → Number
unfolding scan
read_digits max negative [] = record { value = 0; good = false; rest = [] }
read_digits max negative (c ∷ s) =
    if is_digit c
    then in_range max negative (scan (c ∷ s) 0)
    else record { value = 0; good = false; rest = c ∷ s }

unfoldable pub read_sign : ℕ → Bytes → Number
read_sign max [] = record { value = 0; good = false; rest = [] }
read_sign max (c ∷ s) =
    if c == b'-'
    then read_digits max true s
    else if c == b'+'
    then read_digits max false s
    else read_digits max false (c ∷ s)

-- `ss >> n` for an unsigned `n` that was 0, whose largest value is `max`.
unfoldable pub read_number : ℕ → Bytes → Number
read_number max s = read_sign max (skip_space s)

-- In a chain of extractions the first that fails ends it.
unfoldable pub extract : ℕ → Bytes → Option (ℕ × Bytes)
extract max s = let n = read_number max s in if n.good then some (n.value, n.rest) else none

abbrev pub first : Bytes → Option (ℕ × Bytes)
first [] = none
first (c ∷ s) = some (c, s)

-- `ss >> c`
unfoldable pub extract_char : Bytes → Option (ℕ × Bytes)
extract_char s = first (skip_space s)

-- `std::stoul`; `none` is an exception.
unfoldable pub stoul : Bytes → Option ℕ
stoul s = let n = read_number (2 ^ 64 - 1) s in if n.good then some n.value else none

-- `std::stoi`: whether the number is negative, and its magnitude; `none` is an exception.
unfoldable pub int_in_range : Bool → ℕ × Bytes → Option (Bool × ℕ)
int_in_range negative (n, rest) =
    if ltb (if negative then 2 ^ 31 else 2 ^ 31 - 1) n then none else some (negative, n)

unfoldable pub int_digits : Bool → Bytes → Option (Bool × ℕ)
unfolding scan
int_digits negative [] = none
int_digits negative (c ∷ s) = if is_digit c then int_in_range negative (scan (c ∷ s) 0) else none

unfoldable pub int_sign : Bytes → Option (Bool × ℕ)
int_sign [] = none
int_sign (c ∷ s) =
    if c == b'-'
    then int_digits true s
    else if c == b'+'
    then int_digits false s
    else int_digits false (c ∷ s)

unfoldable pub stoi : Bytes → Option (Bool × ℕ)
stoi s = int_sign (skip_space s)
