-- ===== src/Text.antt =====
-- What the program uses of the text streams of C++: bytes of literals, numbers written in decimal
-- and in hexadecimal of a fixed width (`std::hex`, `std::setw`, `std::setfill('0')`), and the
-- extraction of numbers and characters from a `std::stringstream`.
pub mod Decimal
pub mod Split
pub mod Stream
mod Tests
use Prim.Native.Char.{code}
use Prim.Native.String.{String}
use tiny_cp.Base.{
  ℕ, zero, suc, ◌+◌, ◌-◌, ◌/◌, ◌%◌, Bool, true, false, ◌&&◌, ◌||◌, List, [], ◌∷◌, ◌++◌, Option,
  none, some, ltb, ◌==◌, if◌then◌else◌,
}

abbrev pub Bytes : Type 0
Bytes = List ℕ

-- The bytes of an ASCII literal.
abbrev pub codes : String → Bytes
codes String.[] = []
codes (String.◌∷◌ c s) = code c ∷ codes s

-- The digits of `n` before `out`, at most `k` of them.
unfoldable pub digits : ℕ → ℕ → Bytes → Bytes
digits zero n out = out
digits (suc k) n out =
    let more = digits k (n / 10) ((b'0' + n % 10) ∷ out) in if n == 0 then out else more

-- No number of 64 bits has more digits.
abbrev pub max_digits : ℕ
max_digits = 20

-- `os << n`
unfoldable pub decimal : ℕ → Bytes
decimal n = if n == 0 then b'0' ∷ [] else digits max_digits n []

unfoldable pub hex_digit : ℕ → ℕ
hex_digit n = if ltb n 10 then b'0' + n else b'a' + (n % 16 + 6) % 16

-- `os << std::hex << std::setw(k) << std::setfill('0') << n`, for `n` of at most `4 * k` bits
unfoldable pub hex : ℕ → ℕ → Bytes → Bytes
hex zero n out = out
hex (suc k) n out = hex k (n / 16) (hex_digit (n % 16) ∷ out)

-- `std::string_view::find`: the text before the first `b`, the text after it, and whether it is
-- there.
unfoldable pub has : ℕ → Bytes → Bool
has b [] = false
has b (c ∷ s) = c == b || has b s

unfoldable pub before : ℕ → Bytes → Bytes
before b [] = []
before b (c ∷ s) = let rest = before b s in if c == b then [] else c ∷ rest

unfoldable pub after : ℕ → Bytes → Option Bytes
after b [] = none
after b (c ∷ s) = let rest = after b s in if c == b then some s else rest

-- What a chain of `<<` writes.
unfoldable pub written : List Bytes → Bytes
written [] = []
written (s ∷ ss) = s ++ written ss

-- `if (...) os << s;`
abbrev pub when : Bool → Bytes → Bytes
when b s = if b then s else []

-- `==` of strings, and `strcmp` to 0
abbrev pub bytes_eq : Bytes → Bytes → Bool
bytes_eq [] [] = true
bytes_eq (a ∷ s) (b ∷ t) = a == b && bytes_eq s t
bytes_eq _ _ = false
