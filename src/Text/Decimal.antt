-- ===== src/Text/Decimal.antt =====
-- A number written in decimal is read back.
use mathlib.Core.List.{append-nil}
use native.Mathlib.Nat.{pow-suc}
use tiny_cp.Base.{
  ℕ, zero, suc, ◌+◌, ◌/◌, ◌%◌, ◌^◌, ◌<◌, ◌≤◌, ◌≡◌, refl, ap, sym, subst, ◌∙◌, arith, true, false,
  ◌++◌, [], ◌∷◌, some, ◌==◌, inl, inr, Bool-cases,
}
use tiny_cp.Text.{Bytes, digits, decimal, has, max_digits}
use tiny_cp.Text.Stream.{
  is_space, skip_space, is_digit, scan, in_range, read_digits, read_sign, read_number, extract,
  stoi, int_sign, int_digits, int_in_range,
}

-- The rest does not begin with a digit.
abbrev pub Ends : Bytes → Type 0
Ends [] = Unit
Ends (c ∷ s) = is_digit c ≡ false

scan_at_end : (s : Bytes) (n : ℕ) → Ends s → scan s n ≡ (n, s)
unfolding scan
scan_at_end [] n e = refl
scan_at_end (c ∷ s) n e = rw e refl

digits-append : (k n : ℕ) (out rest : Bytes) → digits k n out ++ rest ≡ digits k n (out ++ rest)
unfolding digits
digits-append zero n out rest = refl
digits-append (suc k) n out rest = elim (Bool-cases (n == 0)) [
  | inl h ↦ rw h refl
  | inr h ↦ rw h (digits-append k (n / 10) ((b'0' + n % 10) ∷ out) rest)
]

scan-digits : (k n : ℕ) (out : Bytes) → n < 10 ^ k → scan (digits k n out) 0 ≡ scan out n
unfolding digits scan
scan-digits zero n out h = ap (scan out) {x = 0} {y = n} (omega arith)
scan-digits (suc k) n out h =
    let fits : n / 10 < 10 ^ k = omega (arith, pow-suc 10 k) in
    let ih = scan-digits k (n / 10) ((b'0' + n % 10) ∷ out) fits in ground (arith, ih)

-- Digits stand first in the text of a positive number.
pub record Opens (s : Bytes) : Type 0 where
  pub head : ℕ
  pub tail : Bytes
  pub digit : is_digit head ≡ true
  pub parts : s ≡ head ∷ tail

last_digit : (n : ℕ) (out : Bytes) → Opens ((b'0' + n % 10) ∷ out)
last_digit n out = record { head = b'0' + n % 10; tail = out; digit = ground arith; parts = refl }

digits_step :
    (k n : ℕ) (out : Bytes)
    → 0 < n
    → digits (suc k) n out ≡ digits k (n / 10) ((b'0' + n % 10) ∷ out)
unfolding digits
digits_step k n out pos = ground arith

digits-Opens : (k n : ℕ) (out : Bytes) → 0 < n → n < 10 ^ suc k → Opens (digits (suc k) n out)
unfolding digits
digits-Opens zero n out pos fits = rw (digits_step zero n out pos) (last_digit n out)
digits-Opens (suc k) n out pos fits =
    let fewer : n / 10 < 10 ^ suc k = omega (arith, pow-suc 10 (suc k)) in
    let step = digits_step (suc k) n out pos in
    elim (Bool-cases (n / 10 == 0)) [
      | inl h ↦
          let none_left : n / 10 ≡ 0 = ground (arith, h) in rw (step, none_left) (last_digit n out)
      | inr h ↦
          let some_left : 0 < n / 10 = ground (arith, h) in
          rw step (digits-Opens k (n / 10) ((b'0' + n % 10) ∷ out) some_left fewer)
    ]

-- Reading at a digit.
read_number_at : (max : ℕ) (s : Bytes) → Opens s → read_number max s ≡ in_range max false (scan s 0)
unfolding read_number read_sign read_digits skip_space is_space
read_number_at max s o = rw (o.parts) (ground (arith, o.digit))

pub decimal-Opens : (n : ℕ) (rest : Bytes) → n < 10 ^ max_digits → Opens (decimal n ++ rest)
unfolding decimal
decimal-Opens n rest fits = elim (Bool-cases (n == 0)) [
  | inl h ↦ rw h (last_digit 0 rest)
  | inr h ↦
      let pos : 0 < n = ground (arith, h) in
      rw (h, digits-append max_digits n [] rest) (digits-Opens 19 n rest pos fits)
]

scan-decimal :
    (n : ℕ) (rest : Bytes) → n < 10 ^ max_digits → scan (decimal n ++ rest) 0 ≡ scan rest n
unfolding decimal
scan-decimal n rest fits = elim (Bool-cases (n == 0)) [
  | inl h ↦ let none_left : n ≡ 0 = ground (arith, h) in rw (h, none_left) (unfold scan in refl)
  | inr h ↦ rw (h, digits-append max_digits n [] rest) (scan-digits max_digits n rest fits)
]

pub read_number-decimal :
    (max n : ℕ) → n ≤ max → n < 10 ^ max_digits → (read_number max (decimal n)).value ≡ n
unfolding in_range
read_number-decimal max n small fits =
    let ended = append-nil (decimal n) in
    let opens = subst Opens ended (decimal-Opens n [] fits) in
    let scanned = ap (λ s. scan s 0) (sym ended) ∙ scan-decimal n [] fits ∙ scan_at_end [] n tt in
    rw (read_number_at max (decimal n) opens, scanned) (ground arith)

-- A number of the type that is written in decimal and followed by no digit is extracted.
pub extract-decimal :
    (max n : ℕ) (rest : Bytes)
    → n ≤ max
    → n < 10 ^ max_digits
    → Ends rest
    → extract max (decimal n ++ rest) ≡ some (n, rest)
unfolding extract in_range
extract-decimal max n rest small fits ends =
    rw
      (
        read_number_at max (decimal n ++ rest) (decimal-Opens n rest fits),
        scan-decimal n rest fits,
        scan_at_end rest n ends,
      )
      (ground arith)

has-digits : (b k n : ℕ) (out : Bytes) → is_digit b ≡ false → has b (digits k n out) ≡ has b out
unfolding digits has
has-digits b zero n out h = refl
has-digits b (suc k) n out h = ground (arith, has-digits b k (n / 10) ((b'0' + n % 10) ∷ out) h)

-- A number in decimal is made of digits.
pub has-decimal : (b n : ℕ) → is_digit b ≡ false → has b (decimal n) ≡ false
unfolding decimal
has-decimal b n h = elim (Bool-cases (n == 0)) [
  | inl e ↦ rw e (unfold has in ground arith)
  | inr e ↦ rw (e, has-digits b max_digits n [] h) (unfold has in refl)
]

stoi_at : (s : Bytes) → Opens s → stoi s ≡ int_in_range false (scan s 0)
unfolding stoi int_sign int_digits skip_space is_space
stoi_at s o = rw (o.parts) (ground (arith, o.digit))

pub stoi-decimal : (n : ℕ) → n < 2 ^ 31 → stoi (decimal n) ≡ some (false, n)
unfolding int_in_range
stoi-decimal n small =
    let ended = append-nil (decimal n) in
    let opens = subst Opens ended (decimal-Opens n [] (omega arith)) in
    let scanned =
      ap (λ s. scan s 0) (sym ended) ∙ scan-decimal n [] (omega arith) ∙ scan_at_end [] n tt in
    rw (stoi_at (decimal n) opens, scanned) (ground arith)
