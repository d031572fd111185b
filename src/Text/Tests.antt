-- ===== src/Text/Tests.antt =====
-- Numbers as text.
use tiny_cp.Base.{◌≡◌, refl, [], some, none, true, false}
use tiny_cp.Text.{codes, decimal, digits, hex, hex_digit, before, after}
use tiny_cp.Text.Stream.{
  read_number, read_sign, read_digits, skip_space, is_space, in_range, scan, stoul, stoi, int_sign,
  int_digits, int_in_range,
}

ten : decimal 65535 ≡ codes "65535"
unfolding decimal digits
ten = refl

padded : hex 8 0x1A2F [] ≡ codes "00001a2f"
unfolding hex hex_digit
padded = refl

cut : before b':' (codes "a:b:c") ≡ codes "a"
unfolding before
cut = refl

behind : after b':' (codes "a:b:c") ≡ some (codes "b:c")
unfolding after
behind = refl

spaced : read_number 255 (codes " 12x") ≡ record { value = 12; good = true; rest = codes "x" }
unfolding read_number read_sign read_digits skip_space is_space in_range scan
spaced = refl

too_large : read_number 255 (codes "256") ≡ record { value = 255; good = false; rest = [] }
unfolding read_number read_sign read_digits skip_space is_space in_range scan
too_large = refl

negated : read_number 255 (codes "-1") ≡ record { value = 255; good = true; rest = [] }
unfolding read_number read_sign read_digits skip_space is_space in_range scan
negated = refl

no_number : stoul (codes "x") ≡ none
unfolding stoul read_number read_sign read_digits skip_space is_space
no_number = refl

minus : stoi (codes "-7") ≡ some (true, 7)
unfolding stoi int_sign int_digits int_in_range skip_space is_space scan
minus = refl
