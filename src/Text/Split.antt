-- ===== src/Text/Split.antt =====
-- `std::string_view::find` of a character: the text on its two sides.
use tiny_cp.Base.{ℕ, ◌≡◌, refl, arith, false, ◌||◌, ◌++◌, [], ◌∷◌, some, none}
use tiny_cp.Text.{Bytes, has, before, after}

pub has-append : (b : ℕ) (s t : Bytes) → has b (s ++ t) ≡ has b s || has b t
unfolding has
has-append b [] t = refl
has-append b (c ∷ s) t = ground (arith, has-append b s t)

pub before-append : (b : ℕ) (s t : Bytes) → has b s ≡ false → before b (s ++ (b ∷ t)) ≡ s
unfolding has before
before-append b [] t h = ground arith
before-append b (c ∷ s) t h = ground (arith, before-append b s t)

pub after-append : (b : ℕ) (s t : Bytes) → has b s ≡ false → after b (s ++ (b ∷ t)) ≡ some t
unfolding has after
after-append b [] t h = ground arith
after-append b (c ∷ s) t h = ground (arith, after-append b s t)

-- Where the character is not there, the text is one piece.
pub before_whole : (b : ℕ) (s : Bytes) → has b s ≡ false → before b s ≡ s
unfolding has before
before_whole b [] h = refl
before_whole b (c ∷ s) h = ground (arith, before_whole b s)

pub after_whole : (b : ℕ) (s : Bytes) → has b s ≡ false → after b s ≡ none
unfolding has after
after_whole b [] h = refl
after_whole b (c ∷ s) h = ground (arith, after_whole b s)
