-- ===== src/Egress/Address/Numbers.antt =====
-- A text that Atoi reads is made of digits and signs.
use mathlib.Core.Option
use teploy_sandbox.Prelude.{
  ℕ, ◌+◌, ◌-◌, ◌*◌, ◌≡◌, refl, inl, inr, Bool, true, ◌||◌, some, [], ◌∷◌, arith, ◌==◌, Option-cases,
  all, Text, ℤ, pos, two_pow_63,
}
use teploy_sandbox.Egress.Address.{is_digit, digits_value, magnitude, negated, atoi}

unfoldable pub is_number_char : ℕ → Bool
unfolding is_digit
is_number_char c = is_digit c || c == b'+' || c == b'-'

digits_value-chars : (s : Text) (n k : ℕ) → digits_value s n ≡ some k → all is_number_char s ≡ true
unfolding digits_value is_number_char
digits_value-chars [] n k h = refl
digits_value-chars (c ∷ s) n k h = ground (arith, digits_value-chars s (n * 10 + (c - b'0')) k)

magnitude-chars :
    (s : Text) (bound k : ℕ) → magnitude s bound ≡ some k → all is_number_char s ≡ true
unfolding magnitude
magnitude-chars [] bound k h = refl
magnitude-chars (c ∷ s) bound k h = elim (Option-cases (digits_value (c ∷ s) 0)) [
  | inl e ↦ absurd (ground arith)
  | inr (n, e) ↦ digits_value-chars (c ∷ s) 0 n e
]

map-is_some :
    (s : Text) (bound : ℕ) (f : ℕ → ℤ) (n : ℤ)
    → Option.map f (magnitude s bound) ≡ some n
    → all is_number_char s ≡ true
map-is_some s bound f n h = elim (Option-cases (magnitude s bound)) [
  | inl e ↦ absurd (ground arith)
  | inr (k, e) ↦ magnitude-chars s bound k e
]

pub atoi-chars : (s : Text) (n : ℤ) → atoi s ≡ some n → all is_number_char s ≡ true
unfolding atoi is_number_char
atoi-chars [] n h = refl
atoi-chars (c ∷ s) n h = ground (
  arith,
  map-is_some s (two_pow_63 - 1) pos n,
  map-is_some s two_pow_63 negated n,
  map-is_some (c ∷ s) (two_pow_63 - 1) pos n,
)
