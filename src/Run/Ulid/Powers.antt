-- ===== src/Run/Ulid/Powers.antt =====
-- The arithmetic of the bit loop of internal/run/ulid.go.
use Prim.Native.Nat.{bit_or, bit_or-bitwise, digits, max}
use native.Mathlib.Nat.{pow-suc, mul_assoc, mul-one}
use teploy_sandbox.Prelude.{
  ℕ, zero, suc, ◌+◌, ◌*◌, ◌/◌, ◌%◌, ◌^◌, ◌≤◌, ◌<◌, ◌≡◌, refl, sym, ap, ◌∙◌, arith,
}

pub two_pow-add : (a b : ℕ) → 2 ^ (a + b) ≡ 2 ^ a * 2 ^ b
two_pow-add a zero = let e : a + 0 ≡ a = omega arith in rw e (sym (mul-one (2 ^ a)))
two_pow-add a (suc b) =
    let e : a + suc b ≡ suc (a + b) = omega arith in
    ap (λ n. 2 ^ n) e
    ∙ pow-suc 2 (a + b)
    ∙ ap (λ n. n * 2) (two_pow-add a b)
    ∙ mul_assoc (2 ^ a) (2 ^ b) 2
    ∙ ap (λ n. 2 ^ a * n) (sym (pow-suc 2 b))

pub thirty_two_pow : (n : ℕ) → 32 ^ n ≡ 2 ^ (5 * n)
thirty_two_pow zero = refl
thirty_two_pow (suc n) =
    let e : 5 * suc n ≡ 5 * n + 5 = omega arith in
    pow-suc 32 n
    ∙ ap (λ m. m * 32) (thirty_two_pow n)
    ∙ sym (two_pow-add (5 * n) 5)
    ∙ ap (λ m. 2 ^ m) (sym e)

pub byte_pow : (n : ℕ) → 256 ^ n ≡ 2 ^ (8 * n)
byte_pow zero = refl
byte_pow (suc n) =
    let e : 8 * suc n ≡ 8 * n + 8 = omega arith in
    pow-suc 256 n
    ∙ ap (λ m. m * 256) (byte_pow n)
    ∙ sym (two_pow-add (8 * n) 8)
    ∙ ap (λ m. 2 ^ m) (sym e)

-- A number shifted past another one.
or_digits : (n a k b : ℕ) → a < 2 ^ k → a ≤ n → digits (λ x. x) max n a (b * 2 ^ k) ≡ a + b * 2 ^ k
or_digits zero a k b h l = omega (arith, l)
or_digits (suc n) zero k b h l = omega arith
or_digits (suc n) (suc a) zero b h l = absurd (omega (arith, h))
or_digits (suc n) (suc a) (suc k) b h l =
    let double : 2 ^ suc k ≡ 2 ^ k * 2 = pow-suc 2 k in
    let shifted : b * 2 ^ suc k ≡ b * 2 ^ k * 2 =
      ap (λ p. b * p) double ∙ sym (mul_assoc b (2 ^ k) 2) in
    let half : b * 2 ^ suc k / 2 ≡ b * 2 ^ k = omega (arith, shifted) in
    let even : b * 2 ^ suc k % 2 ≡ 0 = omega (arith, shifted) in
    let less : suc a / 2 < 2 ^ k = omega (arith, h, double) in
    let low : suc a / 2 ≤ n = omega (arith, l) in
    rw (half, even, or_digits n (suc a / 2) k b less low) (omega (arith, shifted))

pub bit_or-shifted : (a k b : ℕ) → a < 2 ^ k → bit_or a (b * 2 ^ k) ≡ a + b * 2 ^ k
bit_or-shifted a k b h = (λ i. bit_or-bitwise a (b * 2 ^ k) i) ∙ or_digits a a k b h (omega arith)
