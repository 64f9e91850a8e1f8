-- ===== src/Prelude/Bits.antt =====
-- Bitwise `and` at variables: against a low mask, and against a mask that clears the low bits.
use Prim.Native.Nat.{
  ℕ, zero, suc, ◌+◌, ◌-◌, ◌*◌, ◌/◌, ◌%◌, ◌^◌, ◌≤◌, ◌<◌, min, bit_and, digits, bit_and-bitwise,
}
use Prim.Native.Nat.add
use mathlib.Core.Path.{◌≡◌, refl, sym, ◌∙◌, ap}
use native.Mathlib.Omega.{arith}
use native.Mathlib.Nat.{pow-suc}

-- The digit recursion behind `bit_and` gives the same result with any fuel that is enough.
abbrev conj : ℕ → ℕ → ℕ → ℕ
conj fuel a b = digits (λ _. zero) min fuel a b

conj-zero : (fuel b : ℕ) → conj fuel 0 b ≡ 0
conj-zero zero b = refl
conj-zero (suc fuel) b = refl

conj-fuel : (f g a b : ℕ) → a ≤ f → a ≤ g → conj f a b ≡ conj g a b
conj-fuel f g zero b hf hg = conj-zero f b ∙ sym (conj-zero g b)
conj-fuel zero g (suc a) b hf hg = absurd (omega arith)
conj-fuel (suc f) zero (suc a) b hf hg = absurd (omega arith)
conj-fuel (suc f) (suc g) (suc a) b hf hg =
    omega (arith, conj-fuel f g (suc a / 2) (b / 2) (omega arith) (omega arith))

-- The law for the lowest digit.
bit_and_digit : (a b : ℕ) → bit_and a b ≡ bit_and (a / 2) (b / 2) * 2 + min (a % 2) (b % 2)
bit_and_digit zero b = omega (arith, bit_and-bitwise 0 b, bit_and-bitwise 0 (b / 2))
bit_and_digit (suc a) b = omega (
  arith,
  bit_and-bitwise (suc a) b,
  bit_and-bitwise (suc a / 2) (b / 2),
  conj-fuel a (suc a / 2) (suc a / 2) (b / 2) (omega arith) (omega arith),
)

pub pow-add : (j k : ℕ) → 2 ^ (j + k) ≡ 2 ^ j * 2 ^ k
pow-add zero k = ground arith
pow-add (suc j) k = rw (add.suc, pow-suc, pow-suc, pow-add j k) (grind arith)

bit_and-zero_below : (n a : ℕ) → a ≤ n → bit_and a 0 ≡ 0
bit_and-zero_below n zero h = refl
bit_and-zero_below zero (suc a) h = absurd (omega arith)
bit_and-zero_below (suc n) (suc a) h =
    omega (arith, bit_and_digit (suc a) 0, bit_and-zero_below n (suc a / 2) (omega arith))

-- A number of at most `j` bits is not changed by the mask of `j` ones.
bit_and-ones : (j a : ℕ) → a < 2 ^ j → bit_and a (2 ^ j - 1) ≡ a
bit_and-ones zero a h = ground (arith, bit_and-zero_below a a)
bit_and-ones (suc j) a h =
    ground (arith, pow-suc 2 j, bit_and_digit a (2 ^ suc j - 1), bit_and-ones j (a / 2))

double_field : (q k : ℕ) → q * 2 ^ suc k ≡ 2 * (q * 2 ^ k)
double_field q k = omega (arith, ap (λ (t : ℕ). q * t) (pow-suc 2 k))

-- A mask of `j` ones over `k` zeros keeps the high field and clears the low one.
pub bit_and_high :
    (k j q r : ℕ)
    → r < 2 ^ k
    → q < 2 ^ j
    → bit_and (q * 2 ^ k + r) ((2 ^ j - 1) * 2 ^ k) ≡ q * 2 ^ k
bit_and_high zero j q r hr hq = ground (arith, bit_and-ones j q)
bit_and_high (suc k) j q r hr hq = ground (
  arith,
  pow-suc 2 k,
  double_field q k,
  double_field (2 ^ j - 1) k,
  bit_and_digit (q * 2 ^ suc k + r) ((2 ^ j - 1) * 2 ^ suc k),
  bit_and_high k j q (r / 2),
)
