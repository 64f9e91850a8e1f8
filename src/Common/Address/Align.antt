-- ===== src/Common/Address/Align.antt =====
-- What `align_up` returns for the power of two that a `Layout` guarantees.
use Prim.Native.Nat.{ℕ, zero, suc, ◌+◌, ◌-◌, ◌*◌, ◌/◌, ◌%◌, ◌^◌, ◌≤◌, ◌<◌, bit_and}
use mathlib.Core.Path.{◌≡◌, sym, ap, ap₂, ◌∙◌}
use native.Mathlib.Omega.{arith}
use native.Mathlib.Nat.{
  one-le-pow, mod-lt, div-add-mod, div-lt_iff_lt-mul, mul-mod_left, mul-le-mul_right,
  div-mul-le_self, le_of_suc-le-suc,
}
use immix_rust.Prelude.Bits.{bit_and_high, pow-add}
use immix_rust.Common.Address.{usize_mod, wrapping_sub, bit_not, align_up}

pow-mul-pow : (k : ℕ) → k < 64 → 2 ^ (64 - k) * 2 ^ k ≡ usize_mod
pow-mul-pow k h =
    sym (pow-add (64 - k) k) ∙ ap (λ (t : ℕ). 2 ^ t) {x = 64 - k + k} {y = 64} (omega arith)

sub_one-mul : (j p : ℕ) → 0 < j → (j - 1) * p + p ≡ j * p
sub_one-mul zero p h = elim h [ ]
sub_one-mul (suc j) p h = let e : suc j - 1 ≡ j = omega arith in rw e (omega arith)

-- The mask of `align_up`: ones over `k` zeros.
high_mask : (k : ℕ) → k < 64 → bit_not (wrapping_sub (2 ^ k) 1) ≡ (2 ^ (64 - k) - 1) * 2 ^ k
high_mask k h =
    let one_j = one-le-pow (64 - k) 2 (omega arith) in
    let one_k = one-le-pow k 2 (omega arith) in
    omega (arith, pow-mul-pow k h, sub_one-mul (2 ^ (64 - k)) (2 ^ k) one_j, one_j, one_k)

module _ (a k : ℕ) (hk : k < 64) (fits : a + 2 ^ k ≤ usize_mod) where
  abbrev above : ℕ
  above = a + 2 ^ k - 1

  pow_pos : 0 < 2 ^ k
  pow_pos = one-le-pow k 2 (omega arith)

  quotient-lt : above / 2 ^ k < 2 ^ (64 - k)
  quotient-lt = (div-lt_iff_lt-mul pow_pos).1 (rw (pow-mul-pow k hk) (omega (arith, pow_pos)))

  -- The address is rounded up to the next multiple of the alignment.
  pub align_up-eq : align_up a (2 ^ k) ≡ above / 2 ^ k * 2 ^ k
  unfolding align_up
  align_up-eq =
      ap₂ bit_and (omega (arith, pow_pos, div-add-mod above (2 ^ k))) (high_mask k hk)
      ∙ bit_and_high k (64 - k) (above / 2 ^ k) (above % 2 ^ k) (mod-lt above pow_pos) quotient-lt

-- The multiple of `p` that `(a + p - 1) / p * p` names is the least one that is not below `a`.
module _ (a p : ℕ) (pos : 0 < p) where
  le-round : a ≤ (a + p - 1) / p * p
  le-round = omega (arith, div-add-mod (a + p - 1) p, mod-lt (a + p - 1) pos)

  round-le : (b : ℕ) → b % p ≡ 0 → a ≤ b → (a + p - 1) / p * p ≤ b
  round-le b h le =
      let whole : b / p * p ≡ b = omega (arith, div-add-mod b p) in
      let few : (a + p - 1) / p < suc (b / p) =
        (div-lt_iff_lt-mul {x = a + p - 1} {y = suc (b / p)} pos).1 (omega (arith, whole)) in
      rw whole at (mul-le-mul_right p (le_of_suc-le-suc few))

-- For a power of two as alignment, and an address so low that the sum does not wrap, `align_up`
-- returns the least multiple of the alignment that is not below the address.
pub align_up-least :
    (a k : ℕ)
    → k < 64
    → a + 2 ^ k ≤ usize_mod
    → (align_up a (2 ^ k) % 2 ^ k ≡ 0)
      × (a ≤ align_up a (2 ^ k))
      × ((b : ℕ) → b % 2 ^ k ≡ 0 → a ≤ b → align_up a (2 ^ k) ≤ b)
align_up-least a k hk fits =
    let pos = one-le-pow k 2 (omega arith) in
    rw (align_up-eq a k hk fits) (
      mul-mod_left (above a k hk fits / 2 ^ k) (2 ^ k),
      le-round a (2 ^ k) pos,
      round-le a (2 ^ k) pos,
    )

-- Rounding up adds less than the alignment.
pub align_up-lt : (a k : ℕ) → k < 64 → a + 2 ^ k ≤ usize_mod → align_up a (2 ^ k) < a + 2 ^ k
align_up-lt a k hk fits =
    rw (align_up-eq a k hk fits)
      (omega (arith, div-mul-le_self (a + 2 ^ k - 1) (2 ^ k), one-le-pow k 2 (omega arith)))

-- An address that is a multiple of the alignment stays.
pub align_up_self :
    (a k : ℕ) → k < 64 → a + 2 ^ k ≤ usize_mod → a % 2 ^ k ≡ 0 → align_up a (2 ^ k) ≡ a
align_up_self a k hk fits h =
    let (_, above, least) = align_up-least a k hk fits in
    omega (arith, above, least a h (omega arith))
