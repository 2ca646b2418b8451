-- ===== src/Bignum/Divide.antt =====
-- Division of ios/Classes/bignum.c by 58 and by 1000, for printing, and the bit length.
use ether_flutter_plugin.Prelude.{ℕ, ◌+◌, ◌*◌, ◌/◌, ◌%◌, ◌<◌, ◌≡◌, [], ◌∷◌, u32, arith}
use ether_flutter_plugin.Bignum.Value.{Bignum256, value, IsNormalized}

-- The loop of `bn_divmod58` and `bn_divmod1000`, from the highest limb down, for a divisor d with
-- 2^30 = q * d + r: the quotient and the remainder.
unfoldable pub divmod_limbs : ℕ → ℕ → ℕ → Bignum256 → Bignum256 × ℕ
divmod_limbs d q r [] = ([], 0)
divmod_limbs d q r (x ∷ []) = (x / d ∷ [], x % d)
divmod_limbs d q r (x ∷ y ∷ ys) =
    let (high, rem) = divmod_limbs d q r (y ∷ ys) in
    let tmp = u32 (u32 (rem * r) + x) in (u32 (u32 (rem * q) + tmp / d) ∷ high, tmp % d)

unfoldable pub bn_divmod58 : Bignum256 → Bignum256 × ℕ
unfolding divmod_limbs
bn_divmod58 a = divmod_limbs 58 18512790 4 a

unfoldable pub bn_divmod1000 : Bignum256 → Bignum256 × ℕ
unfolding divmod_limbs
bn_divmod1000 a = divmod_limbs 1000 1073741 824 a

-- `bn_divmod58` divides a normalized number: quotient and remainder are exact, and the quotient is
-- normalized.
pub bn_divmod58-value :
    (a : Bignum256)
    → IsNormalized a
    → (58 * value (bn_divmod58 a).0 + (bn_divmod58 a).1 ≡ value a)
      × ((bn_divmod58 a).1 < 58)
      × IsNormalized (bn_divmod58 a).0
unfolding bn_divmod58
bn_divmod58-value [] h = (omega arith, omega arith, tt)
bn_divmod58-value (x ∷ []) h = omega arith
bn_divmod58-value (x ∷ y ∷ ys) h =
    let rest = bn_divmod58-value (y ∷ ys) h.1 in
    (omega (arith, rest.0, rest.1, h.0), omega arith, (omega (arith, rest.1, h.0), rest.2))

-- `bn_divmod1000` divides a normalized number: quotient and remainder are exact, and the quotient is
-- normalized.
pub bn_divmod1000-value :
    (a : Bignum256)
    → IsNormalized a
    → (1000 * value (bn_divmod1000 a).0 + (bn_divmod1000 a).1 ≡ value a)
      × ((bn_divmod1000 a).1 < 1000)
      × IsNormalized (bn_divmod1000 a).0
unfolding bn_divmod1000
bn_divmod1000-value [] h = (omega arith, omega arith, tt)
bn_divmod1000-value (x ∷ []) h = omega arith
bn_divmod1000-value (x ∷ y ∷ ys) h =
    let rest = bn_divmod1000-value (y ∷ ys) h.1 in
    (omega (arith, rest.0, rest.1, h.0), omega arith, (omega (arith, rest.1, h.0), rest.2))
