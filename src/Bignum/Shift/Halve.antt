-- ===== src/Bignum/Shift/Halve.antt =====
-- `bn_rshift` and `bn_mult_half`.
use ether_flutter_plugin.Prelude.{
  ℕ, zero, suc, ◌+◌, ◌-◌, ◌*◌, ◌/◌, ◌%◌, ◌^◌, ◌<◌, ◌≡◌, ◌∙◌, refl, ap, [], ◌∷◌, length, arith,
  bit_and, bit_or, u32, ◌<<<◌, ◌>>>◌,
}
use ether_flutter_plugin.Prelude.Bits.{bit_and_mask, bit_and-zero, bit_or_fields_low}
use ether_flutter_plugin.Bignum.Value.{Bignum256, value, IsNormalized, limb_small}
use ether_flutter_plugin.Bignum.Shift.{bn_rshift, half_limbs, bn_mult_half}

-- `bn_rshift` halves a normalized number, rounding down, and keeps it normalized.
pub bn_rshift-value :
    (a : Bignum256)
    → IsNormalized a
    → (value (bn_rshift a) ≡ value a / 2) × IsNormalized (bn_rshift a)
unfolding bn_rshift
bn_rshift-value [] h = (omega arith, tt)
bn_rshift-value (x ∷ []) h = omega arith
bn_rshift-value (x ∷ y ∷ xs) h =
    let rest = bn_rshift-value (y ∷ xs) h.1 in
    let bit : u32 (bit_and y 1 <<< 29) ≡ y % 2 * 2 ^ 29 = omega (arith, bit_and_mask 1 y) in
    let limb : bit_or (x >>> 1) (u32 (bit_and y 1 <<< 29)) ≡ y % 2 * 2 ^ 29 + x / 2 =
      ap (bit_or (x >>> 1)) bit ∙ bit_or_fields_low 29 (y % 2) (x / 2) (omega (arith, h.0)) in
    (omega (arith, limb, rest.0), (omega (arith, limb, h.0), rest.1))

-- With `xodd` all ones, or 0, each limb of the prime is added, or not.
masked : (odd p : ℕ) → odd < 2 → p < 2 ^ 30 → bit_and p (u32 (2 ^ 32 - odd)) ≡ odd * p
masked zero p h hp = bit_and-zero p ∙ omega arith
masked (suc zero) p h hp = bit_and_mask 32 p ∙ omega arith
masked (suc (suc odd)) p h hp = absurd (omega arith)

half_limbs_lem :
    (odd tmp1 : ℕ) (x p : Bignum256)
    → odd < 2
    → tmp1 < 2 ^ 30
    → length x ≡ length p
    → IsNormalized x
    → IsNormalized p
    → (value (half_limbs (u32 (2 ^ 32 - odd)) tmp1 x p) ≡ tmp1 + 2 ^ 29 * (value x + odd * value p))
      × IsNormalized (half_limbs (u32 (2 ^ 32 - odd)) tmp1 x p)
unfolding half_limbs
half_limbs_lem odd tmp1 [] [] ho ht e hx hp = (omega arith, (ht, tt))
half_limbs_lem odd tmp1 [] (p ∷ ps) ho ht e hx hp = absurd (omega arith)
half_limbs_lem odd tmp1 (x ∷ xs) [] ho ht e hx hp = absurd (omega arith)
half_limbs_lem odd tmp1 (x ∷ xs) (p ∷ ps) ho ht e hx hp =
    let xodd : ℕ = u32 (2 ^ 32 - odd) in
    let mask = masked odd p ho hp.0 in
    let part : odd * p < 2 ^ 30 = grind arith in
    let tmp2 : ℕ = u32 (x + bit_and p xodd) in
    let tmp2_lem : tmp2 ≡ x + odd * p = omega (arith, mask) in
    let t : ℕ = u32 (tmp1 + u32 (bit_and tmp2 1 <<< 29)) in
    let t_lem : t ≡ tmp1 + tmp2 % 2 * 2 ^ 29 = omega (arith, bit_and_mask 1 tmp2) in
    let next : ℕ = u32 (t >>> 30 + tmp2 >>> 1) in
    let next_lem : next ≡ t / 2 ^ 30 + tmp2 / 2 = omega arith in
    let rest = half_limbs_lem odd next xs ps ho (omega arith) (omega arith) hx.1 hp.1 in
    (omega (arith, bit_and_mask 30 t, rest.0), (limb_small t, rest.1))

even_sum : (odd x p : ℕ) → odd ≡ x % 2 → p % 2 ≡ 1 → (x + odd * p) % 2 ≡ 0
even_sum zero x p h hp = omega arith
even_sum (suc zero) x p h hp = omega arith
even_sum (suc (suc odd)) x p h hp = absurd (omega arith)

-- For normalized numbers of the same count of limbs and an odd prime, twice `bn_mult_half` is `x` for
-- an even x and `x + prime` for an odd one, and the result is normalized.
pub bn_mult_half-value :
    (x p : ℕ) (xs ps : Bignum256)
    → length xs ≡ length ps
    → IsNormalized (x ∷ xs)
    → IsNormalized (p ∷ ps)
    → p % 2 ≡ 1
    → (2 * value (bn_mult_half (x ∷ xs) (p ∷ ps)) ≡ value (x ∷ xs) + x % 2 * value (p ∷ ps))
      × IsNormalized (bn_mult_half (x ∷ xs) (p ∷ ps))
unfolding bn_mult_half
bn_mult_half-value x p xs ps e hx hp odd_prime =
    let odd : ℕ = x % 2 in
    let same : u32 (2 ^ 32 - bit_and x 1) ≡ u32 (2 ^ 32 - odd) =
      ap (λ (n : ℕ). u32 (2 ^ 32 - n)) (bit_and_mask 1 x) in
    let low : u32 (x + bit_and p (u32 (2 ^ 32 - odd))) >>> 1 ≡ (x + odd * p) / 2 =
      omega (arith, masked odd p (omega arith) hp.0, part x p hp.0) in
    let small : (x + odd * p) / 2 < 2 ^ 30 = omega (arith, part x p hp.0, hx.0) in
    let loop = half_limbs_lem odd ((x + odd * p) / 2) xs ps (omega arith) small e hx.1 hp.1 in
    rw (same, low) (omega (arith, loop.0, even_sum odd x p refl odd_prime), loop.1)
  where
    part : (x p : ℕ) → p < 2 ^ 30 → x % 2 * p < 2 ^ 30
    part x p h = grind arith
