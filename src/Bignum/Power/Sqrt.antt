-- ===== src/Bignum/Power/Sqrt.antt =====
-- `bn_sqrt` of ios/Classes/bignum.c and the small `bn_inverse` are powers modulo the prime.
use ether_flutter_plugin.Prelude.{
  ℕ, suc, ◌+◌, ◌-◌, ◌*◌, ◌/◌, ◌%◌, ◌^◌, ◌≤◌, ◌≡◌, ◌∙◌, refl, sym, ap, List, [], ◌∷◌, length, arith,
  false, ◌==◌, u32, ◌>>>◌, get_or,
}
use native.Mathlib.Nat.{mul_assoc, one-mul, mod-eq_of_lt}
use ether_flutter_plugin.Bignum.Value.{Bignum256, value, IsNormalized, capacity}
use ether_flutter_plugin.Bignum.Compare.{bn_one}
use ether_flutter_plugin.Bignum.Carry.{bn_addi}
use ether_flutter_plugin.Bignum.Carry.Sum.{bn_addi_carry, IsRoomy}
use ether_flutter_plugin.Bignum.Shift.{bn_rshift}
use ether_flutter_plugin.Bignum.Shift.Halve.{bn_rshift-value}
use ether_flutter_plugin.Bignum.Reduce.{bn_mod}
use ether_flutter_plugin.Bignum.Reduce.FastMod.{IsModulus}
use ether_flutter_plugin.Bignum.Reduce.Modular.{bn_mod-value}
use ether_flutter_plugin.Prelude.Powers.{pow_add, pow_mul}
use ether_flutter_plugin.Bignum.Power.Congruence.{IsCongruent, IsCongruent-mul, IsCongruent-pow}
use ether_flutter_plugin.Bignum.Power.Limbs.{Fits, IsPartlyReduced, power_bits-Powers, empty_power}
use ether_flutter_plugin.Bignum.Power.{
  power_bits, power_limbs, bn_sqrt, inverse_exponent, bn_inverse,
}

-- The power of one limb, and that of the limbs above over the square.
limbs_power :
    (q r x r1 x1 r2 limb above : ℕ)
    → IsCongruent q r1 (r * x ^ limb)
    → IsCongruent q x1 (x ^ (2 ^ 30))
    → IsCongruent q r2 (r1 * x1 ^ above)
    → IsCongruent q r2 (r * x ^ (limb + 2 ^ 30 * above))
limbs_power q r x r1 x1 r2 limb above e1 ex e2 =
    e2
    ∙ IsCongruent-mul q r1 (r * x ^ limb) (x1 ^ above) ((x ^ (2 ^ 30)) ^ above) e1
        (IsCongruent-pow q above x1 (x ^ (2 ^ 30)) ex)
    ∙ ap (λ (n : ℕ). n % q)
        (mul_assoc r (x ^ limb) ((x ^ (2 ^ 30)) ^ above)
          ∙ ap (λ (t : ℕ). r * (x ^ limb * t)) (pow_mul x (2 ^ 30) above)
          ∙ ap (λ (t : ℕ). r * t) (sym (pow_add x limb (2 ^ 30 * above))))

-- The loop over the limbs raises x to the number that they stand for.
power_limbs-power :
    (i : ℕ) (limbs : List ℕ) (x res p : Bignum256)
    → i + length limbs ≡ 9
    → IsNormalized limbs
    → IsModulus p
    → Fits p x
    → IsPartlyReduced p res
    → IsPartlyReduced p (power_limbs i limbs x res p)
      × IsCongruent
          (value p)
          (value (power_limbs i limbs x res p))
          (value res * value x ^ value limbs)
unfolding power_limbs
power_limbs-power i [] x res p e h hp hx hres =
    (hres, ap (λ (n : ℕ). n % value p) (empty_power (value res) (value x) 0 refl))
power_limbs-power i (l ∷ []) x res p e h hp hx hres =
    let r = power_bits-Powers 30 (i == 8) l x res p h.0 hp hx hres in
    (
      r.result,
      r.power
          ∙ ap (λ (n : ℕ). value res * value x ^ n % value p) {y = value (l ∷ [])} (omega arith),
    )
power_limbs-power i (l ∷ m ∷ ms) x res p e h hp hx hres =
    let r = power_bits-Powers 30 (i == 8) l x res p h.0 hp hx hres in
    let more : (i == 8) ≡ false = ground arith in
    let out = power_bits 30 (i == 8) l x res p in
    let rest =
      power_limbs-power (i + 1) (m ∷ ms) out.0 out.1 p (omega arith) h.1 hp (r.base more)
        r.result in
    (
      rest.0,
      limbs_power (value p) (value res) (value x) (value out.1) (value out.0) _ l (value (m ∷ ms))
          r.power (r.squares more) rest.1,
    )

bn_one-IsPartlyReduced : (p : Bignum256) → IsModulus p → IsPartlyReduced p bn_one
unfolding bn_one
bn_one-IsPartlyReduced p hp = record {
  limbs = refl;
  normal = omega arith;
  bound = omega (arith, hp.lower);
}

value-bn_one : value bn_one ≡ 1
unfolding bn_one
value-bn_one = refl

-- The loops from res = 1, and the last reduction.
power-value :
    (limbs : List ℕ) (x p : Bignum256)
    → length limbs ≡ 9
    → IsNormalized limbs
    → IsModulus p
    → Fits p x
    → (value (bn_mod (power_limbs 0 limbs x bn_one p) p) ≡ value x ^ value limbs % value p)
      × IsNormalized (bn_mod (power_limbs 0 limbs x bn_one p) p)
power-value limbs x p e h hp hx =
    let loop =
      power_limbs-power 0 limbs x bn_one p (omega arith) h hp hx (bn_one-IsPartlyReduced p hp) in
    let out =
      bn_mod-value (power_limbs 0 limbs x bn_one p) p loop.0.limbs hp.limbs loop.0.normal hp.normal
        loop.0.bound in
    (out.0 ∙ loop.1 ∙ ap (λ (t : ℕ). t % value p) (start (value x ^ value limbs)), out.1)
  where
    start : (t : ℕ) → value bn_one * t ≡ t
    start t = ap (λ (n : ℕ). n * t) value-bn_one ∙ one-mul t

length-bn_rshift : (a : Bignum256) → length (bn_rshift a) ≡ length a
unfolding bn_rshift
length-bn_rshift [] = refl
length-bn_rshift (x ∷ []) = refl
length-bn_rshift (x ∷ y ∷ xs) = ap suc (length-bn_rshift (y ∷ xs))

length-bn_addi : (a : Bignum256) (b : ℕ) → length (bn_addi a b) ≡ length a
unfolding bn_addi
length-bn_addi [] b = refl
length-bn_addi (x ∷ xs) b = ap suc (length-bn_addi xs (u32 (b + x) >>> 30))

IsNormalized-IsRoomy : (a : Bignum256) → IsNormalized a → IsRoomy a
IsNormalized-IsRoomy [] h = tt
IsNormalized-IsRoomy (x ∷ xs) h = (omega (arith, h.0), IsNormalized-IsRoomy xs h.1)

-- For a number that fits, `bn_sqrt` is its power to (prime + 1) / 4 modulo the prime.
pub bn_sqrt-value :
    (x p : Bignum256)
    → IsModulus p
    → Fits p x
    → (value (bn_sqrt x p) ≡ value x ^ ((value p + 1) / 4) % value p) × IsNormalized (bn_sqrt x p)
unfolding bn_sqrt
bn_sqrt-value x p hp hx =
    let next = bn_addi_carry p 1 (IsNormalized-IsRoomy p hp.normal) (omega arith) in
    let half = bn_rshift-value (bn_addi p 1) next.1 in
    let quarter = bn_rshift-value (bn_rshift (bn_addi p 1)) half.1 in
    let exponent : List ℕ = bn_rshift (bn_rshift (bn_addi p 1)) in
    let len : length exponent ≡ 9 =
      length-bn_rshift (bn_rshift (bn_addi p 1))
      ∙ length-bn_rshift (bn_addi p 1)
      ∙ length-bn_addi p 1
      ∙ hp.limbs in
    let sum : value (bn_addi p 1) ≡ value p + 1 =
      next.0
      ∙ ap (λ (n : ℕ). (value p + 1) % capacity n) hp.limbs
      ∙ mod-eq_of_lt (omega (arith, hp.upper)) in
    let fourth : value exponent ≡ (value p + 1) / 4 = omega (arith, quarter.0, half.0, sum) in
    let power = power-value exponent x p len quarter.1 hp hx in
    (power.0 ∙ ap (λ (n : ℕ). value x ^ n % value p) fourth, power.1)

inverse_exponent-value :
    (p : Bignum256)
    → length p ≡ 9
    → IsNormalized p
    → 2 ≤ get_or p 0 0
    → (value (inverse_exponent p) + 2 ≡ value p)
      × IsNormalized (inverse_exponent p)
      × (length (inverse_exponent p) ≡ 9)
unfolding inverse_exponent
inverse_exponent-value [] e h two = absurd (omega arith)
inverse_exponent-value (p ∷ ps) e h two =
    (omega (arith, h.0), (omega (arith, h.0), h.1), omega arith)

-- For a number that fits and a prime whose lowest limb is 2 or more, the small `bn_inverse` is the
-- power to prime - 2 modulo the prime.
pub bn_inverse-value :
    (x p : Bignum256)
    → IsModulus p
    → 2 ≤ get_or p 0 0
    → Fits p x
    → (value (bn_inverse x p) ≡ value x ^ (value p - 2) % value p) × IsNormalized (bn_inverse x p)
unfolding bn_inverse
bn_inverse-value x p hp two hx =
    let e = inverse_exponent-value p hp.limbs hp.normal two in
    let power = power-value (inverse_exponent p) x p e.2 e.1 hp hx in
    (power.0 ∙ ap (λ (n : ℕ). value x ^ n % value p) (omega (arith, e.0)), power.1)
