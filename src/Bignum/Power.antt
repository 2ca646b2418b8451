-- ===== src/Bignum/Power.antt =====
-- The powers of ios/Classes/bignum.c: `bn_sqrt`, and `bn_inverse` as it stands where
-- USE_INVERSE_FAST is 0.
use ether_flutter_plugin.Prelude.{
  ℕ, zero, suc, ◌+◌, ◌-◌, ◌*◌, ◌/◌, ◌^◌, List, [], ◌∷◌, bit_and, Bool, true, false, ◌&&◌, ◌==◌,
  if◌then◌else◌, ◌>>>◌, u32,
}
use ether_flutter_plugin.Bignum.Value.{Bignum256}
use ether_flutter_plugin.Bignum.Compare.{bn_one}
use ether_flutter_plugin.Bignum.Carry.{bn_addi}
use ether_flutter_plugin.Bignum.Shift.{bn_rshift}
use ether_flutter_plugin.Bignum.Reduce.{bn_mod}
use ether_flutter_plugin.Bignum.Multiply.{bn_multiply}
pub mod Congruence
pub mod Limbs
pub mod Sqrt

-- The loop over j, with `left` rounds to go: the new x and res.
unfoldable pub power_bits : ℕ → Bool → ℕ → Bignum256 → Bignum256 → Bignum256 → Bignum256 × Bignum256
power_bits zero last limb x res prime = (x, res)
power_bits (suc left) last limb x res prime =
    let rest =
      power_bits left last (limb >>> 1) (bn_multiply x x prime)
        (if bit_and limb 1 == 0 then res else bn_multiply x res prime) prime in
    if last && limb == 0 then (x, res) else rest

-- The loop over i, at the limbs from i on.
unfoldable pub power_limbs : ℕ → List ℕ → Bignum256 → Bignum256 → Bignum256 → Bignum256
unfolding power_bits
power_limbs i [] x res prime = res
power_limbs i (limb ∷ limbs) x res prime =
    let (x', res') = power_bits 30 (i == 8) limb x res prime in
    power_limbs (i + 1) limbs x' res' prime

-- (prime + 1) / 4 is the exponent.
unfoldable pub bn_sqrt : Bignum256 → Bignum256 → Bignum256
unfolding power_limbs
bn_sqrt x prime =
    let p = bn_rshift (bn_rshift (bn_addi prime 1)) in bn_mod (power_limbs 0 p x bn_one prime) prime

-- `if (i == 0) limb -= 2;`
unfoldable pub inverse_exponent : Bignum256 → List ℕ
inverse_exponent [] = []
inverse_exponent (p ∷ ps) = u32 (p + 2 ^ 32 - 2) ∷ ps

-- prime - 2 is the exponent.
unfoldable pub bn_inverse : Bignum256 → Bignum256 → Bignum256
unfolding power_limbs inverse_exponent
bn_inverse x prime = bn_mod (power_limbs 0 (inverse_exponent prime) x bn_one prime) prime
