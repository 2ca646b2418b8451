-- ===== src/Bignum/Examples/Field.antt =====
-- The theorems on the arithmetic of ios/Classes/bignum.c at numbers of secp256k1.
use ether_flutter_plugin.Prelude.{
  ℕ, ◌+◌, ◌-◌, ◌*◌, ◌/◌, ◌%◌, ◌^◌, ◌<◌, ◌≡◌, ◌↔◌, refl, true, false, ◌∷◌, length, drop, get_or,
  replicate, arith,
}
use ether_flutter_plugin.Bignum.Value.{value, IsNormalized, IsWords, capacity}
use ether_flutter_plugin.Bignum.Compare.{bn_is_less, bn_is_equal, bn_cmov}
use ether_flutter_plugin.Bignum.Compare.Order.{bn_is_less_iff}
use ether_flutter_plugin.Bignum.Compare.Select.{bn_is_equal_iff, bn_cmov-select}
use ether_flutter_plugin.Bignum.Carry.{bn_add, bn_normalize, bn_subtract, bn_subtractmod, bn_subi}
use ether_flutter_plugin.Bignum.Carry.Sum.{bn_add-value, bn_normalize-value}
use ether_flutter_plugin.Bignum.Carry.Difference.{
  bn_subtract-value, bn_subtractmod-value, bn_subi-value,
}
use ether_flutter_plugin.Bignum.Shift.{bn_rshift, bn_mult_half}
use ether_flutter_plugin.Bignum.Shift.Halve.{bn_rshift-value, bn_mult_half-value}
use ether_flutter_plugin.Bignum.Reduce.{bn_fast_mod, bn_mod, bn_addmod, bn_mult_k}
use ether_flutter_plugin.Bignum.Reduce.FastMod.{bn_fast_mod-value}
use ether_flutter_plugin.Bignum.Reduce.Modular.{bn_mod-value, bn_addmod-value, bn_mult_k-value}
use ether_flutter_plugin.Bignum.Divide.{bn_divmod58, bn_divmod58-value}
use ether_flutter_plugin.Bignum.Multiply.{bn_multiply}
use ether_flutter_plugin.Bignum.Multiply.Product.{bn_multiply-value}
use ether_flutter_plugin.Bignum.Power.{bn_sqrt, bn_inverse}
use ether_flutter_plugin.Bignum.Power.Limbs.{Fits}
use ether_flutter_plugin.Bignum.Power.Sqrt.{bn_sqrt-value, bn_inverse-value}
use ether_flutter_plugin.Bignum.Examples.{
  prime, base_x, loose, prime-IsNormalized, base_x-IsNormalized, loose-IsWords, loose-IsRoomy,
  prime-IsModulus, all_below, all_below-IsWords,
}

bn_fast_mod-value_example :
    (value (bn_fast_mod loose prime) + get_or loose 8 0 / 2 ^ 16 * value prime ≡ value loose)
    × IsNormalized (bn_fast_mod loose prime)
    × (value (bn_fast_mod loose prime) < 2 * value prime)
bn_fast_mod-value_example = bn_fast_mod-value loose prime refl loose-IsWords prime-IsModulus

bn_mod-value_example :
    (value (bn_mod prime prime) ≡ value prime % value prime) × IsNormalized (bn_mod prime prime)
bn_mod-value_example =
    bn_mod-value prime prime refl refl prime-IsNormalized prime-IsNormalized (omega arith)

bn_addmod-value_example :
    (value (bn_addmod prime base_x prime) % value prime
      ≡ (value prime + value base_x) % value prime)
    × IsNormalized (bn_addmod prime base_x prime)
    × (value (bn_addmod prime base_x prime) < 2 * value prime)
bn_addmod-value_example =
    bn_addmod-value prime base_x prime refl refl prime-IsNormalized base_x-IsNormalized
      prime-IsModulus

bn_mult_k-value_example :
    (value (bn_mult_k base_x 3 prime) % value prime ≡ 3 * value base_x % value prime)
    × IsNormalized (bn_mult_k base_x 3 prime)
    × (value (bn_mult_k base_x 3 prime) < 2 * value prime)
bn_mult_k-value_example =
    bn_mult_k-value base_x 3 prime refl base_x-IsNormalized (omega arith) prime-IsModulus

bn_is_less_iff_example : (bn_is_less base_x prime ≡ true) ↔ (value base_x < value prime)
bn_is_less_iff_example =
    bn_is_less_iff base_x prime refl (omega arith) base_x-IsNormalized prime-IsNormalized

bn_is_equal_iff_example : (bn_is_equal base_x prime ≡ true) ↔ (value base_x ≡ value prime)
bn_is_equal_iff_example = bn_is_equal_iff base_x prime refl base_x-IsNormalized prime-IsNormalized

sevens-IsWords : IsWords (replicate 9 7)
unfolding all_below
sevens-IsWords = all_below-IsWords (replicate 9 7) refl

bn_cmov-select_example :
    (bn_cmov true loose (replicate 9 7) ≡ loose)
    × (bn_cmov false loose (replicate 9 7) ≡ replicate 9 7)
bn_cmov-select_example = bn_cmov-select loose (replicate 9 7) refl loose-IsWords sevens-IsWords

bn_add-value_example :
    (value (bn_add prime base_x) ≡ (value prime + value base_x) % capacity (length prime))
    × IsNormalized (bn_add prime base_x)
bn_add-value_example = bn_add-value prime base_x refl prime-IsNormalized base_x-IsNormalized

bn_normalize-value_example :
    (value (bn_normalize loose) ≡ value loose % capacity (length loose))
    × IsNormalized (bn_normalize loose)
bn_normalize-value_example = bn_normalize-value loose loose-IsRoomy

bn_subtract-value_example :
    (value (bn_subtract base_x prime)
      ≡ (value base_x + capacity (length base_x) - value prime) % capacity (length base_x))
    × IsNormalized (bn_subtract base_x prime)
bn_subtract-value_example =
    bn_subtract-value base_x prime refl base_x-IsNormalized prime-IsNormalized

bn_subtractmod-value_example :
    (value (bn_subtractmod base_x prime prime) ≡ value base_x + 2 * value prime - value prime)
    × IsNormalized (bn_subtractmod base_x prime prime)
bn_subtractmod-value_example =
    bn_subtractmod-value base_x prime prime refl refl base_x-IsNormalized prime-IsNormalized
      prime-IsNormalized (omega arith) (omega arith)

bn_subi-value_example :
    (value (bn_subi (2 ∷ drop 1 base_x) 5 (0x3ffffc2f ∷ drop 1 prime))
      ≡ (value (2 ∷ drop 1 base_x) + value (0x3ffffc2f ∷ drop 1 prime) - 5)
        % capacity (length (2 ∷ drop 1 base_x)))
    × IsNormalized (bn_subi (2 ∷ drop 1 base_x) 5 (0x3ffffc2f ∷ drop 1 prime))
bn_subi-value_example =
    bn_subi-value 2 5 0x3ffffc2f (drop 1 base_x) (drop 1 prime) refl
      (omega arith, base_x-IsNormalized.1) prime-IsNormalized (omega arith)

bn_rshift-value_example :
    (value (bn_rshift prime) ≡ value prime / 2) × IsNormalized (bn_rshift prime)
bn_rshift-value_example = bn_rshift-value prime prime-IsNormalized

bn_mult_half-value_example :
    (2 * value (bn_mult_half (3 ∷ drop 1 base_x) (0x3ffffc2f ∷ drop 1 prime))
      ≡ value (3 ∷ drop 1 base_x) + 3 % 2 * value (0x3ffffc2f ∷ drop 1 prime))
    × IsNormalized (bn_mult_half (3 ∷ drop 1 base_x) (0x3ffffc2f ∷ drop 1 prime))
bn_mult_half-value_example =
    bn_mult_half-value 3 0x3ffffc2f (drop 1 base_x) (drop 1 prime) refl
      (omega arith, base_x-IsNormalized.1) prime-IsNormalized (omega arith)

bn_divmod58-value_example :
    (58 * value (bn_divmod58 prime).0 + (bn_divmod58 prime).1 ≡ value prime)
    × ((bn_divmod58 prime).1 < 58)
    × IsNormalized (bn_divmod58 prime).0
bn_divmod58-value_example = bn_divmod58-value prime prime-IsNormalized

bn_multiply-value_example :
    (c : ℕ) × (value (bn_multiply base_x base_x prime) + c * value prime
      ≡ value base_x * value base_x)
    × (value (bn_multiply base_x base_x prime) < 2 * value prime)
    × IsNormalized (bn_multiply base_x base_x prime)
    × (length (bn_multiply base_x base_x prime) ≡ 9)
bn_multiply-value_example =
    bn_multiply-value base_x base_x prime refl refl base_x-IsNormalized base_x-IsNormalized
      prime-IsModulus (omega arith)

base_x-Fits : Fits prime base_x
base_x-Fits = record { limbs = refl; normal = base_x-IsNormalized; bound = omega arith }

bn_sqrt-value_example :
    (value (bn_sqrt base_x prime) ≡ value base_x ^ ((value prime + 1) / 4) % value prime)
    × IsNormalized (bn_sqrt base_x prime)
bn_sqrt-value_example = bn_sqrt-value base_x prime prime-IsModulus base_x-Fits

bn_inverse-value_example :
    (value (bn_inverse base_x prime) ≡ value base_x ^ (value prime - 2) % value prime)
    × IsNormalized (bn_inverse base_x prime)
bn_inverse-value_example = bn_inverse-value base_x prime prime-IsModulus (omega arith) base_x-Fits
