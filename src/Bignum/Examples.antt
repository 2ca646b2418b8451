-- ===== src/Bignum/Examples.antt =====
-- The theorems on ios/Classes/bignum.c at the prime, the base point and the order of secp256k1.
use ether_flutter_plugin.Prelude.{
  ℕ, zero, suc, ◌+◌, ◌-◌, ◌*◌, ◌/◌, ◌%◌, ◌^◌, ◌<◌, ◌≤◌, ◌≡◌, ◌↔◌, refl, Bool, true, false, ◌&&◌,
  List, [], ◌∷◌, ◌++◌, ltb, length, get_or, replicate, arith,
}
use ether_flutter_plugin.Bignum.Value.{Bignum256, value, IsNormalized, IsWords, capacity}
use ether_flutter_plugin.Bignum.Compare.{bn_is_less, bn_is_zero, bn_is_equal, bn_cmov}
use ether_flutter_plugin.Bignum.Compare.Order.{bn_is_less_iff}
use ether_flutter_plugin.Bignum.Compare.Select.{bn_is_equal_iff, bn_is_zero_iff, bn_cmov-select}
use ether_flutter_plugin.Bignum.Carry.{bn_add, bn_normalize, bn_subtract, bn_subtractmod, bn_subi}
use ether_flutter_plugin.Bignum.Carry.Sum.{bn_add-value, IsRoomy, bn_normalize-value}
use ether_flutter_plugin.Bignum.Carry.Difference.{
  bn_subtract-value, bn_subtractmod-value, bn_subi-value,
}
use ether_flutter_plugin.Bignum.Shift.{bn_lshift, bn_rshift, bn_mult_half}
use ether_flutter_plugin.Bignum.Shift.Double.{bn_lshift-value}
use ether_flutter_plugin.Bignum.Shift.Halve.{bn_rshift-value, bn_mult_half-value}
use ether_flutter_plugin.Bignum.Reduce.{bn_fast_mod, bn_mod, bn_addmod, bn_mult_k}
use ether_flutter_plugin.Bignum.Reduce.FastMod.{IsModulus, bn_fast_mod-value}
use ether_flutter_plugin.Bignum.Reduce.Modular.{bn_mod-value, bn_addmod-value, bn_mult_k-value}
use ether_flutter_plugin.Bignum.Bytes.{
  bn_read_be, bn_write_be, read_be, write_be, read_le, write_le,
}
use ether_flutter_plugin.Bignum.Bytes.Words.{IsBytes, be_value, read_be-write_be, read_le-write_le}
use ether_flutter_plugin.Bignum.Bytes.Read.{bn_read_be-value}
use ether_flutter_plugin.Bignum.Bytes.Write.{
  bn_write_be-value, bn_write_be-bn_read_be, bn_read_be-bn_write_be,
}
use ether_flutter_plugin.Bignum.Divide.{
  bn_divmod58, bn_divmod1000, bn_divmod58-value, bn_divmod1000-value,
}
mod Field

unfoldable pub all_below : ℕ → List ℕ → Bool
all_below bound [] = true
all_below bound (x ∷ xs) = ltb x bound && all_below bound xs

pub all_below-IsNormalized : (xs : List ℕ) → all_below (2 ^ 30) xs ≡ true → IsNormalized xs
unfolding all_below
all_below-IsNormalized [] h = tt
all_below-IsNormalized (x ∷ xs) h = (ground arith, all_below-IsNormalized xs (ground arith))

pub all_below-IsWords : (xs : List ℕ) → all_below (2 ^ 32) xs ≡ true → IsWords xs
unfolding all_below
all_below-IsWords [] h = tt
all_below-IsWords (x ∷ xs) h = (ground arith, all_below-IsWords xs (ground arith))

all_below-IsRoomy : (xs : List ℕ) → all_below (2 ^ 32 - 3) xs ≡ true → IsRoomy xs
unfolding all_below
all_below-IsRoomy [] h = tt
all_below-IsRoomy (x ∷ xs) h = (ground arith, all_below-IsRoomy xs (ground arith))

all_below-IsBytes : (xs : List ℕ) → all_below 256 xs ≡ true → IsBytes xs
unfolding all_below
all_below-IsBytes [] h = tt
all_below-IsBytes (x ∷ xs) h = (ground arith, all_below-IsBytes xs (ground arith))

-- The prime of secp256k1.
abbrev pub prime : Bignum256
prime =
    0x3ffffc2f ∷ 0x3ffffffb ∷ 0x3fffffff ∷ 0x3fffffff ∷ 0x3fffffff ∷ 0x3fffffff ∷ 0x3fffffff
    ∷ 0x3fffffff ∷ 0xffff ∷ []

-- The first coordinate of its base point.
abbrev pub base_x : Bignum256
base_x =
    0x16f81798 ∷ 0x27ca056c ∷ 0x1ce28d95 ∷ 0x26ff36cb ∷ 0x70b0702 ∷ 0x18a573a ∷ 0xbbac55a
    ∷ 0x199fbe77 ∷ 0x79be ∷ []

-- Limbs that are not normalized.
abbrev pub loose : Bignum256
loose = replicate 9 0xfffffffc

abbrev thirty_two : List ℕ
thirty_two = replicate 32 0xab

pub prime-IsNormalized : IsNormalized prime
unfolding all_below
prime-IsNormalized = all_below-IsNormalized prime refl

pub base_x-IsNormalized : IsNormalized base_x
unfolding all_below
base_x-IsNormalized = all_below-IsNormalized base_x refl

pub loose-IsWords : IsWords loose
unfolding all_below
loose-IsWords = all_below-IsWords loose refl

pub loose-IsRoomy : IsRoomy loose
unfolding all_below
loose-IsRoomy = all_below-IsRoomy loose refl

thirty_two-IsBytes : IsBytes thirty_two
unfolding all_below
thirty_two-IsBytes = all_below-IsBytes thirty_two refl

pub prime-IsModulus : IsModulus prime
prime-IsModulus = record {
  limbs = refl;
  normal = prime-IsNormalized;
  lower = omega arith;
  upper = omega arith;
}

bn_write_be-bn_read_be_example : bn_write_be (bn_read_be thirty_two) ≡ thirty_two
bn_write_be-bn_read_be_example = bn_write_be-bn_read_be thirty_two refl thirty_two-IsBytes

bn_read_be-bn_write_be_example : bn_read_be (bn_write_be base_x) ≡ base_x
bn_read_be-bn_write_be_example =
    bn_read_be-bn_write_be base_x refl base_x-IsNormalized (omega arith)

bn_write_be-value_example :
    (be_value 0 (bn_write_be base_x) ≡ value base_x)
    × IsBytes (bn_write_be base_x)
    × (length (bn_write_be base_x) ≡ 32)
bn_write_be-value_example = bn_write_be-value base_x refl base_x-IsNormalized (omega arith)

bn_read_be-value_example :
    (value (bn_read_be thirty_two) ≡ be_value 0 thirty_two) × IsNormalized (bn_read_be thirty_two)
bn_read_be-value_example = bn_read_be-value thirty_two refl thirty_two-IsBytes
