-- ===== src/Bignum/Shift.antt =====
-- Doubling and halving in ios/Classes/bignum.c.
use ether_flutter_plugin.Prelude.{
  ℕ, ◌+◌, ◌-◌, ◌*◌, ◌^◌, [], ◌∷◌, bit_and, bit_or, u32, ◌<<<◌, ◌>>>◌,
}
use ether_flutter_plugin.Bignum.Value.{Bignum256}
pub mod Double
pub mod Halve

-- Each limb takes the top bit of the limb below it, `low`.
unfoldable pub lshift_limbs : ℕ → Bignum256 → Bignum256
lshift_limbs low [] = []
lshift_limbs low (x ∷ xs) =
    bit_or (bit_and (u32 (x <<< 1)) 0x3FFFFFFF) (bit_and low 0x20000000 >>> 29) ∷ lshift_limbs x xs

-- The lowest limb takes no bit from below.
unfoldable pub bn_lshift : Bignum256 → Bignum256
unfolding lshift_limbs
bn_lshift [] = []
bn_lshift (x ∷ xs) = bit_and (u32 (x <<< 1)) 0x3FFFFFFF ∷ lshift_limbs x xs

-- Each limb takes the lowest bit of the limb above it.
unfoldable pub bn_rshift : Bignum256 → Bignum256
bn_rshift [] = []
bn_rshift (x ∷ []) = x >>> 1 ∷ []
bn_rshift (x ∷ y ∷ xs) = bit_or (x >>> 1) (u32 (bit_and y 1 <<< 29)) ∷ bn_rshift (y ∷ xs)

-- The loop of `bn_mult_half`, at the limbs above the one that `tmp1` comes from.
unfoldable pub half_limbs : ℕ → ℕ → Bignum256 → Bignum256 → Bignum256
half_limbs xodd tmp1 [] ps = tmp1 ∷ []
half_limbs xodd tmp1 (x ∷ xs) [] = tmp1 ∷ []
half_limbs xodd tmp1 (x ∷ xs) (p ∷ ps) =
    let tmp2 = u32 (x + bit_and p xodd) in
    let tmp1' = u32 (tmp1 + u32 (bit_and tmp2 1 <<< 29)) in
    bit_and tmp1' 0x3FFFFFFF ∷ half_limbs xodd (u32 (tmp1' >>> 30 + tmp2 >>> 1)) xs ps

-- `xodd` is all ones if the number is odd, and 0 otherwise.
unfoldable pub bn_mult_half : Bignum256 → Bignum256 → Bignum256
unfolding half_limbs
bn_mult_half [] ps = []
bn_mult_half (x ∷ xs) [] = []
bn_mult_half (x ∷ xs) (p ∷ ps) =
    let xodd = u32 (2 ^ 32 - bit_and x 1) in half_limbs xodd (u32 (x + bit_and p xodd) >>> 1) xs ps
