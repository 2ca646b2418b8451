-- ===== src/Bignum/Reduce.antt =====
-- Reductions of ios/Classes/bignum.c modulo a prime slightly below 2^256.
use ether_flutter_plugin.Prelude.{
  ℕ, ◌+◌, ◌-◌, ◌*◌, ◌^◌, [], ◌∷◌, map, bit_and, u32, u64, ◌>>>◌, get_or,
}
use ether_flutter_plugin.Bignum.Value.{Bignum256}
use ether_flutter_plugin.Bignum.Compare.{bn_is_less, bn_cmov}
use ether_flutter_plugin.Bignum.Carry.{bn_subtract}
pub mod FastMod
pub mod Modular
pub mod Lengths

-- The loop of `bn_fast_mod` after its unrolled first round; `carry` is `temp >> 30`.
-- 2^64 is added before each unsigned subtraction.
unfoldable pub fast_limbs : ℕ → ℕ → Bignum256 → Bignum256 → Bignum256
fast_limbs coef carry [] ps = []
fast_limbs coef carry (x ∷ xs) [] = []
fast_limbs coef carry (x ∷ xs) (p ∷ ps) =
    let temp = u64 (carry + (0x1FFFFFFF80000000 + x + 2 ^ 64 - u64 (p * coef))) in
    bit_and temp 0x3FFFFFFF ∷ fast_limbs coef (temp >>> 30) xs ps

unfoldable pub bn_fast_mod : Bignum256 → Bignum256 → Bignum256
unfolding fast_limbs
bn_fast_mod [] ps = []
bn_fast_mod (x ∷ xs) [] = []
bn_fast_mod (x ∷ xs) (p ∷ ps) =
    let coef = get_or (x ∷ xs) 8 0 >>> 16 in
    let temp = u64 (0x2000000000000000 + x + 2 ^ 64 - u64 (p * coef)) in
    bit_and temp 0x3FFFFFFF ∷ fast_limbs coef (temp >>> 30) xs ps

-- `x` and the result are one object in `bn_mod`, which reads each limb before it writes it.
unfoldable pub bn_mod : Bignum256 → Bignum256 → Bignum256
unfolding bn_is_less bn_subtract bn_cmov
bn_mod x prime = bn_cmov (bn_is_less x prime) x (bn_subtract x prime)

-- `a->val[i] += b->val[i]`.
unfoldable pub plus_limbs : Bignum256 → Bignum256 → Bignum256
plus_limbs [] bs = []
plus_limbs (a ∷ as') [] = a ∷ as'
plus_limbs (a ∷ as') (b ∷ bs) = u32 (a + b) ∷ plus_limbs as' bs

unfoldable pub bn_addmod : Bignum256 → Bignum256 → Bignum256 → Bignum256
unfolding plus_limbs bn_fast_mod
bn_addmod a b prime = bn_fast_mod (plus_limbs a b) prime

unfoldable pub bn_mult_k : Bignum256 → ℕ → Bignum256 → Bignum256
unfolding bn_fast_mod
bn_mult_k x k prime = bn_fast_mod (map (λ limb. u32 (k * limb)) x) prime
