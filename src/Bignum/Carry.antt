-- ===== src/Bignum/Carry.antt =====
-- Additions and subtractions of ios/Classes/bignum.c with a carry from limb to limb.
use ether_flutter_plugin.Prelude.{ℕ, ◌+◌, ◌-◌, ◌*◌, ◌^◌, [], ◌∷◌, bit_and, u32, ◌>>>◌}
use ether_flutter_plugin.Bignum.Value.{Bignum256}
pub mod Sum
pub mod Difference

-- The loop of `bn_add`, `tmp` the carry.
unfoldable pub add_limbs : ℕ → Bignum256 → Bignum256 → Bignum256
add_limbs tmp [] bs = []
add_limbs tmp (a ∷ as') [] = []
add_limbs tmp (a ∷ as') (b ∷ bs) =
    let tmp' = u32 (tmp + u32 (a + b)) in bit_and tmp' 0x3FFFFFFF ∷ add_limbs (tmp' >>> 30) as' bs

unfoldable pub bn_add : Bignum256 → Bignum256 → Bignum256
unfolding add_limbs
bn_add a b = add_limbs 0 a b

unfoldable pub bn_addi : Bignum256 → ℕ → Bignum256
bn_addi [] b = []
bn_addi (a ∷ as') b = let tmp = u32 (b + a) in bit_and tmp 0x3FFFFFFF ∷ bn_addi as' (tmp >>> 30)

unfoldable pub bn_normalize : Bignum256 → Bignum256
unfolding bn_addi
bn_normalize a = bn_addi a 0

-- `a->val[0] -= b` may wrap; adding the prime wraps back. The assertion `b <= prime->val[0]` is
-- left to the caller.
unfoldable pub bn_subi : Bignum256 → ℕ → Bignum256 → Bignum256
unfolding bn_add
bn_subi [] b prime = []
bn_subi (a ∷ as') b prime = bn_add (u32 (a + 2 ^ 32 - b) ∷ as') prime

-- The loop of `bn_subtract`. 2^32 is added before each unsigned subtraction.
unfoldable pub subtract_limbs : ℕ → Bignum256 → Bignum256 → Bignum256
subtract_limbs tmp [] bs = []
subtract_limbs tmp (a ∷ as') [] = []
subtract_limbs tmp (a ∷ as') (b ∷ bs) =
    let tmp' = u32 (tmp + u32 (0x3FFFFFFF + a + 2 ^ 32 - b)) in
    bit_and tmp' 0x3FFFFFFF ∷ subtract_limbs (tmp' >>> 30) as' bs

unfoldable pub bn_subtract : Bignum256 → Bignum256 → Bignum256
unfolding subtract_limbs
bn_subtract a b = subtract_limbs 1 a b

-- The loop of `bn_subtractmod`.
unfoldable pub subtractmod_limbs : ℕ → Bignum256 → Bignum256 → Bignum256 → Bignum256
subtractmod_limbs temp [] bs ps = []
subtractmod_limbs temp (a ∷ as') [] ps = []
subtractmod_limbs temp (a ∷ as') (b ∷ bs) [] = []
subtractmod_limbs temp (a ∷ as') (b ∷ bs) (p ∷ ps) =
    let temp' = u32 (temp + u32 (0x3FFFFFFF + a + 2 * p + 2 ^ 32 - b)) in
    bit_and temp' 0x3FFFFFFF ∷ subtractmod_limbs (temp' >>> 30) as' bs ps

unfoldable pub bn_subtractmod : Bignum256 → Bignum256 → Bignum256 → Bignum256
unfolding subtractmod_limbs
bn_subtractmod a b prime = subtractmod_limbs 1 a b prime
