-- ===== src/Bignum/Compare.antt =====
-- Tests and selection of ios/Classes/bignum.c, written there without branches.
use ether_flutter_plugin.Prelude.{
  ℕ, ◌-◌, ◌^◌, bit_and, bit_or, bit_xor, Bool, true, false, [], ◌∷◌, ltb, ◌==◌, to_int, u32, ◌<<<◌,
  replicate,
}
use ether_flutter_plugin.Bignum.Value.{Bignum256}
pub mod Order
pub mod Select

unfoldable pub bn_zero : Bignum256
bn_zero = replicate 9 0

unfoldable pub bn_one : Bignum256
bn_one = 1 ∷ replicate 8 0

-- `result |= val[i]` over the limbs.
unfoldable pub or_limbs : ℕ → Bignum256 → ℕ
or_limbs result [] = result
or_limbs result (x ∷ xs) = or_limbs (bit_or result x) xs

unfoldable pub bn_is_zero : Bignum256 → Bool
unfolding or_limbs
bn_is_zero a = or_limbs 0 a == 0

-- The pair (res1, res2) of `bn_is_less`: the loop runs from the highest limb down.
unfoldable pub less_bits : Bignum256 → Bignum256 → ℕ × ℕ
less_bits [] bs = (0, 0)
less_bits (a ∷ as') [] = (0, 0)
less_bits (a ∷ as') (b ∷ bs) =
    let (res1, res2) = less_bits as' bs in
    (bit_or (u32 (res1 <<< 1)) (to_int (ltb a b)), bit_or (u32 (res2 <<< 1)) (to_int (ltb b a)))

unfoldable pub bn_is_less : Bignum256 → Bignum256 → Bool
unfolding less_bits
bn_is_less a b = let (res1, res2) = less_bits a b in ltb res2 res1

-- `result |= a->val[i] ^ b->val[i]` over the limbs.
unfoldable pub xor_limbs : ℕ → Bignum256 → Bignum256 → ℕ
xor_limbs result [] bs = result
xor_limbs result (a ∷ as') [] = result
xor_limbs result (a ∷ as') (b ∷ bs) = xor_limbs (bit_or result (bit_xor a b)) as' bs

unfoldable pub bn_is_equal : Bignum256 → Bignum256 → Bool
unfolding xor_limbs
bn_is_equal a b = xor_limbs 0 a b == 0

unfoldable pub bn_is_even : Bignum256 → Bool
bn_is_even [] = true
bn_is_even (x ∷ xs) = bit_and x 1 == 0

unfoldable pub bn_is_odd : Bignum256 → Bool
bn_is_odd [] = false
bn_is_odd (x ∷ xs) = bit_and x 1 == 1

-- The loop of `bn_cmov`.
unfoldable pub select_limbs : ℕ → ℕ → Bignum256 → Bignum256 → Bignum256
select_limbs tmask fmask [] fs = []
select_limbs tmask fmask (t ∷ ts) [] = []
select_limbs tmask fmask (t ∷ ts) (f ∷ fs) =
    bit_or (bit_and t tmask) (bit_and f fmask) ∷ select_limbs tmask fmask ts fs

-- For a condition that is 0 or 1, as the assertion wants: `tmask` is -cond and `fmask` its complement.
unfoldable pub bn_cmov : Bool → Bignum256 → Bignum256 → Bignum256
unfolding select_limbs
bn_cmov condition truecase falsecase =
    let tmask = u32 (2 ^ 32 - to_int condition) in
    select_limbs tmask (2 ^ 32 - 1 - tmask) truecase falsecase
