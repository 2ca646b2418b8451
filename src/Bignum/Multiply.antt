-- ===== src/Bignum/Multiply.antt =====
-- The multiplication of ios/Classes/bignum.c modulo a prime slightly below 2^256.
use ether_flutter_plugin.Prelude.{
  ℕ, zero, suc, ◌+◌, ◌-◌, ◌*◌, ◌/◌, ◌^◌, List, [], ◌∷◌, ◌++◌, bit_and, u32, u64, ◌<<<◌, ◌>>>◌, ltb,
  if◌then◌else◌, get_or, take, drop,
}
use ether_flutter_plugin.Bignum.Value.{Bignum256}
pub mod Long
pub mod Step
pub mod Limbs
pub mod Product

-- The loop over j, with `left` rounds to go: `temp += k->val[j] * (uint64_t)x->val[i - j]`.
unfoldable pub column : Bignum256 → Bignum256 → ℕ → ℕ → ℕ → ℕ → ℕ
column k x i zero j temp = temp
column k x i (suc left) j temp =
    column k x i left (j + 1) (u64 (temp + u64 (get_or k j 0 * get_or x (i - j) 0)))

-- The loops over i: the lower half takes j from 0 to i, the upper half from i - 8 to 8.
unfoldable pub long_limbs : Bignum256 → Bignum256 → ℕ → ℕ → ℕ → List ℕ
unfolding column
long_limbs k x zero i temp = bit_and temp 0x3FFFFFFF ∷ []
long_limbs k x (suc left) i temp =
    let total = column k x i (if ltb i 9 then i + 1 else 17 - i) (i - 8) temp in
    bit_and total 0x3FFFFFFF ∷ long_limbs k x left (i + 1) (total >>> 30)

-- The 18 limbs of `res`.
unfoldable pub bn_multiply_long : Bignum256 → Bignum256 → List ℕ
bn_multiply_long k x = long_limbs k x 17 0 0

-- The loop of `bn_multiply_reduce_step` after its unrolled first round, and the limb behind the
-- prime; `carry` is `temp >> 30`.
unfoldable pub step_limbs : ℕ → ℕ → List ℕ → Bignum256 → List ℕ
step_limbs coef carry [] ps = []
step_limbs coef carry (x ∷ xs) [] =
    let temp = u64 (carry + (0x1FFFFFFF80000000 + x)) in bit_and temp 0x3FFFFFFF ∷ xs
step_limbs coef carry (x ∷ xs) (p ∷ ps) =
    let temp = u64 (carry + (0x1FFFFFFF80000000 + x + 2 ^ 64 - u64 (p * coef))) in
    bit_and temp 0x3FFFFFFF ∷ step_limbs coef (temp >>> 30) xs ps

-- The step on the limbs from i - 8 on.
unfoldable pub step_from : ℕ → List ℕ → Bignum256 → List ℕ
unfolding step_limbs
step_from coef [] ps = []
step_from coef (x ∷ xs) [] = x ∷ xs
step_from coef (x ∷ xs) (p ∷ ps) =
    let temp = u64 (0x2000000000000000 + x + 2 ^ 64 - u64 (p * coef)) in
    bit_and temp 0x3FFFFFFF ∷ step_limbs coef (temp >>> 30) xs ps

unfoldable pub step_coef : List ℕ → ℕ → ℕ
step_coef res i = u32 ((get_or res i 0 >>> 16) + u32 (get_or res (i + 1) 0 <<< 14))

unfoldable pub bn_multiply_reduce_step : List ℕ → Bignum256 → ℕ → List ℕ
unfolding step_from step_coef
bn_multiply_reduce_step res prime i =
    take (i - 8) res ++ step_from (step_coef res i) (drop (i - 8) res) prime

-- The steps for i = 7 + left down to 8.
unfoldable pub reduce_steps : ℕ → List ℕ → Bignum256 → List ℕ
reduce_steps zero res prime = res
reduce_steps (suc left) res prime =
    reduce_steps left (bn_multiply_reduce_step res prime (8 + left)) prime

unfoldable pub bn_multiply_reduce : List ℕ → Bignum256 → Bignum256
bn_multiply_reduce res prime = take 9 (reduce_steps 9 res prime)

unfoldable pub bn_multiply : Bignum256 → Bignum256 → Bignum256 → Bignum256
bn_multiply k x prime = bn_multiply_reduce (bn_multiply_long k x) prime
