-- ===== src/Bignum/Carry/Sum.antt =====
-- What the additions compute.
use ether_flutter_plugin.Prelude.{
  ℕ, ◌+◌, ◌%◌, ◌^◌, ◌<◌, ◌≤◌, ◌≡◌, ◌∙◌, ap, [], ◌∷◌, length, arith, u32, ◌>>>◌,
}
use ether_flutter_plugin.Bignum.Value.{
  Bignum256, value, IsNormalized, capacity, capacity_pos, emit_limb, limb_small,
}
use ether_flutter_plugin.Bignum.Carry.{add_limbs, bn_add, bn_addi, bn_normalize}

pub add_limbs_lem :
    (tmp : ℕ) (a b : Bignum256)
    → length a ≡ length b
    → IsNormalized a
    → IsNormalized b
    → tmp ≤ 3
    → (value (add_limbs tmp a b) ≡ (value a + value b + tmp) % capacity (length a))
      × IsNormalized (add_limbs tmp a b)
unfolding add_limbs
add_limbs_lem tmp [] b e ha hb h = (omega arith, tt)
add_limbs_lem tmp (x ∷ xs) [] e ha hb h = absurd (omega arith)
add_limbs_lem tmp (x ∷ xs) (y ∷ ys) e ha hb h =
    let t : ℕ = u32 (tmp + u32 (x + y)) in
    let exact : t ≡ tmp + x + y = omega arith in
    let rest = add_limbs_lem (t >>> 30) xs ys (omega arith) ha.1 hb.1 (omega arith) in
    (
      emit_limb t (value xs + value ys) (capacity (length xs)) _ _ (capacity_pos (length xs))
          (omega arith) (rest.0 ∙ ap (λ (n : ℕ). n % capacity (length xs)) (omega arith)),
      (limb_small t, rest.1),
    )

-- `bn_add` of normalized numbers of the same count of limbs is their sum modulo what the limbs hold,
-- and is normalized.
pub bn_add-value :
    (a b : Bignum256)
    → length a ≡ length b
    → IsNormalized a
    → IsNormalized b
    → (value (bn_add a b) ≡ (value a + value b) % capacity (length a)) × IsNormalized (bn_add a b)
unfolding bn_add
bn_add-value a b e ha hb =
    let sum = add_limbs_lem 0 a b e ha hb (omega arith) in
    (sum.0 ∙ ap (λ (n : ℕ). n % capacity (length a)) (omega arith), sum.1)

-- The limbs may be any `uint32_t` whose sum with the carry does not wrap.
abbrev pub IsRoomy : Bignum256 → Type 0
IsRoomy [] = Unit {0}
IsRoomy (x ∷ xs) = (x + 3 < 2 ^ 32) × IsRoomy xs

pub bn_addi_carry :
    (a : Bignum256) (b : ℕ)
    → IsRoomy a
    → b ≤ 3
    → (value (bn_addi a b) ≡ (value a + b) % capacity (length a)) × IsNormalized (bn_addi a b)
unfolding bn_addi
bn_addi_carry [] b ha h = (omega arith, tt)
bn_addi_carry (x ∷ xs) b ha h =
    let t : ℕ = u32 (b + x) in
    let exact : t ≡ b + x = omega arith in
    let rest = bn_addi_carry xs (t >>> 30) ha.1 (omega arith) in
    (
      emit_limb t (value xs) (capacity (length xs)) _ _ (capacity_pos (length xs)) (omega arith)
          (rest.0 ∙ ap (λ (n : ℕ). n % capacity (length xs)) (omega arith)),
      (limb_small t, rest.1),
    )

-- For limbs below 2^32 - 3, `bn_normalize` keeps the number modulo what the limbs hold, and the
-- result is normalized.
pub bn_normalize-value :
    (a : Bignum256)
    → IsRoomy a
    → (value (bn_normalize a) ≡ value a % capacity (length a)) × IsNormalized (bn_normalize a)
unfolding bn_normalize
bn_normalize-value a h =
    let sum = bn_addi_carry a 0 h (omega arith) in
    (sum.0 ∙ ap (λ (n : ℕ). n % capacity (length a)) (omega arith), sum.1)
