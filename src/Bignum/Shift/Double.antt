-- ===== src/Bignum/Shift/Double.antt =====
-- `bn_lshift`.
use ether_flutter_plugin.Prelude.{
  ℕ, ◌+◌, ◌*◌, ◌/◌, ◌%◌, ◌^◌, ◌<◌, ◌≡◌, ◌∙◌, ap, ap₂, [], ◌∷◌, length, arith, bit_and, bit_or, u32,
  ◌<<<◌, ◌>>>◌,
}
use ether_flutter_plugin.Prelude.Bits.{bit_and_mask, bit_and_single, bit_or_fields}
use ether_flutter_plugin.Bignum.Value.{
  Bignum256, value, IsNormalized, capacity, capacity_pos, mod_limb,
}
use ether_flutter_plugin.Bignum.Shift.{lshift_limbs, bn_lshift}

shifted_limb :
    (low x : ℕ)
    → low < 2 ^ 30
    → x < 2 ^ 30
    → bit_or (bit_and (u32 (x <<< 1)) 0x3FFFFFFF) (bit_and low 0x20000000 >>> 29)
      ≡ (2 * x + low / 2 ^ 29) % 2 ^ 30
shifted_limb low x hl hx =
    let top : bit_and low 0x20000000 >>> 29 ≡ low / 2 ^ 29 = omega (arith, bit_and_single 29 low) in
    let body : bit_and (u32 (x <<< 1)) 0x3FFFFFFF ≡ x % 2 ^ 29 * 2 ^ 1 =
      bit_and_mask 30 (u32 (x <<< 1)) ∙ omega arith in
    ap₂ bit_or body top ∙ bit_or_fields 1 (x % 2 ^ 29) (low / 2 ^ 29) (omega arith) ∙ omega arith

lshift_limbs_lem :
    (low : ℕ) (a : Bignum256)
    → low < 2 ^ 30
    → IsNormalized a
    → (value (lshift_limbs low a) ≡ (2 * value a + low / 2 ^ 29) % capacity (length a))
      × IsNormalized (lshift_limbs low a)
unfolding lshift_limbs
lshift_limbs_lem low [] hl ha = (omega arith, tt)
lshift_limbs_lem low (x ∷ xs) hl ha =
    let m : ℕ = capacity (length xs) in
    let t : ℕ = 2 * x + low / 2 ^ 29 in
    let limb = shifted_limb low x hl ha.0 in
    let rest = lshift_limbs_lem x xs ha.0 ha.1 in
    let carried : (2 * value xs + x / 2 ^ 29) % m ≡ (t / 2 ^ 30 + 2 * value xs) % m =
      ap (λ (n : ℕ). n % m) (omega arith) in
    let whole : (t + 2 ^ 30 * (2 * value xs)) % (2 ^ 30 * m)
        ≡ (2 * value (x ∷ xs) + low / 2 ^ 29) % (2 ^ 30 * m) =
      ap (λ (n : ℕ). n % (2 ^ 30 * m)) (omega arith) in
    (
      omega (arith, limb, rest.0, mod_limb t (2 * value xs) m (capacity_pos (length xs))),
      (omega (arith, limb), rest.1),
    )

-- `bn_lshift` doubles a normalized number, modulo what the limbs hold, and keeps it normalized.
pub bn_lshift-value :
    (a : Bignum256)
    → IsNormalized a
    → (value (bn_lshift a) ≡ 2 * value a % capacity (length a)) × IsNormalized (bn_lshift a)
unfolding bn_lshift
bn_lshift-value [] h = (omega arith, tt)
bn_lshift-value (x ∷ xs) h =
    let m : ℕ = capacity (length xs) in
    let limb : bit_and (u32 (x <<< 1)) 0x3FFFFFFF ≡ 2 * x % 2 ^ 30 =
      bit_and_mask 30 (u32 (x <<< 1)) ∙ omega arith in
    let rest = lshift_limbs_lem x xs h.0 h.1 in
    let carried : (2 * value xs + x / 2 ^ 29) % m ≡ (2 * x / 2 ^ 30 + 2 * value xs) % m =
      ap (λ (n : ℕ). n % m) (omega arith) in
    let whole : (2 * x + 2 ^ 30 * (2 * value xs)) % (2 ^ 30 * m)
        ≡ 2 * value (x ∷ xs) % (2 ^ 30 * m) =
      ap (λ (n : ℕ). n % (2 ^ 30 * m)) (omega arith) in
    (
      omega (arith, limb, rest.0, mod_limb (2 * x) (2 * value xs) m (capacity_pos (length xs))),
      (omega (arith, limb), rest.1),
    )
