-- ===== src/Bignum/Reduce/FastMod.antt =====
-- `bn_fast_mod` subtracts a multiple of the prime and leaves less than twice the prime.
use ether_flutter_plugin.Prelude.{
  ℕ, zero, suc, ◌+◌, ◌-◌, ◌*◌, ◌/◌, ◌%◌, ◌^◌, ◌<◌, ◌≤◌, ◌≡◌, ◌∙◌, refl, ap, [], ◌∷◌, length, arith,
  bit_and, u64, ◌>>>◌, get_or,
}
use native.Mathlib.Nat.{mod-eq_of_lt, add-mul-mod_self_right, mul-le-mul, mul-add}
use ether_flutter_plugin.Bignum.Value.{
  Bignum256, value, IsNormalized, IsWords, capacity, capacity_pos, value-lt-capacity, emit_limb,
  limb_small,
}
use ether_flutter_plugin.Bignum.Reduce.{fast_limbs, bn_fast_mod}

-- The carry enters with the surplus 2^31 that keeps every `temp` from falling below 0.
pub fast_limbs_lem :
    (coef carry : ℕ) (x p : Bignum256)
    → coef < 2 ^ 31
    → carry ≤ 2 ^ 33
    → length x ≡ length p
    → IsWords x
    → IsNormalized p
    → (value (fast_limbs coef carry x p)
        ≡ (value x + carry + 2 ^ 31 * (capacity (length x) - 1) - coef * value p)
          % capacity (length x))
      × IsNormalized (fast_limbs coef carry x p)
unfolding fast_limbs
fast_limbs_lem coef carry [] [] hc hk e hx hp = (omega arith, tt)
fast_limbs_lem coef carry [] (p ∷ ps) hc hk e hx hp = absurd (omega arith)
fast_limbs_lem coef carry (x ∷ xs) [] hc hk e hx hp = absurd (omega arith)
fast_limbs_lem coef carry (x ∷ xs) (p ∷ ps) hc hk e hx hp =
    let m : ℕ = capacity (length xs) in
    let pos : 0 < m = capacity_pos (length xs) in
    let len : length xs ≡ length ps = omega arith in
    let limb : coef * p ≤ (2 ^ 31 - 1) * (2 ^ 30 - 1) =
      mul-le-mul {n₂ = 2 ^ 31 - 1} {m₂ = 2 ^ 30 - 1} (omega arith) (omega (arith, hp.0)) in
    let below : value ps < m = rw len (value-lt-capacity ps hp.1) in
    let above : coef * value ps ≤ 2 ^ 31 * (m - 1) =
      mul-le-mul {n₂ = 2 ^ 31} {m₂ = m - 1} (omega arith) (omega arith) in
    let t : ℕ = u64 (carry + (0x1FFFFFFF80000000 + x + 2 ^ 64 - u64 (p * coef))) in
    let exact : t ≡ carry + (2 ^ 61 - 2 ^ 31) + x - coef * p = omega (arith, hx.0) in
    let rest = fast_limbs_lem coef (t >>> 30) xs ps hc (omega (arith, hx.0)) len hx.1 hp.1 in
    (
      emit_limb t (value xs + 2 ^ 31 * (m - 1) - coef * value ps) m _ _ pos (omega (arith, hx.0))
          (rest.0 ∙ ap (λ (n : ℕ). n % m) (omega arith)),
      (limb_small t, rest.1),
    )

-- The limb at index n against the limbs below it, which hold less than 5 * 2^(30 n).
pub top_limb :
    (n : ℕ) (x : Bignum256)
    → length x ≡ suc n
    → IsWords x
    → (capacity n * get_or x n 0 ≤ value x)
      × (value x + 5 ≤ capacity n * get_or x n 0 + 5 * capacity n)
      × (get_or x n 0 < 2 ^ 32)
top_limb n [] e h = absurd (omega arith)
top_limb zero (x ∷ []) e h = omega arith
top_limb zero (x ∷ y ∷ ys) e h = absurd (omega arith)
top_limb (suc n) (x ∷ xs) e h = omega (arith, top_limb n xs (omega arith) h.1, h.0)

-- A prime for which the reductions of this file are meant.
pub record IsModulus (p : Bignum256) : Type 0 where
  pub limbs : length p ≡ 9
  pub normal : IsNormalized p
  pub lower : 2 ^ 256 - 2 ^ 224 < value p
  pub upper : value p < 2 ^ 256

-- The unrolled first round is a round of the loop that starts from the carry 2^31.
fast_mod-loop :
    (x p : ℕ) (xs ps : Bignum256)
    → bn_fast_mod (x ∷ xs) (p ∷ ps)
      ≡ fast_limbs (get_or (x ∷ xs) 8 0 / 2 ^ 16) (2 ^ 31) (x ∷ xs) (p ∷ ps)
unfolding bn_fast_mod
fast_mod-loop x p xs ps =
    let coef : ℕ = get_or (x ∷ xs) 8 0 / 2 ^ 16 in
    ap (λ (t : ℕ). bit_and (u64 t) 0x3FFFFFFF ∷ fast_limbs coef (u64 t >>> 30) xs ps) (omega arith)

-- What the estimate of the quotient leaves.
estimate :
    (v top coef p : ℕ)
    → 2 ^ 240 * top ≤ v
    → v + 5 ≤ 2 ^ 240 * top + 5 * 2 ^ 240
    → top < 2 ^ 32
    → coef ≡ top / 2 ^ 16
    → 2 ^ 256 - 2 ^ 224 < p
    → p < 2 ^ 256
    → (coef * p ≤ v) × (v - coef * p < 2 * p)
estimate v top coef p low high word quot lower upper =
    let below : coef * p ≤ coef * 2 ^ 256 =
      mul-le-mul {n₂ = coef} {m₂ = 2 ^ 256} (omega arith) (omega arith) in
    let slack : coef * (2 ^ 256 - p) ≤ 2 ^ 16 * 2 ^ 224 =
      mul-le-mul {n₂ = 2 ^ 16} {m₂ = 2 ^ 224} (omega arith) (omega arith) in
    let gap : coef * 2 ^ 256 ≡ coef * p + coef * (2 ^ 256 - p) =
      ap (λ (t : ℕ). coef * t) (omega arith) ∙ mul-add coef p (2 ^ 256 - p) in
    (omega arith, omega arith)

-- For nine 32-bit limbs, normalized or not, and a normalized modulus between 2^256 - 2^224 and 2^256,
-- `bn_fast_mod` subtracts val[8] >> 16 times the modulus exactly; the result is normalized and below
-- twice the modulus.
pub bn_fast_mod-value :
    (x p : Bignum256)
    → length x ≡ 9
    → IsWords x
    → IsModulus p
    → (value (bn_fast_mod x p) + get_or x 8 0 / 2 ^ 16 * value p ≡ value x)
      × IsNormalized (bn_fast_mod x p)
      × (value (bn_fast_mod x p) < 2 * value p)
bn_fast_mod-value [] p ex hx hp = absurd (omega arith)
bn_fast_mod-value (x ∷ xs) [] ex hx hp = absurd (omega (arith, hp.limbs))
bn_fast_mod-value (x ∷ xs) (p ∷ ps) ex hx hp =
    let v : ℕ = value (x ∷ xs) in
    let q : ℕ = value (p ∷ ps) in
    let top : ℕ = get_or (x ∷ xs) 8 0 in
    let coef : ℕ = top / 2 ^ 16 in
    let tops = top_limb 8 (x ∷ xs) ex hx in
    let loop =
      fast_limbs_lem coef (2 ^ 31) (x ∷ xs) (p ∷ ps) (omega (arith, tops.2)) (omega arith)
        (omega (arith, hp.limbs)) hx hp.normal in
    let fit = estimate v top coef q tops.0 tops.1 tops.2 refl hp.lower hp.upper in
    let cap : capacity (length (x ∷ xs)) ≡ 2 ^ 270 = ap capacity ex in
    let exact : value (fast_limbs coef (2 ^ 31) (x ∷ xs) (p ∷ ps)) ≡ v - coef * q =
      loop.0
      ∙ ap (λ (m : ℕ). (v + 2 ^ 31 + 2 ^ 31 * (m - 1) - coef * q) % m) cap
      ∙ ap (λ (n : ℕ). n % 2 ^ 270) (omega (arith, fit))
      ∙ add-mul-mod_self_right (v - coef * q) (2 ^ 31) (2 ^ 270)
      ∙ mod-eq_of_lt (omega (arith, fit, hp.upper)) in
    rw (fast_mod-loop x p xs ps) (omega (arith, exact, fit), loop.1, omega (arith, exact, fit))
