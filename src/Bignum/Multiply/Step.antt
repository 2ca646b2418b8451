-- ===== src/Bignum/Multiply/Step.antt =====
-- `bn_multiply_reduce_step` of ios/Classes/bignum.c subtracts a multiple of the prime.
use ether_flutter_plugin.Prelude.{
  ℕ, suc, ◌+◌, ◌-◌, ◌*◌, ◌/◌, ◌%◌, ◌^◌, ◌<◌, ◌≤◌, ◌≡◌, ◌∙◌, sym, ap, ap₂, List, [], ◌∷◌, ◌++◌,
  bit_and, u32, u64, ◌<<<◌, ◌>>>◌, get_or, length, arith, length-append,
}
use native.Mathlib.Nat.{mul-le-mul, mul-add, mod-eq_of_lt, add-mul-mod_self_right}
use ether_flutter_plugin.Bignum.Value.{Bignum256, value, IsNormalized, capacity, value-lt-capacity}
use ether_flutter_plugin.Bignum.Reduce.{fast_limbs}
use ether_flutter_plugin.Bignum.Reduce.FastMod.{IsModulus, fast_limbs_lem}
use ether_flutter_plugin.Bignum.Reduce.Modular.{IsNormalized-IsWords}
use ether_flutter_plugin.Bignum.Multiply.{step_limbs, step_from}

-- A limb 0 behind the prime takes the limb of the number behind it.
abbrev pub extended : Bignum256 → List ℕ
extended ps = ps ++ (0 ∷ [])

step_limbs-fast_limbs :
    (coef carry : ℕ) (xs ps rest : List ℕ)
    → length xs ≡ suc (length ps)
    → step_limbs coef carry (xs ++ rest) ps ≡ fast_limbs coef carry xs (extended ps) ++ rest
unfolding step_limbs fast_limbs
step_limbs-fast_limbs coef carry [] ps rest e = absurd (omega arith)
step_limbs-fast_limbs coef carry (x ∷ []) [] rest e =
    ap (λ (t : ℕ). bit_and t 0x3FFFFFFF ∷ rest) (omega arith)
step_limbs-fast_limbs coef carry (x ∷ y ∷ xs) [] rest e = absurd (omega arith)
step_limbs-fast_limbs coef carry (x ∷ xs) (p ∷ ps) rest e =
    let temp : ℕ = u64 (carry + (0x1FFFFFFF80000000 + x + 2 ^ 64 - u64 (p * coef))) in
    ap (λ t. bit_and temp 0x3FFFFFFF ∷ t)
      (step_limbs-fast_limbs coef (temp >>> 30) xs ps rest (omega arith))

-- The unrolled first round is a round that starts from the carry 2^31.
pub step_from-fast_limbs :
    (coef : ℕ) (xs ps rest : List ℕ)
    → length xs ≡ 10
    → length ps ≡ 9
    → step_from coef (xs ++ rest) ps ≡ fast_limbs coef (2 ^ 31) xs (extended ps) ++ rest
unfolding step_from fast_limbs
step_from-fast_limbs coef [] ps rest ex ep = absurd (omega arith)
step_from-fast_limbs coef (x ∷ xs) [] rest ex ep = absurd (omega arith)
step_from-fast_limbs coef (x ∷ xs) (p ∷ ps) rest ex ep =
    ap (λ (t : ℕ). bit_and (u64 t) 0x3FFFFFFF ∷ step_limbs coef (u64 t >>> 30) (xs ++ rest) ps)
      {y = 2 ^ 31 + (0x1FFFFFFF80000000 + x + 2 ^ 64 - u64 (p * coef))} (omega arith)
    ∙ ap
        (λ t.
          bit_and (u64 (2 ^ 31 + (0x1FFFFFFF80000000 + x + 2 ^ 64 - u64 (p * coef)))) 0x3FFFFFFF
          ∷ t)
        (step_limbs-fast_limbs coef _ xs ps rest (omega arith))

pub value-append : (xs ys : List ℕ) → value (xs ++ ys) ≡ value xs + capacity (length xs) * value ys
value-append [] ys = omega arith
value-append (x ∷ xs) ys =
    let group : 2 ^ 30 * (capacity (length xs) * value ys)
        ≡ 2 ^ 30 * capacity (length xs) * value ys =
      grind arith in
    omega (arith, value-append xs ys, group)

pub IsNormalized-append :
    (xs ys : List ℕ) → IsNormalized xs → IsNormalized ys → IsNormalized (xs ++ ys)
IsNormalized-append [] ys h k = k
IsNormalized-append (x ∷ xs) ys h k = (h.0, IsNormalized-append xs ys h.1 k)

pub value-extended : (ps : List ℕ) → value (extended ps) ≡ value ps
value-extended [] = omega arith
value-extended (p ∷ ps) = omega (arith, value-extended ps)

-- What the estimate of the quotient leaves.
quotient_fit :
    (v coef p : ℕ)
    → coef ≡ v / 2 ^ 256
    → coef < 2 ^ 31
    → 2 ^ 256 - 2 ^ 224 < p
    → p < 2 ^ 256
    → (coef * p ≤ v) × (v - coef * p < 2 * p)
quotient_fit v coef p e small lower upper =
    let below : coef * p ≤ coef * 2 ^ 256 =
      mul-le-mul {n₂ = coef} {m₂ = 2 ^ 256} (omega arith) (omega arith) in
    let slack : coef * (2 ^ 256 - p) ≤ 2 ^ 31 * 2 ^ 224 =
      mul-le-mul {n₂ = 2 ^ 31} {m₂ = 2 ^ 224} (omega arith) (omega arith) in
    let gap : coef * 2 ^ 256 ≡ coef * p + coef * (2 ^ 256 - p) =
      ap (λ (t : ℕ). coef * t) (omega arith) ∙ mul-add coef p (2 ^ 256 - p) in
    (omega arith, omega arith)

-- The ten limbs that a step changes.
pub fast_limbs-step :
    (coef : ℕ) (xs p : List ℕ)
    → length xs ≡ 10
    → IsNormalized xs
    → IsModulus p
    → value xs < 2 ^ 31 * value p
    → coef ≡ value xs / 2 ^ 256
    → (value (fast_limbs coef (2 ^ 31) xs (extended p)) + coef * value p ≡ value xs)
      × IsNormalized (fast_limbs coef (2 ^ 31) xs (extended p))
      × (value (fast_limbs coef (2 ^ 31) xs (extended p)) < 2 * value p)
fast_limbs-step coef xs p ex hx hp bound e =
    let v : ℕ = value xs in
    let q : ℕ = value p in
    let small : coef < 2 ^ 31 = omega (arith, hp.upper) in
    let fit = quotient_fit v coef q e small hp.lower hp.upper in
    let loop =
      fast_limbs_lem coef (2 ^ 31) xs (extended p) small (omega arith)
        (ex ∙ sym (length-append p (0 ∷ []) ∙ omega (arith, hp.limbs))) (IsNormalized-IsWords xs hx)
        (IsNormalized-append p (0 ∷ []) hp.normal (omega arith, tt)) in
    let cap : capacity (length xs) ≡ 2 ^ 300 = ap capacity ex in
    let exact : value (fast_limbs coef (2 ^ 31) xs (extended p)) ≡ v - coef * q =
      loop.0
      ∙ ap₂ (λ (m w : ℕ). (v + 2 ^ 31 + 2 ^ 31 * (m - 1) - coef * w) % m) cap (value-extended p)
      ∙ ap (λ (n : ℕ). n % 2 ^ 300) (omega (arith, fit))
      ∙ add-mul-mod_self_right (v - coef * q) (2 ^ 31) (2 ^ 300)
      ∙ mod-eq_of_lt (omega (arith, fit, hp.upper)) in
    (omega (arith, exact, fit), loop.1, omega (arith, exact, fit))

-- The coefficient is the number above 2^256, and none of its shifts wraps.
pub top_limbs-value :
    (xs : List ℕ)
    → length xs ≡ 10
    → IsNormalized xs
    → value xs < 2 ^ 287
    → u32 ((get_or xs 8 0 >>> 16) + u32 (get_or xs 9 0 <<< 14)) ≡ value xs / 2 ^ 256
top_limbs-value (x0 ∷ x1 ∷ x2 ∷ x3 ∷ x4 ∷ x5 ∷ x6 ∷ x7 ∷ x8 ∷ x9 ∷ []) e h bound =
    let low : value (x0 ∷ x1 ∷ x2 ∷ x3 ∷ x4 ∷ x5 ∷ x6 ∷ x7 ∷ []) < 2 ^ 240 =
      value-lt-capacity (x0 ∷ x1 ∷ x2 ∷ x3 ∷ x4 ∷ x5 ∷ x6 ∷ x7 ∷ []) (omega (arith, h)) in
    omega (arith, low, bound, h)
top_limbs-value xs e h bound = absurd (omega arith)
