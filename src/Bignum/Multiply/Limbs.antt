-- ===== src/Bignum/Multiply/Limbs.antt =====
-- One step of `bn_multiply_reduce` of ios/Classes/bignum.c on the limbs of the number.
use ether_flutter_plugin.Prelude.{
  ℕ, zero, suc, ◌+◌, ◌-◌, ◌*◌, ◌/◌, ◌^◌, ◌<◌, ◌≡◌, ◌∙◌, refl, sym, ap, ap₂, List, [], ◌∷◌, ◌++◌,
  get_or, length, take, drop, arith, length-append, take-append, drop-append, get_or-append_left,
  get_or-append_right, append_assoc, u32, ◌<<<◌, ◌>>>◌,
}
use ether_flutter_plugin.Bignum.Value.{value, IsNormalized}
use ether_flutter_plugin.Bignum.Reduce.{fast_limbs}
use ether_flutter_plugin.Bignum.Reduce.Lengths.{length-fast_limbs}
use ether_flutter_plugin.Bignum.Reduce.FastMod.{IsModulus}
use ether_flutter_plugin.Bignum.Multiply.Step.{
  extended, step_from-fast_limbs, fast_limbs-step, top_limbs-value,
}
use ether_flutter_plugin.Bignum.Multiply.{step_from, step_coef, bn_multiply_reduce_step}

get_or-middle :
    (lo xs rest : List ℕ) (i n : ℕ)
    → i < length xs
    → n ≡ length lo + i
    → get_or (lo ++ (xs ++ rest)) n 0 ≡ get_or xs i 0
get_or-middle lo xs rest i n h e =
    ap (λ (k : ℕ). get_or (lo ++ (xs ++ rest)) k 0) e
    ∙ get_or-append_right lo (xs ++ rest) i 0
    ∙ get_or-append_left xs rest i 0 h

-- The coefficient is read from the two limbs at the top of the ten that a step changes.
step_coef-top :
    (lo xs rest : List ℕ)
    → length xs ≡ 10
    → IsNormalized xs
    → value xs < 2 ^ 287
    → step_coef (lo ++ (xs ++ rest)) (8 + length lo) ≡ value xs / 2 ^ 256
unfolding step_coef
step_coef-top lo xs rest e h bound =
    ap₂ (λ (a b : ℕ). u32 ((a >>> 16) + u32 (b <<< 14)))
      (get_or-middle lo xs rest 8 (8 + length lo) (omega arith) (omega arith))
      (get_or-middle lo xs rest 9 (8 + length lo + 1) (omega arith) (omega arith))
    ∙ top_limbs-value xs e h bound

-- A step leaves the limbs below and above those ten.
reduce_step-limbs :
    (lo xs rest p : List ℕ)
    → length xs ≡ 10
    → IsNormalized xs
    → IsModulus p
    → value xs < 2 ^ 31 * value p
    → bn_multiply_reduce_step (lo ++ (xs ++ rest)) p (8 + length lo)
      ≡ lo ++ (fast_limbs (value xs / 2 ^ 256) (2 ^ 31) xs (extended p) ++ rest)
unfolding bn_multiply_reduce_step
reduce_step-limbs lo xs rest p e h hp bound =
    let coef = step_coef-top lo xs rest e h (omega (arith, hp.upper)) in
    let below : take (8 + length lo - 8) (lo ++ (xs ++ rest)) ≡ lo =
      take-append (8 + length lo - 8) lo (xs ++ rest) (omega arith) in
    let above : drop (8 + length lo - 8) (lo ++ (xs ++ rest)) ≡ xs ++ rest =
      drop-append (8 + length lo - 8) lo (xs ++ rest) 0 (omega arith) in
    ap₂ (λ a b. a ++ step_from (step_coef (lo ++ (xs ++ rest)) (8 + length lo)) b p) below above
    ∙ ap (λ c. lo ++ step_from c (xs ++ rest) p) coef
    ∙ ap (λ b. lo ++ b) (step_from-fast_limbs (value xs / 2 ^ 256) xs p rest e hp.limbs)

-- The last of ten normalized limbs is 0 if the number is below 2^270.
nine_limbs :
    (xs : List ℕ)
    → length xs ≡ 10
    → IsNormalized xs
    → value xs < 2 ^ 270
    → (ys : List ℕ) × (xs ≡ ys ++ 0 ∷ [])
      × (length ys ≡ 9)
      × IsNormalized ys
      × (value ys ≡ value xs)
nine_limbs (x0 ∷ x1 ∷ x2 ∷ x3 ∷ x4 ∷ x5 ∷ x6 ∷ x7 ∷ x8 ∷ x9 ∷ []) e h bound =
    let top : x9 ≡ 0 = omega arith in
    (
      x0 ∷ x1 ∷ x2 ∷ x3 ∷ x4 ∷ x5 ∷ x6 ∷ x7 ∷ x8 ∷ [],
      ap (λ (t : ℕ). x0 ∷ x1 ∷ x2 ∷ x3 ∷ x4 ∷ x5 ∷ x6 ∷ x7 ∷ x8 ∷ t ∷ []) top,
      refl,
      omega arith,
      omega (arith, top),
    )
nine_limbs xs e h bound = absurd (omega arith)

pub split_last :
    (n : ℕ) (xs : List ℕ)
    → length xs ≡ suc n
    → (ys : List ℕ) × (y : ℕ) × (xs ≡ ys ++ y ∷ []) × (length ys ≡ n)
split_last n [] e = absurd (omega arith)
split_last zero (x ∷ []) e = ([], x, refl, refl)
split_last zero (x ∷ z ∷ xs) e = absurd (omega arith)
split_last (suc n) (x ∷ xs) e =
    let (ys, y, eq, len) = split_last n xs (omega arith) in
    (x ∷ ys, y, ap (λ t. x ∷ t) eq, ap suc len)

-- What a step does with nine limbs under a tenth that it clears.
pub record Reduced (res : List ℕ) (lo p : List ℕ) (v : ℕ) : Type 0 where
  pub limbs : List ℕ
  pub above : List ℕ
  pub quotient : ℕ
  pub shape : res ≡ lo ++ (limbs ++ above)
  pub nine : length limbs ≡ 9
  pub normal : IsNormalized limbs
  pub exact : value limbs + quotient * value p ≡ v
  pub reduced : value limbs < 2 * value p

pub reduce_step-Reduced :
    (lo xs rest p : List ℕ)
    → length xs ≡ 10
    → IsNormalized xs
    → IsModulus p
    → value xs < 2 ^ 31 * value p
    → Reduced (bn_multiply_reduce_step (lo ++ (xs ++ rest)) p (8 + length lo)) lo p (value xs)
reduce_step-Reduced lo xs rest p e h hp bound =
    let coef : ℕ = value xs / 2 ^ 256 in
    let out : List ℕ = fast_limbs coef (2 ^ 31) xs (extended p) in
    let len : length out ≡ 10 =
      length-fast_limbs coef (2 ^ 31) xs (extended p)
        (e ∙ sym (length-append p (0 ∷ []) ∙ omega (arith, hp.limbs)))
      ∙ e in
    let step = fast_limbs-step coef xs p e h hp bound refl in
    let (ys, eq, nine, normal, same) =
      nine_limbs out len step.1 (omega (arith, step.2, hp.upper)) in
    record {
      limbs = ys;
      above = 0 ∷ rest;
      quotient = coef;
      shape =
          reduce_step-limbs lo xs rest p e h hp bound
          ∙ ap (λ t. lo ++ (t ++ rest)) eq
          ∙ ap (λ t. lo ++ t) (append_assoc ys (0 ∷ []) rest);
      nine = nine;
      normal = normal;
      exact = omega (arith, same, step.0);
      reduced = omega (arith, same, step.2);
    }
