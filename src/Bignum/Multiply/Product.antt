-- ===== src/Bignum/Multiply/Product.antt =====
-- `bn_multiply` of ios/Classes/bignum.c is the product modulo the prime, partly reduced.
use ether_flutter_plugin.Prelude.{
  ℕ, zero, suc, ◌+◌, ◌*◌, ◌^◌, ◌<◌, ◌≡◌, ◌∙◌, sym, ap, subst, List, [], ◌∷◌, ◌++◌, length, take,
  drop, arith, take-append, append_assoc, append-nil, take-append-drop, length-take, length-drop,
}
use ether_flutter_plugin.Bignum.Value.{Bignum256, value, IsNormalized, capacity}
use native.Mathlib.Nat.{add-mul}
use ether_flutter_plugin.Bignum.Reduce.FastMod.{IsModulus}
use ether_flutter_plugin.Bignum.Multiply.Step.{value-append}
use ether_flutter_plugin.Bignum.Multiply.Long.{bn_multiply_long-value}
use ether_flutter_plugin.Bignum.Multiply.{
  bn_multiply_reduce_step, reduce_steps, bn_multiply_reduce, bn_multiply, bn_multiply_long,
}
use ether_flutter_plugin.Bignum.Multiply.Limbs.{Reduced, split_last, reduce_step-Reduced}

-- The limb under the nine joins them for the next step.
regroup :
    (lo ys rest ls : List ℕ) (l : ℕ)
    → lo ≡ ls ++ l ∷ []
    → lo ++ (ys ++ rest) ≡ ls ++ (l ∷ ys ++ rest)
regroup lo ys rest ls l e = ap (λ t. t ++ (ys ++ rest)) e ∙ append_assoc ls (l ∷ []) (ys ++ rest)

next_value :
    (lo xs ys ls : List ℕ) (l coef p : ℕ)
    → lo ≡ ls ++ l ∷ []
    → value ys + coef * p ≡ value xs
    → value (ls ++ l ∷ ys) + coef * capacity (length lo) * p ≡ value (lo ++ xs)
next_value lo xs ys ls l coef p e exact =
    let c : ℕ = capacity (length lo) in
    let same : value (ls ++ l ∷ ys) ≡ value (lo ++ ys) =
      ap value (sym (ap (λ t. t ++ ys) e ∙ append_assoc ls (l ∷ []) ys)) in
    let spread : c * (value ys + coef * p) ≡ c * value ys + coef * c * p = grind arith in
    let joined : c * (value ys + coef * p) ≡ c * value xs = ap (λ (t : ℕ). c * t) exact in
    omega (arith, same, value-append lo ys, value-append lo xs, spread, joined)

IsNormalized-parts : (xs ys : List ℕ) → IsNormalized (xs ++ ys) → IsNormalized xs × IsNormalized ys
IsNormalized-parts [] ys h = (tt, h)
IsNormalized-parts (x ∷ xs) ys h =
    let parts = IsNormalized-parts xs ys h.1 in ((h.0, parts.0), parts.1)

-- The steps down to i = 8 leave a number below twice the prime, a multiple of it less.
reduce_steps-Reduced :
    (left : ℕ) (lo xs rest p : List ℕ)
    → length lo ≡ left
    → length xs ≡ 10
    → IsNormalized lo
    → IsNormalized xs
    → IsModulus p
    → value xs < 2 ^ 31 * value p
    → Reduced (reduce_steps (suc left) (lo ++ (xs ++ rest)) p) [] p (value (lo ++ xs))
unfolding reduce_steps
reduce_steps-Reduced zero [] xs rest p el e hl h hp bound =
    reduce_step-Reduced [] xs rest p e h hp bound
reduce_steps-Reduced zero (l ∷ lo) xs rest p el e hl h hp bound = absurd (omega arith)
reduce_steps-Reduced (suc left) lo xs rest p el e hl h hp bound =
    let s = reduce_step-Reduced lo xs rest p e h hp bound in
    let (ls, l, eq, len) = split_last left lo el in
    let parts = IsNormalized-parts ls (l ∷ []) (subst IsNormalized eq hl) in
    let r =
      reduce_steps-Reduced left ls (l ∷ s.limbs) s.above p len (ap suc s.nine) parts.0
        (parts.1.0, s.normal) hp (omega (arith, parts.1.0, s.reduced)) in
    let res : List ℕ = lo ++ (xs ++ rest) in
    let stepped : bn_multiply_reduce_step res p (8 + suc left) ≡ ls ++ (l ∷ s.limbs ++ s.above) =
      ap (λ (n : ℕ). bn_multiply_reduce_step res p (8 + n)) (sym el)
      ∙ s.shape
      ∙ regroup lo s.limbs s.above ls l eq in
    let q : ℕ = s.quotient * capacity (length lo) in
    let total : value r.limbs + (r.quotient + q) * value p ≡ value (lo ++ xs) = omega (
      arith,
      r.exact,
      next_value lo xs s.limbs ls l s.quotient (value p) eq s.exact,
      add-mul r.quotient q (value p),
    ) in
    record {
      limbs = r.limbs;
      above = r.above;
      quotient = r.quotient + q;
      shape = ap (λ t. reduce_steps (suc left) t p) stepped ∙ r.shape;
      nine = r.nine;
      normal = r.normal;
      exact = total;
      reduced = r.reduced;
    }

-- The number that `bn_multiply_reduce` takes has eighteen limbs: eight below the first step's ten.
pub bn_multiply_reduce-value :
    (res p : List ℕ)
    → length res ≡ 18
    → IsNormalized res
    → IsModulus p
    → value res < 2 ^ 270 * (2 * value p)
    → (c : ℕ) × (value (bn_multiply_reduce res p) + c * value p ≡ value res)
      × (value (bn_multiply_reduce res p) < 2 * value p)
      × IsNormalized (bn_multiply_reduce res p)
      × (length (bn_multiply_reduce res p) ≡ 9)
unfolding bn_multiply_reduce
bn_multiply_reduce-value res p e h hp bound =
    let lo : List ℕ = take 8 res in
    let xs : List ℕ = drop 8 res in
    let whole : lo ++ xs ≡ res = take-append-drop 8 res in
    let el : length lo ≡ 8 = length-take 8 res ∙ omega arith in
    let ex : length xs ≡ 10 = length-drop 8 res ∙ omega arith in
    let parts = IsNormalized-parts lo xs (subst IsNormalized (sym whole) h) in
    let sum : value res ≡ value lo + capacity (length lo) * value xs =
      ap value (sym whole) ∙ value-append lo xs in
    let cap : capacity (length lo) * value xs ≡ 2 ^ 240 * value xs =
      ap (λ n. capacity n * value xs) el in
    let r =
      reduce_steps-Reduced 8 lo xs [] p el ex parts.0 parts.1 hp (omega (arith, sum, cap, bound)) in
    let start : reduce_steps 9 res p ≡ r.limbs ++ r.above =
      ap (λ t. reduce_steps 9 t p) (sym (ap (λ t. lo ++ t) (append-nil xs) ∙ whole)) ∙ r.shape in
    let out : take 9 (reduce_steps 9 res p) ≡ r.limbs =
      ap (take 9) start ∙ take-append 9 r.limbs r.above (sym r.nine) in
    (
      r.quotient,
      ap (λ t. value t + r.quotient * value p) out ∙ r.exact ∙ ap value whole,
      subst (λ t. value t < 2 * value p) (sym out) r.reduced,
      subst IsNormalized (sym out) r.normal,
      ap length out ∙ r.nine,
    )

-- For nine normalized limbs each whose product is below 2^271 times the prime, `bn_multiply` is
-- congruent to the product, in nine normalized limbs and below twice the prime.
pub bn_multiply-value :
    (k x p : Bignum256)
    → length k ≡ 9
    → length x ≡ 9
    → IsNormalized k
    → IsNormalized x
    → IsModulus p
    → value k * value x < 2 ^ 270 * (2 * value p)
    → (c : ℕ) × (value (bn_multiply k x p) + c * value p ≡ value k * value x)
      × (value (bn_multiply k x p) < 2 * value p)
      × IsNormalized (bn_multiply k x p)
      × (length (bn_multiply k x p) ≡ 9)
unfolding bn_multiply
bn_multiply-value k x p ek ex hk hx hp bound =
    let long = bn_multiply_long-value k x ek ex hk hx in
    let r =
      bn_multiply_reduce-value (bn_multiply_long k x) p long.2 long.1 hp
        (subst (λ (v : ℕ). v < 2 ^ 270 * (2 * value p)) (sym long.0) bound) in
    (r.0, r.1 ∙ long.0, r.2, r.3, r.4)
