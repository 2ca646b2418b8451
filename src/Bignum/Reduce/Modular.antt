-- ===== src/Bignum/Reduce/Modular.antt =====
-- `bn_mod`, and addition and small multiples modulo the prime.
use ether_flutter_plugin.Prelude.{
  ℕ, suc, ◌+◌, ◌-◌, ◌*◌, ◌%◌, ◌^◌, ◌<◌, ◌≤◌, ◌≡◌, ◌∙◌, inl, inr, refl, ap, [], ◌∷◌, map, length,
  arith, u32, ◌>>>◌, sym, Bool, Bool-cases, true, false,
}
use native.Mathlib.Nat.{mod-eq_of_lt, mod-eq-sub-mod, add-mul-mod_self_right, mul-le-mul}
use ether_flutter_plugin.Bignum.Value.{Bignum256, value, IsNormalized, IsWords}
use ether_flutter_plugin.Bignum.Compare.{bn_is_less}
use ether_flutter_plugin.Bignum.Compare.Order.{bn_is_less_iff}
use ether_flutter_plugin.Bignum.Compare.Select.{bn_cmov-select}
use ether_flutter_plugin.Bignum.Carry.{subtract_limbs, bn_subtract}
use ether_flutter_plugin.Bignum.Carry.Difference.{subtract_limbs_lem, bn_subtract-exact}
use ether_flutter_plugin.Bignum.Reduce.{bn_mod, plus_limbs, bn_addmod, bn_mult_k}
use ether_flutter_plugin.Bignum.Reduce.FastMod.{IsModulus, bn_fast_mod-value}

pub IsNormalized-IsWords : (a : Bignum256) → IsNormalized a → IsWords a
IsNormalized-IsWords [] h = tt
IsNormalized-IsWords (x ∷ xs) h = (omega (arith, h.0), IsNormalized-IsWords xs h.1)

pub length-subtract_limbs :
    (tmp : ℕ) (a b : Bignum256) → length a ≡ length b → length (subtract_limbs tmp a b) ≡ length a
unfolding subtract_limbs
length-subtract_limbs tmp [] b e = refl
length-subtract_limbs tmp (x ∷ xs) [] e = absurd (omega arith)
length-subtract_limbs tmp (x ∷ xs) (y ∷ ys) e = ap suc (
    length-subtract_limbs (u32 (tmp + u32 (0x3FFFFFFF + x + 2 ^ 32 - y)) >>> 30) xs ys
      (omega arith))

-- For nine normalized limbs below twice a normalized prime, `bn_mod` is the remainder by the prime,
-- normalized.
pub bn_mod-value :
    (x p : Bignum256)
    → length x ≡ 9
    → length p ≡ 9
    → IsNormalized x
    → IsNormalized p
    → value x < 2 * value p
    → (value (bn_mod x p) ≡ value x % value p) × IsNormalized (bn_mod x p)
unfolding bn_mod bn_subtract
bn_mod-value x p ex ep hx hp part =
    let len : length x ≡ length p = omega arith in
    let less = bn_is_less_iff x p len (omega arith) hx hp in
    let words = IsNormalized-IsWords x hx in
    let temp_normal = (subtract_limbs_lem 1 x p len hx hp (omega arith)).1 in
    let temp_words = IsNormalized-IsWords (subtract_limbs 1 x p) temp_normal in
    let same_length : length x ≡ length (subtract_limbs 1 x p) =
      omega (arith, length-subtract_limbs 1 x p len) in
    let select = bn_cmov-select x (subtract_limbs 1 x p) same_length words temp_words in
    elim (Bool-cases (bn_is_less x p)) [
      | inl small ↦ rw (small, select.0) (sym (mod-eq_of_lt (less.0 small)), hx)
      | inr big ↦
          let above : value p ≤ value x = at_least big less.1 in
          let diff = bn_subtract-exact x p len hx hp above in
          rw (big, select.1)
            (diff.0 ∙ sym (mod-eq-sub-mod above ∙ mod-eq_of_lt (omega arith)), temp_normal)
    ]
  where
    at_least : {b : Bool} {v w : ℕ} → b ≡ false → (v < w → b ≡ true) → w ≤ v
    at_least e f = ground arith

-- The 32-bit limb sums do not wrap.
plus_limbs_lem :
    (a b : Bignum256)
    → length a ≡ length b
    → IsNormalized a
    → IsNormalized b
    → (value (plus_limbs a b) ≡ value a + value b)
      × IsWords (plus_limbs a b)
      × (length (plus_limbs a b) ≡ length a)
unfolding plus_limbs
plus_limbs_lem [] [] e ha hb = (refl, tt, refl)
plus_limbs_lem [] (y ∷ ys) e ha hb = absurd (omega arith)
plus_limbs_lem (x ∷ xs) [] e ha hb = absurd (omega arith)
plus_limbs_lem (x ∷ xs) (y ∷ ys) e ha hb =
    let rest = plus_limbs_lem xs ys (omega arith) ha.1 hb.1 in
    let exact : u32 (x + y) ≡ x + y = omega (arith, ha.0, hb.0) in
    (omega (arith, exact, rest.0), (omega arith, rest.1), omega (arith, rest.2))

times_limbs_lem :
    (a : Bignum256) (k : ℕ)
    → IsNormalized a
    → k ≤ 4
    → (value (map (λ limb. u32 (k * limb)) a) ≡ k * value a)
      × IsWords (map (λ limb. u32 (k * limb)) a)
      × (length (map (λ limb. u32 (k * limb)) a) ≡ length a)
times_limbs_lem [] k h small = (omega arith, tt, refl)
times_limbs_lem (x ∷ xs) k h small =
    let rest = times_limbs_lem xs k h.1 small in
    let bound : k * x ≤ 4 * (2 ^ 30 - 1) =
      mul-le-mul {n₂ = 4} {m₂ = 2 ^ 30 - 1} small (omega (arith, h.0)) in
    (omega (arith, rest.0), (omega arith, rest.1), omega (arith, rest.2))

-- For nine normalized limbs each and a normalized modulus between 2^256 - 2^224 and 2^256,
-- `bn_addmod` is congruent to the sum, normalized and below twice the modulus.
pub bn_addmod-value :
    (a b p : Bignum256)
    → length a ≡ 9
    → length b ≡ 9
    → IsNormalized a
    → IsNormalized b
    → IsModulus p
    → (value (bn_addmod a b p) % value p ≡ (value a + value b) % value p)
      × IsNormalized (bn_addmod a b p)
      × (value (bn_addmod a b p) < 2 * value p)
unfolding bn_addmod
bn_addmod-value a b p ea eb ha hb hp =
    let sum = plus_limbs_lem a b (omega arith) ha hb in
    let fast = bn_fast_mod-value (plus_limbs a b) p (omega (arith, sum.2)) sum.1 hp in
    (
      sym (add-mul-mod_self_right _ _ (value p)) ∙ ap (λ (n : ℕ). n % value p) (fast.0 ∙ sum.0),
      fast.1,
      fast.2,
    )

-- For nine normalized limbs, k up to 4 and a normalized modulus between 2^256 - 2^224 and 2^256,
-- `bn_mult_k` is congruent to `k * x`, normalized and below twice the modulus.
pub bn_mult_k-value :
    (x : Bignum256) (k : ℕ) (p : Bignum256)
    → length x ≡ 9
    → IsNormalized x
    → k ≤ 4
    → IsModulus p
    → (value (bn_mult_k x k p) % value p ≡ k * value x % value p)
      × IsNormalized (bn_mult_k x k p)
      × (value (bn_mult_k x k p) < 2 * value p)
unfolding bn_mult_k
bn_mult_k-value x k p ex hx small hp =
    let prod = times_limbs_lem x k hx small in
    let fast =
      bn_fast_mod-value (map (λ limb. u32 (k * limb)) x) p (omega (arith, prod.2)) prod.1 hp in
    (
      sym (add-mul-mod_self_right _ _ (value p)) ∙ ap (λ (n : ℕ). n % value p) (fast.0 ∙ prod.0),
      fast.1,
      fast.2,
    )
