-- ===== src/Bignum/Compare/Select.antt =====
-- The tests on all limbs at once, and the selection.
use ether_flutter_plugin.Prelude.{
  ℕ, ◌^◌, ◌<◌, ◌≡◌, ◌∙◌, ◌↔◌, refl, ap₂, true, false, [], ◌∷◌, length, arith, bit_or, bit_xor,
  bit_and, ==_iff,
}
use ether_flutter_plugin.Prelude.Bits.{
  bit_or-eq-zero_iff, bit_xor-eq-zero_iff, bit_and_mask, bit_and-zero, bit_or-zero, zero-bit_or,
}
use ether_flutter_plugin.Bignum.Value.{Bignum256, value, IsNormalized, IsWords}
use ether_flutter_plugin.Bignum.Compare.{
  or_limbs, bn_is_zero, xor_limbs, bn_is_equal, select_limbs, bn_cmov,
}

or_limbs_iff :
    (result : ℕ) (a : Bignum256) → (or_limbs result a ≡ 0) ↔ ((result ≡ 0) × (value a ≡ 0))
unfolding or_limbs
or_limbs_iff result [] = (λ h. (h, omega arith), λ h. h.0)
or_limbs_iff result (x ∷ xs) =
    let rest = or_limbs_iff (bit_or result x) xs in
    let both = bit_or-eq-zero_iff result x in
    (
      λ h. omega (arith, both.0 (rest.0 h).0, (rest.0 h).1),
      λ h. rest.1 (both.1 (h.0, omega arith), omega arith),
    )

-- `bn_is_zero` holds exactly when the number is 0.
pub bn_is_zero_iff : (a : Bignum256) → (bn_is_zero a ≡ true) ↔ (value a ≡ 0)
unfolding bn_is_zero
bn_is_zero_iff a =
    let test = ==_iff (or_limbs 0 a) 0 in
    let limbs = or_limbs_iff 0 a in (λ h. (limbs.0 (test.0 h)).1, λ h. test.1 (limbs.1 (refl, h)))

xor_limbs_iff :
    (result : ℕ) (a b : Bignum256)
    → length a ≡ length b
    → IsNormalized a
    → IsNormalized b
    → (xor_limbs result a b ≡ 0) ↔ ((result ≡ 0) × (value a ≡ value b))
unfolding xor_limbs
xor_limbs_iff result [] [] e ha hb = (λ h. (h, refl), λ h. h.0)
xor_limbs_iff result [] (y ∷ ys) e ha hb = absurd (omega arith)
xor_limbs_iff result (x ∷ xs) [] e ha hb = absurd (omega arith)
xor_limbs_iff result (x ∷ xs) (y ∷ ys) e ha hb =
    let rest = xor_limbs_iff (bit_or result (bit_xor x y)) xs ys (omega arith) ha.1 hb.1 in
    let both = bit_or-eq-zero_iff result (bit_xor x y) in
    let same = bit_xor-eq-zero_iff x y in
    (
      λ h. let zeros = both.0 (rest.0 h).0 in omega (arith, zeros, same.0 zeros.1, (rest.0 h).1),
      λ h.
          let low : x ≡ y = omega (arith, h.1) in
          rest.1 (both.1 (h.0, same.1 low), omega (arith, h.1)),
    )

-- For normalized numbers of the same count of limbs, `bn_is_equal` holds exactly when they are equal.
pub bn_is_equal_iff :
    (a b : Bignum256)
    → length a ≡ length b
    → IsNormalized a
    → IsNormalized b
    → (bn_is_equal a b ≡ true) ↔ (value a ≡ value b)
unfolding bn_is_equal
bn_is_equal_iff a b e ha hb =
    let test = ==_iff (xor_limbs 0 a b) 0 in
    let limbs = xor_limbs_iff 0 a b e ha hb in
    (λ h. (limbs.0 (test.0 h)).1, λ h. test.1 (limbs.1 (refl, h)))

keep_all : (x : ℕ) → x < 2 ^ 32 → bit_and x 0xFFFFFFFF ≡ x
keep_all x h = bit_and_mask 32 x ∙ omega arith

select_true :
    (ts fs : Bignum256) → length ts ≡ length fs → IsWords ts → select_limbs 0xFFFFFFFF 0 ts fs ≡ ts
unfolding select_limbs
select_true [] fs e h = refl
select_true (t ∷ ts) [] e h = absurd (omega arith)
select_true (t ∷ ts) (f ∷ fs) e h =
    ap₂ ◌∷◌ (ap₂ bit_or (keep_all t h.0) (bit_and-zero f) ∙ bit_or-zero t)
      (select_true ts fs (omega arith) h.1)

select_false :
    (ts fs : Bignum256) → length ts ≡ length fs → IsWords fs → select_limbs 0 0xFFFFFFFF ts fs ≡ fs
unfolding select_limbs
select_false [] [] e h = refl
select_false [] (f ∷ fs) e h = absurd (omega arith)
select_false (t ∷ ts) [] e h = absurd (omega arith)
select_false (t ∷ ts) (f ∷ fs) e h =
    ap₂ ◌∷◌ (ap₂ bit_or (bit_and-zero t) (keep_all f h.0) ∙ zero-bit_or f)
      (select_false ts fs (omega arith) h.1)

-- For numbers of the same count of 32-bit limbs, `bn_cmov` is its first number when the condition is
-- true and its second when it is false.
pub bn_cmov-select :
    (ts fs : Bignum256)
    → length ts ≡ length fs
    → IsWords ts
    → IsWords fs
    → (bn_cmov true ts fs ≡ ts) × (bn_cmov false ts fs ≡ fs)
unfolding bn_cmov
bn_cmov-select ts fs e ht hf = (select_true ts fs e ht, select_false ts fs e hf)
