-- ===== src/Bignum/Reduce/Lengths.antt =====
-- The reductions of ios/Classes/bignum.c keep the count of limbs.
use ether_flutter_plugin.Prelude.{
  ℕ, suc, ◌+◌, ◌-◌, ◌*◌, ◌^◌, ◌≡◌, ◌∙◌, refl, ap, List, [], ◌∷◌, length, get_or, arith, u64, ◌>>>◌,
}
use ether_flutter_plugin.Bignum.Value.{Bignum256}
use ether_flutter_plugin.Bignum.Compare.{select_limbs, bn_cmov}
use ether_flutter_plugin.Bignum.Carry.{bn_subtract}
use ether_flutter_plugin.Bignum.Reduce.{bn_mod, bn_addmod, bn_fast_mod, plus_limbs, fast_limbs}
use ether_flutter_plugin.Bignum.Reduce.Modular.{length-subtract_limbs}

pub length-fast_limbs :
    (coef carry : ℕ) (xs ps : List ℕ)
    → length xs ≡ length ps
    → length (fast_limbs coef carry xs ps) ≡ length xs
unfolding fast_limbs
length-fast_limbs coef carry [] [] e = refl
length-fast_limbs coef carry [] (p ∷ ps) e = absurd (omega arith)
length-fast_limbs coef carry (x ∷ xs) [] e = absurd (omega arith)
length-fast_limbs coef carry (x ∷ xs) (p ∷ ps) e =
    let temp : ℕ = u64 (carry + (0x1FFFFFFF80000000 + x + 2 ^ 64 - u64 (p * coef))) in
    ap suc (length-fast_limbs coef (temp >>> 30) xs ps (omega arith))

length-bn_fast_mod : (x p : Bignum256) → length x ≡ length p → length (bn_fast_mod x p) ≡ length x
unfolding bn_fast_mod
length-bn_fast_mod [] p e = refl
length-bn_fast_mod (x ∷ xs) [] e = absurd (omega arith)
length-bn_fast_mod (x ∷ xs) (p ∷ ps) e =
    let coef = get_or (x ∷ xs) 8 0 >>> 16 in
    let temp : ℕ = u64 (0x2000000000000000 + x + 2 ^ 64 - u64 (p * coef)) in
    ap suc (length-fast_limbs coef (temp >>> 30) xs ps (omega arith))

length-plus_limbs : (a b : Bignum256) → length (plus_limbs a b) ≡ length a
unfolding plus_limbs
length-plus_limbs [] b = refl
length-plus_limbs (a ∷ as') [] = refl
length-plus_limbs (a ∷ as') (b ∷ bs) = ap suc (length-plus_limbs as' bs)

length-select_limbs :
    (tmask fmask : ℕ) (ts fs : Bignum256)
    → length ts ≡ length fs
    → length (select_limbs tmask fmask ts fs) ≡ length ts
unfolding select_limbs
length-select_limbs tmask fmask [] fs e = refl
length-select_limbs tmask fmask (t ∷ ts) [] e = absurd (omega arith)
length-select_limbs tmask fmask (t ∷ ts) (f ∷ fs) e =
    ap suc (length-select_limbs tmask fmask ts fs (omega arith))

pub length-bn_addmod :
    (a b p : Bignum256) → length a ≡ length p → length (bn_addmod a b p) ≡ length p
unfolding bn_addmod
length-bn_addmod a b p e =
    length-bn_fast_mod (plus_limbs a b) p (length-plus_limbs a b ∙ e) ∙ length-plus_limbs a b ∙ e

pub length-bn_mod : (x p : Bignum256) → length x ≡ length p → length (bn_mod x p) ≡ length p
unfolding bn_mod bn_cmov bn_subtract
length-bn_mod x p e = length-select_limbs _ _ x _ (omega (arith, length-subtract_limbs 1 x p e)) ∙ e
