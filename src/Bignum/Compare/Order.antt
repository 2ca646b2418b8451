-- ===== src/Bignum/Compare/Order.antt =====
-- `bn_is_less`.
use ether_flutter_plugin.Prelude.{
  ℕ, suc, ◌+◌, ◌*◌, ◌^◌, ◌<◌, ◌≤◌, ◌≡◌, ◌∙◌, ◌↔◌, ap, Bool, true, [], ◌∷◌, length, arith, bit_or,
  ltb, ltb_iff, to_int, u32, ◌<<<◌,
}
use ether_flutter_plugin.Prelude.Bits.{bit_or_fields, two_pow-suc}
use native.Mathlib.Nat.{pow-le-pow_right}
use ether_flutter_plugin.Bignum.Value.{Bignum256, value, IsNormalized}
use ether_flutter_plugin.Bignum.Compare.{less_bits, bn_is_less}

-- The two bit strings compare as the numbers do, the other way round.
record Compares (n : ℕ) (r : ℕ × ℕ) (a b : ℕ) : Type 0 where
  fits1 : r.0 < 2 ^ n
  fits2 : r.1 < 2 ^ n
  above : r.1 < r.0 → a < b
  below : r.0 < r.1 → b < a
  same : r.0 ≡ r.1 → a ≡ b

abbrev push : ℕ → Bool → ℕ
push r c = bit_or (u32 (r <<< 1)) (to_int c)

push_lem : (n r : ℕ) (c : Bool) → n ≤ 31 → r < 2 ^ n → push r c ≡ 2 * r + to_int c
push_lem n r c h fits =
    let cap : 2 ^ n ≤ 2 ^ 31 = pow-le-pow_right (omega arith) h in
    let bit : to_int c < 2 ^ 1 = ground arith in
    ap (λ (t : ℕ). bit_or t (to_int c)) (omega arith)
    ∙ bit_or_fields 1 r (to_int c) bit
    ∙ omega arith

Compares-push :
    (n : ℕ) (r : ℕ × ℕ) (x y v w : ℕ)
    → n ≤ 31
    → x < 2 ^ 30
    → y < 2 ^ 30
    → Compares n r v w
    → Compares (suc n) (push r.0 (ltb x y), push r.1 (ltb y x)) (x + 2 ^ 30 * v) (y + 2 ^ 30 * w)
Compares-push n r x y v w h hx hy c = ground (
  arith,
  push_lem n r.0 (ltb x y) h c.fits1,
  push_lem n r.1 (ltb y x) h c.fits2,
  two_pow-suc n,
  c.fits1,
  c.fits2,
  c.above,
  c.below,
  c.same,
)

less_bits-Compares :
    (a b : Bignum256)
    → length a ≡ length b
    → length a ≤ 32
    → IsNormalized a
    → IsNormalized b
    → Compares (length a) (less_bits a b) (value a) (value b)
unfolding less_bits
less_bits-Compares [] [] e le ha hb = omega arith
less_bits-Compares [] (y ∷ ys) e le ha hb = absurd (omega arith)
less_bits-Compares (x ∷ xs) [] e le ha hb = absurd (omega arith)
less_bits-Compares (x ∷ xs) (y ∷ ys) e le ha hb =
    Compares-push (length xs) (less_bits xs ys) x y (value xs) (value ys) (omega arith) ha.0 hb.0
      (less_bits-Compares xs ys (omega arith) (omega arith) ha.1 hb.1)

-- On normalized numbers of the same count of at most 32 limbs `bn_is_less` decides `a < b`.
pub bn_is_less_iff :
    (a b : Bignum256)
    → length a ≡ length b
    → length a ≤ 32
    → IsNormalized a
    → IsNormalized b
    → (bn_is_less a b ≡ true) ↔ (value a < value b)
unfolding bn_is_less
bn_is_less_iff a b e le ha hb =
    let c = less_bits-Compares a b e le ha hb in
    let test = ltb_iff (less_bits a b).1 (less_bits a b).0 in
    (λ h. c.above (test.0 h), λ h. test.1 (ground (arith, c.above, c.below, c.same)))
