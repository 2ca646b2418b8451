-- ===== src/Bignum/Value.antt =====
-- `bignum256` of ios/Classes/bignum.h, and the number that its limbs stand for.
use ether_flutter_plugin.Prelude.{
  ℕ, zero, suc, ◌+◌, ◌*◌, ◌/◌, ◌%◌, ◌^◌, ◌<◌, ◌≡◌, ◌∙◌, sym, ap, List, [], ◌∷◌, length, arith,
  bit_and,
}
use ether_flutter_plugin.Prelude.Bits.{bit_and_mask}
use native.Mathlib.Nat.{div-add-mod, mod-lt, mod-eq_of_lt, add-mul-mod_self_right}

-- `uint32_t val[9]`, the lowest limb first. The loops are written for any number of limbs.
abbrev pub Bignum256 : Type 0
Bignum256 = List ℕ

-- The sum of val[i] * 2^(30 i).
abbrev pub value : Bignum256 → ℕ
value [] = 0
value (x ∷ xs) = x + 2 ^ 30 * value xs

-- Every limb is below 2^30.
abbrev pub IsNormalized : Bignum256 → Type 0
IsNormalized [] = Unit {0}
IsNormalized (x ∷ xs) = (x < 2 ^ 30) × IsNormalized xs

-- Every limb is a uint32_t.
abbrev pub IsWords : Bignum256 → Type 0
IsWords [] = Unit {0}
IsWords (x ∷ xs) = (x < 2 ^ 32) × IsWords xs

-- 2^(30 n), what n limbs can hold.
abbrev pub capacity : ℕ → ℕ
capacity zero = 1
capacity (suc n) = 2 ^ 30 * capacity n

pub capacity_pos : (n : ℕ) → 0 < capacity n
capacity_pos zero = omega arith
capacity_pos (suc n) = omega (arith, capacity_pos n)

pub value-lt-capacity : (xs : Bignum256) → IsNormalized xs → value xs < capacity (length xs)
value-lt-capacity [] h = omega arith
value-lt-capacity (x ∷ xs) h = omega (arith, value-lt-capacity xs h.1)

-- One limb of a sum: the low 30 bits stay, the rest is carried into the limbs above.
pub mod_limb :
    (t v m : ℕ)
    → 0 < m
    → (t + 2 ^ 30 * v) % (2 ^ 30 * m) ≡ t % 2 ^ 30 + 2 ^ 30 * ((t / 2 ^ 30 + v) % m)
mod_limb t v m pos =
    let w : ℕ = t / 2 ^ 30 + v in
    let r : ℕ = t % 2 ^ 30 + 2 ^ 30 * (w % m) in
    let split : t + 2 ^ 30 * v ≡ r + w / m * (2 ^ 30 * m) = omega (arith, div-add-mod w m) in
    let small : r < 2 ^ 30 * m = omega (arith, mod-lt w pos) in
    ap (λ (n : ℕ). n % (2 ^ 30 * m)) split
    ∙ add-mul-mod_self_right r (w / m) (2 ^ 30 * m)
    ∙ mod-eq_of_lt small

-- The step of every carry loop: `val[i] = t & 0x3FFFFFFF`, and `t >> 30` goes on to the limbs above,
-- which come out as `out`.
pub emit_limb :
    (t v m total out : ℕ)
    → 0 < m
    → total ≡ t + 2 ^ 30 * v
    → out ≡ (t / 2 ^ 30 + v) % m
    → bit_and t 0x3FFFFFFF + 2 ^ 30 * out ≡ total % (2 ^ 30 * m)
emit_limb t v m total out pos sum rest =
    let low : bit_and t 0x3FFFFFFF ≡ t % 2 ^ 30 = bit_and_mask 30 t in
    let same : (t + 2 ^ 30 * v) % (2 ^ 30 * m) ≡ total % (2 ^ 30 * m) =
      ap (λ (n : ℕ). n % (2 ^ 30 * m)) (sym sum) in
    omega (arith, low, rest, same, mod_limb t v m pos)

pub limb_small : (t : ℕ) → bit_and t 0x3FFFFFFF < 2 ^ 30
limb_small t = omega (arith, bit_and_mask 30 t)
