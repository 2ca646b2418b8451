-- ===== src/Prelude/Bits.antt =====
-- Laws of `&`, `|` and `^` at variables, from the recursion on binary digits that they stand for.
use Prim.Native.Nat.{ℕ, zero, suc, ◌+◌, ◌-◌, ◌*◌, ◌/◌, ◌%◌, ◌^◌, ◌≤◌, ◌<◌, min, max}
use Prim.Native.Nat.{digits, differ, bit_and, bit_or, bit_xor}
use Prim.Native.Nat.{bit_and-bitwise, bit_or-bitwise, bit_xor-bitwise}
use mathlib.Core.Path.{◌≡◌, refl, sym, ap, ap₂, ◌∙◌}
use mathlib.Core.Logic.{◌↔◌, ◌≢◌}
use native.Mathlib.Omega.{arith}
use native.Mathlib.Nat.{
  zero-div, div-div-eq-div-mul, pow-suc, one-le-pow, div-add-mod, mod-lt, mod-eq_of_lt,
  add-mul-mod_self_right,
}

module _ (z : ℕ → ℕ) (f : ℕ → ℕ → ℕ) where
  digits_enough : (n m a b : ℕ) → a ≤ n → a ≤ m → digits z f n a b ≡ digits z f m a b
  digits_enough zero zero zero b p q = refl
  digits_enough zero (suc m) zero b p q = refl
  digits_enough (suc n) zero zero b p q = refl
  digits_enough (suc n) (suc m) zero b p q = refl
  digits_enough zero m (suc a) b p q = absurd (omega arith)
  digits_enough (suc n) zero (suc a) b p q = absurd (omega arith)
  digits_enough (suc n) (suc m) (suc a) b p q =
      omega (arith, digits_enough n m (suc a / 2) (b / 2) (omega arith) (omega arith))

pub bit_and_step : (a b : ℕ) → bit_and a b ≡ bit_and (a / 2) (b / 2) * 2 + min (a % 2) (b % 2)
bit_and_step zero b = omega (arith, bit_and-bitwise 0 b, bit_and-bitwise 0 (b / 2))
bit_and_step (suc a) b = omega (
  arith,
  bit_and-bitwise (suc a) b,
  bit_and-bitwise (suc a / 2) (b / 2),
  digits_enough (λ b. 0) min a (suc a / 2) (suc a / 2) (b / 2) (omega arith) (omega arith),
)

pub bit_or_step : (a b : ℕ) → bit_or a b ≡ bit_or (a / 2) (b / 2) * 2 + max (a % 2) (b % 2)
bit_or_step zero b = omega (arith, bit_or-bitwise 0 b, bit_or-bitwise 0 (b / 2))
bit_or_step (suc a) b = omega (
  arith,
  bit_or-bitwise (suc a) b,
  bit_or-bitwise (suc a / 2) (b / 2),
  digits_enough (λ b. b) max a (suc a / 2) (suc a / 2) (b / 2) (omega arith) (omega arith),
)

zero_below : (n a : ℕ) → a ≤ n → bit_and a 0 ≡ 0
zero_below n zero h = bit_and-bitwise 0 0
zero_below zero (suc a) h = absurd (omega arith)
zero_below (suc n) (suc a) h =
    omega (arith, bit_and_step (suc a) 0, zero_below n (suc a / 2) (omega arith))

pub bit_and-zero : (a : ℕ) → bit_and a 0 ≡ 0
bit_and-zero a = zero_below a a (omega arith)

or_zero_below : (n a : ℕ) → a ≤ n → bit_or a 0 ≡ a
or_zero_below n zero h = bit_or-bitwise 0 0
or_zero_below zero (suc a) h = absurd (omega arith)
or_zero_below (suc n) (suc a) h =
    omega (arith, bit_or_step (suc a) 0, or_zero_below n (suc a / 2) (omega arith))

pub bit_or-zero : (a : ℕ) → bit_or a 0 ≡ a
bit_or-zero a = or_zero_below a a (omega arith)

pub pow_pos : (k : ℕ) → 0 < 2 ^ k
pow_pos k = one-le-pow k 2 (omega arith)

pub two_pow-suc : (k : ℕ) → 2 ^ suc k ≡ 2 * 2 ^ k
two_pow-suc k = omega (arith, pow-suc 2 k)

mod_double : (a p : ℕ) → 0 < p → a % (2 * p) ≡ a / 2 % p * 2 + a % 2
mod_double a p h =
    let r : ℕ = a / 2 % p * 2 + a % 2 in
    let split : a ≡ r + a / 2 / p * (2 * p) = omega (arith, div-add-mod (a / 2) p) in
    let small : r < 2 * p = omega (arith, mod-lt (a / 2) h) in
    ap (λ (t : ℕ). t % (2 * p)) split
    ∙ add-mul-mod_self_right r (a / 2 / p) (2 * p)
    ∙ mod-eq_of_lt small

-- `a & (2^k - 1)` keeps the low k bits.
pub bit_and_mask : (k a : ℕ) → bit_and a (2 ^ k - 1) ≡ a % 2 ^ k
bit_and_mask zero a = omega (arith, bit_and-zero a)
bit_and_mask (suc k) a =
    let p : ℕ = 2 ^ k in
    let half : (2 ^ suc k - 1) / 2 ≡ 2 ^ k - 1 = omega (arith, two_pow-suc k, pow_pos k) in
    omega (
      arith,
      two_pow-suc k,
      pow_pos k,
      bit_and_step a (2 ^ suc k - 1),
      ap (bit_and (a / 2)) half,
      bit_and_mask k (a / 2),
      ap (λ (t : ℕ). a % t) (two_pow-suc k),
      mod_double a (2 ^ k) (pow_pos k),
    )

-- `|` of a field above bit k and one below it is their sum.
pub bit_or_fields : (k q r : ℕ) → r < 2 ^ k → bit_or (q * 2 ^ k) r ≡ q * 2 ^ k + r
bit_or_fields zero q r h = ground (arith, bit_or-zero q)
bit_or_fields (suc k) q r h =
    let double : q * 2 ^ suc k ≡ 2 * (q * 2 ^ k) =
      omega (arith, ap (λ (t : ℕ). q * t) (two_pow-suc k)) in
    let half : q * 2 ^ suc k / 2 ≡ q * 2 ^ k = omega arith in
    omega (
      arith,
      double,
      bit_or_step (q * 2 ^ suc k) r,
      ap (λ (t : ℕ). bit_or t (r / 2)) half,
      bit_or_fields k q (r / 2) (omega (arith, two_pow-suc k)),
    )

-- The same with the low field on the left.
pub bit_or_fields_low : (k q r : ℕ) → r < 2 ^ k → bit_or r (q * 2 ^ k) ≡ q * 2 ^ k + r
bit_or_fields_low zero q zero h = ground (arith, bit_or-bitwise 0 (q * 1))
bit_or_fields_low zero q (suc r) h = absurd (omega arith)
bit_or_fields_low (suc k) q r h =
    let double : q * 2 ^ suc k ≡ 2 * (q * 2 ^ k) =
      omega (arith, ap (λ (t : ℕ). q * t) (two_pow-suc k)) in
    let half : q * 2 ^ suc k / 2 ≡ q * 2 ^ k = omega arith in
    omega (
      arith,
      double,
      bit_or_step r (q * 2 ^ suc k),
      ap (λ (t : ℕ). bit_or (r / 2) t) half,
      bit_or_fields_low k q (r / 2) (omega (arith, two_pow-suc k)),
    )

-- A single bit.
pub bit_and_single : (k a : ℕ) → bit_and a (2 ^ k) ≡ a / 2 ^ k % 2 * 2 ^ k
bit_and_single zero a = omega (arith, bit_and_mask 1 a)
bit_and_single (suc k) a =
    let half : 2 ^ suc k / 2 ≡ 2 ^ k = omega (arith, two_pow-suc k) in
    let quot : a / 2 ^ suc k ≡ a / 2 / 2 ^ k =
      ap (λ (t : ℕ). a / t) (two_pow-suc k) ∙ sym (div-div-eq-div-mul a 2 (2 ^ k)) in
    omega (
      arith,
      two_pow-suc k,
      ap (λ (t : ℕ). a / 2 / 2 ^ k % 2 * t) (two_pow-suc k),
      bit_and_step a (2 ^ suc k),
      ap (bit_and (a / 2)) half,
      bit_and_single k (a / 2),
      ap (λ (t : ℕ). t % 2 * 2 ^ suc k) quot,
    )

-- `a | b` is 0 when both are, and `a ^ b` is 0 when they are equal.
or_zero_parts : (n a b : ℕ) → a + b ≤ n → bit_or a b ≡ 0 → (a ≡ 0) × (b ≡ 0)
or_zero_parts zero a b h e = omega arith
or_zero_parts (suc n) zero b h e = omega (arith, bit_or-bitwise 0 b)
or_zero_parts (suc n) (suc a) b h e =
    let next =
      or_zero_parts n (suc a / 2) (b / 2) (omega arith) (omega (arith, bit_or_step (suc a) b)) in
    omega (arith, next, bit_or_step (suc a) b)

pub bit_or-eq-zero_iff : (a b : ℕ) → (bit_or a b ≡ 0) ↔ ((a ≡ 0) × (b ≡ 0))
bit_or-eq-zero_iff a b =
    (or_zero_parts (a + b) a b (omega arith), λ h. ap₂ bit_or h.0 h.1 ∙ bit_or-bitwise 0 0)

pub bit_xor_step : (a b : ℕ) → bit_xor a b ≡ bit_xor (a / 2) (b / 2) * 2 + differ (a % 2) (b % 2)
bit_xor_step zero b = omega (arith, bit_xor-bitwise 0 b, bit_xor-bitwise 0 (b / 2))
bit_xor_step (suc a) b = omega (
  arith,
  bit_xor-bitwise (suc a) b,
  bit_xor-bitwise (suc a / 2) (b / 2),
  digits_enough (λ b. b) differ a (suc a / 2) (suc a / 2) (b / 2) (omega arith) (omega arith),
)

differ_self : (x : ℕ) → differ x x ≡ 0
differ_self zero = refl
differ_self (suc x) = differ_self x

differ_zero : (x y : ℕ) → differ x y ≡ 0 → x ≡ y
differ_zero zero y e = sym e
differ_zero (suc x) zero e = e
differ_zero (suc x) (suc y) e = ap suc (differ_zero x y e)

xor_zero_eq : (n a b : ℕ) → a + b ≤ n → bit_xor a b ≡ 0 → a ≡ b
xor_zero_eq zero a b h e = omega arith
xor_zero_eq (suc n) zero b h e = omega (arith, bit_xor-bitwise 0 b)
xor_zero_eq (suc n) (suc a) b h e =
    let step = bit_xor_step (suc a) b in
    omega (
      arith,
      xor_zero_eq n (suc a / 2) (b / 2) (omega arith) (omega arith),
      differ_zero (suc a % 2) (b % 2) (omega arith),
    )

xor_self_below : (n a : ℕ) → a ≤ n → bit_xor a a ≡ 0
xor_self_below n zero h = bit_xor-bitwise 0 0
xor_self_below zero (suc a) h = absurd (omega arith)
xor_self_below (suc n) (suc a) h = omega (
  arith,
  bit_xor_step (suc a) (suc a),
  differ_self (suc a % 2),
  xor_self_below n (suc a / 2) (omega arith),
)

pub bit_xor-eq-zero_iff : (a b : ℕ) → (bit_xor a b ≡ 0) ↔ (a ≡ b)
bit_xor-eq-zero_iff a b =
    (xor_zero_eq (a + b) a b (omega arith), λ e. rw e (xor_self_below b b (omega arith)))

pub zero-bit_or : (b : ℕ) → bit_or 0 b ≡ b
zero-bit_or b = bit_or-bitwise 0 b

-- The same for operands that are known to be such fields.
pub bit_or_sum :
    (k q r : ℕ) {x y : ℕ} → x ≡ q * 2 ^ k → y ≡ r → r < 2 ^ k → bit_or x y ≡ q * 2 ^ k + r
bit_or_sum k q r ex ey h = ap₂ bit_or ex ey ∙ bit_or_fields k q r h

pub bit_or_sum_low :
    (k q r : ℕ) {x y : ℕ} → x ≡ r → y ≡ q * 2 ^ k → r < 2 ^ k → bit_or x y ≡ q * 2 ^ k + r
bit_or_sum_low k q r ex ey h = ap₂ bit_or ex ey ∙ bit_or_fields_low k q r h

pub div_two_pow-suc : (a t : ℕ) → a / 2 ^ suc t ≡ a / 2 / 2 ^ t
div_two_pow-suc a t = ap (λ (n : ℕ). a / n) (two_pow-suc t) ∙ sym (div-div-eq-div-mul a 2 (2 ^ t))

-- The digits of `|` and `&`.
pub digit-bit_or : (t a b : ℕ) → bit_or a b / 2 ^ t % 2 ≡ max (a / 2 ^ t % 2) (b / 2 ^ t % 2)
digit-bit_or zero a b = omega (arith, bit_or_step a b)
digit-bit_or (suc t) a b =
    let half : bit_or a b / 2 ≡ bit_or (a / 2) (b / 2) = omega (arith, bit_or_step a b) in
    ap (λ (n : ℕ). n % 2) (div_two_pow-suc (bit_or a b) t ∙ ap (λ (n : ℕ). n / 2 ^ t) half)
    ∙ digit-bit_or t (a / 2) (b / 2)
    ∙ sym (ap₂ (λ (m n : ℕ). max (m % 2) (n % 2)) (div_two_pow-suc a t) (div_two_pow-suc b t))

pub digit-bit_and : (t a b : ℕ) → bit_and a b / 2 ^ t % 2 ≡ min (a / 2 ^ t % 2) (b / 2 ^ t % 2)
digit-bit_and zero a b = omega (arith, bit_and_step a b)
digit-bit_and (suc t) a b =
    let half : bit_and a b / 2 ≡ bit_and (a / 2) (b / 2) = omega (arith, bit_and_step a b) in
    ap (λ (n : ℕ). n % 2) (div_two_pow-suc (bit_and a b) t ∙ ap (λ (n : ℕ). n / 2 ^ t) half)
    ∙ digit-bit_and t (a / 2) (b / 2)
    ∙ sym (ap₂ (λ (m n : ℕ). min (m % 2) (n % 2)) (div_two_pow-suc a t) (div_two_pow-suc b t))

-- A power of two has one digit.
pub digit-two_pow_self : (t : ℕ) → 2 ^ t / 2 ^ t % 2 ≡ 1
digit-two_pow_self zero = omega arith
digit-two_pow_self (suc t) =
    ap (λ (n : ℕ). n % 2)
      (div_two_pow-suc (2 ^ suc t) t
        ∙ ap (λ (n : ℕ). n / 2 ^ t) {y = 2 ^ t} (omega (arith, two_pow-suc t)))
    ∙ digit-two_pow_self t

pub digit-two_pow_ne : (t m : ℕ) → t ≢ m → 2 ^ m / 2 ^ t % 2 ≡ 0
digit-two_pow_ne zero zero ne = absurd (ne refl)
digit-two_pow_ne zero (suc m) ne = omega (arith, two_pow-suc m)
digit-two_pow_ne (suc t) zero ne = ap (λ (n : ℕ). n % 2) (div_two_pow-suc 1 t ∙ zero-div (2 ^ t))
digit-two_pow_ne (suc t) (suc m) ne =
    ap (λ (n : ℕ). n % 2)
      (div_two_pow-suc (2 ^ suc m) t
        ∙ ap (λ (n : ℕ). n / 2 ^ t) {y = 2 ^ m} (omega (arith, two_pow-suc m)))
    ∙ digit-two_pow_ne t m (λ e. ne (ap suc e))

-- `|` and `&` of k-bit numbers have k bits.
pub bit_or-lt : (k a b : ℕ) → a < 2 ^ k → b < 2 ^ k → bit_or a b < 2 ^ k
bit_or-lt zero zero b ha hb = omega (arith, bit_or-bitwise 0 b)
bit_or-lt zero (suc a) b ha hb = absurd (omega arith)
bit_or-lt (suc k) a b ha hb =
    let p = two_pow-suc k in
    omega (arith, p, bit_or_step a b, bit_or-lt k (a / 2) (b / 2) (omega arith) (omega arith))

pub bit_and-lt : (k a b : ℕ) → a < 2 ^ k → bit_and a b < 2 ^ k
bit_and-lt zero zero b ha = omega (arith, bit_and-bitwise 0 b)
bit_and-lt zero (suc a) b ha = absurd (omega arith)
bit_and-lt (suc k) a b ha =
    let p = two_pow-suc k in
    omega (arith, p, bit_and_step a b, bit_and-lt k (a / 2) (b / 2) (omega arith))

-- Two numbers of k bits with the same bits are equal.
pub digits_eq :
    (k a b : ℕ) → a < 2 ^ k → b < 2 ^ k → ((t : ℕ) → t < k → a / 2 ^ t % 2 ≡ b / 2 ^ t % 2) → a ≡ b
digits_eq zero a b ha hb e = omega arith
digits_eq (suc k) a b ha hb e =
    let p = two_pow-suc k in
    let low : a % 2 ≡ b % 2 = omega (arith, e 0 (omega arith)) in
    let high : a / 2 ≡ b / 2 = digits_eq k (a / 2) (b / 2) (omega arith) (omega arith) (λ t h.
      ap (λ (n : ℕ). n % 2) (sym (div_two_pow-suc a t))
      ∙ e (suc t) (omega arith)
      ∙ ap (λ (n : ℕ). n % 2) (div_two_pow-suc b t)) in
    omega arith

-- `&` and `|` act on the fields of a number one by one.
pub bit_and_fields :
    (k x y a b : ℕ)
    → a < 2 ^ k
    → b < 2 ^ k
    → bit_and (x * 2 ^ k + a) (y * 2 ^ k + b) ≡ bit_and x y * 2 ^ k + bit_and a b
bit_and_fields zero x y a b ha hb =
    let first : x * 2 ^ 0 + a ≡ x = omega arith in
    let second : y * 2 ^ 0 + b ≡ y = omega arith in
    let a_zero : a ≡ 0 = omega arith in
    let b_zero : b ≡ 0 = omega arith in
    ap₂ bit_and first second ∙ omega (arith, bit_and-bitwise 0 0, ap₂ bit_and a_zero b_zero)
bit_and_fields (suc k) x y a b ha hb =
    let p = two_pow-suc k in
    let px : x * 2 ^ suc k ≡ 2 * (x * 2 ^ k) = omega (arith, ap (λ (t : ℕ). x * t) p) in
    let py : y * 2 ^ suc k ≡ 2 * (y * 2 ^ k) = omega (arith, ap (λ (t : ℕ). y * t) p) in
    let pz : bit_and x y * 2 ^ suc k ≡ 2 * (bit_and x y * 2 ^ k) =
      omega (arith, ap (λ (t : ℕ). bit_and x y * t) p) in
    let first : (x * 2 ^ suc k + a) / 2 ≡ x * 2 ^ k + a / 2 = omega arith in
    let second : (y * 2 ^ suc k + b) / 2 ≡ y * 2 ^ k + b / 2 = omega arith in
    let half : bit_and ((x * 2 ^ suc k + a) / 2) ((y * 2 ^ suc k + b) / 2)
        ≡ bit_and x y * 2 ^ k + bit_and (a / 2) (b / 2) =
      ap₂ bit_and first second ∙ bit_and_fields k x y (a / 2) (b / 2) (omega arith) (omega arith) in
    omega (arith, bit_and_step (x * 2 ^ suc k + a) (y * 2 ^ suc k + b), bit_and_step a b, half)

pub bit_or_fields_each :
    (k x y a b : ℕ)
    → a < 2 ^ k
    → b < 2 ^ k
    → bit_or (x * 2 ^ k + a) (y * 2 ^ k + b) ≡ bit_or x y * 2 ^ k + bit_or a b
bit_or_fields_each zero x y a b ha hb =
    let first : x * 2 ^ 0 + a ≡ x = omega arith in
    let second : y * 2 ^ 0 + b ≡ y = omega arith in
    let a_zero : a ≡ 0 = omega arith in
    let b_zero : b ≡ 0 = omega arith in
    ap₂ bit_or first second ∙ omega (arith, bit_or-bitwise 0 0, ap₂ bit_or a_zero b_zero)
bit_or_fields_each (suc k) x y a b ha hb =
    let p = two_pow-suc k in
    let px : x * 2 ^ suc k ≡ 2 * (x * 2 ^ k) = omega (arith, ap (λ (t : ℕ). x * t) p) in
    let py : y * 2 ^ suc k ≡ 2 * (y * 2 ^ k) = omega (arith, ap (λ (t : ℕ). y * t) p) in
    let pz : bit_or x y * 2 ^ suc k ≡ 2 * (bit_or x y * 2 ^ k) =
      omega (arith, ap (λ (t : ℕ). bit_or x y * t) p) in
    let first : (x * 2 ^ suc k + a) / 2 ≡ x * 2 ^ k + a / 2 = omega arith in
    let second : (y * 2 ^ suc k + b) / 2 ≡ y * 2 ^ k + b / 2 = omega arith in
    let half : bit_or ((x * 2 ^ suc k + a) / 2) ((y * 2 ^ suc k + b) / 2)
        ≡ bit_or x y * 2 ^ k + bit_or (a / 2) (b / 2) =
      ap₂ bit_or first second
      ∙ bit_or_fields_each k x y (a / 2) (b / 2) (omega arith) (omega arith) in
    omega (arith, bit_or_step (x * 2 ^ suc k + a) (y * 2 ^ suc k + b), bit_or_step a b, half)
