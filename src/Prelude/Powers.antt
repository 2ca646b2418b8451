-- ===== src/Prelude/Powers.antt =====
-- Powers of the native numbers.
use Prim.Native.Nat.{ℕ, zero, suc, ◌+◌, ◌*◌, ◌^◌}
use mathlib.Core.Path.{◌≡◌, sym, ap, ◌∙◌}
use native.Mathlib.Omega.{arith}
use native.Mathlib.Nat.{pow-zero, pow-suc, one-mul}

mul-right_comm : (a b c : ℕ) → a * b * c ≡ a * c * b
mul-right_comm a b c = omega arith

pub pow_add : (x m n : ℕ) → x ^ (m + n) ≡ x ^ m * x ^ n
pow_add x zero n =
    ap (λ (k : ℕ). x ^ k) {y = n} (omega arith)
    ∙ sym (ap (λ (t : ℕ). t * x ^ n) (pow-zero x) ∙ one-mul (x ^ n))
pow_add x (suc m) n =
    let left : x ^ (suc m + n) ≡ x ^ (m + n) * x =
      ap (λ (k : ℕ). x ^ k) {y = suc (m + n)} (omega arith) ∙ pow-suc x (m + n) in
    left
    ∙ ap (λ (t : ℕ). t * x) (pow_add x m n)
    ∙ sym (ap (λ (t : ℕ). t * x ^ n) (pow-suc x m) ∙ mul-right_comm (x ^ m) x (x ^ n))

pub pow_mul : (x m n : ℕ) → (x ^ m) ^ n ≡ x ^ (m * n)
pow_mul x m zero = pow-zero (x ^ m) ∙ sym (ap (λ (k : ℕ). x ^ k) {y = 0} (omega arith) ∙ pow-zero x)
pow_mul x m (suc n) =
    pow-suc (x ^ m) n
    ∙ ap (λ (t : ℕ). t * x ^ m) (pow_mul x m n)
    ∙ sym (pow_add x (m * n) m)
    ∙ ap (λ (k : ℕ). x ^ k) (omega arith)

-- x ^ 1 is x.
pub pow_one : (x : ℕ) → x ^ 1 ≡ x
pow_one x = pow-suc x 0 ∙ ap (λ (t : ℕ). t * x) (pow-zero x) ∙ one-mul x

pub square-pow : (x n : ℕ) → (x * x) ^ n ≡ x ^ (2 * n)
square-pow x n =
    let two : x * x ≡ x ^ 2 = sym (pow-suc x 1 ∙ ap (λ (t : ℕ). t * x) (pow_one x)) in
    ap (λ (t : ℕ). t ^ n) two ∙ pow_mul x 2 n
