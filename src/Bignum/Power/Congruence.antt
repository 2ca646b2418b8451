-- ===== src/Bignum/Power/Congruence.antt =====
-- Powers and congruence of the native numbers, as the powers of ios/Classes/bignum.c use them.
use ether_flutter_plugin.Prelude.{ℕ, zero, suc, ◌+◌, ◌*◌, ◌/◌, ◌%◌, ◌^◌, ◌≡◌, ◌∙◌, sym, ap, arith}
use ether_flutter_plugin.Prelude.Powers.{pow_add, square-pow}
use native.Mathlib.Nat.{pow-zero, pow-suc, mul_comm, div-add-mod', mul-add-mod_self_right}

-- a and b have the same remainder by q.
abbrev pub IsCongruent : ℕ → ℕ → ℕ → Type 0
IsCongruent q a b = a % q ≡ b % q

mul-mod_left : (q a c : ℕ) → IsCongruent q (a * c) (a % q * c)
mul-mod_left q a c =
    let split : a * c ≡ a / q * c * q + a % q * c =
      ap (λ (t : ℕ). t * c) (sym (div-add-mod' a q)) ∙ grind arith in
    ap (λ (n : ℕ). n % q) split ∙ mul-add-mod_self_right (a / q * c) q (a % q * c)

pub IsCongruent-mul :
    (q a b c d : ℕ) → IsCongruent q a b → IsCongruent q c d → IsCongruent q (a * c) (b * d)
IsCongruent-mul q a b c d e f =
    mul-mod_left q a c
    ∙ ap (λ (t : ℕ). t * c % q) e
    ∙ sym (mul-mod_left q b c)
    ∙ ap (λ (n : ℕ). n % q) (mul_comm b c)
    ∙ mul-mod_left q c b
    ∙ ap (λ (t : ℕ). t * b % q) f
    ∙ sym (mul-mod_left q d b)
    ∙ ap (λ (n : ℕ). n % q) (mul_comm d b)

pub IsCongruent-pow : (q n a b : ℕ) → IsCongruent q a b → IsCongruent q (a ^ n) (b ^ n)
IsCongruent-pow q zero a b e = ap (λ (t : ℕ). t % q) (pow-zero a ∙ sym (pow-zero b))
IsCongruent-pow q (suc n) a b e =
    ap (λ (t : ℕ). t % q) (pow-suc a n)
    ∙ IsCongruent-mul q (a ^ n) (b ^ n) a b (IsCongruent-pow q n a b e) e
    ∙ ap (λ (t : ℕ). t % q) (sym (pow-suc b n))

-- The step of square and multiply: the lowest bit of the exponent, and the others over the square.
pub pow_halves : (x n : ℕ) → x ^ (n % 2) * (x * x) ^ (n / 2) ≡ x ^ n
pow_halves x n =
    ap (λ (t : ℕ). x ^ (n % 2) * t) (square-pow x (n / 2))
    ∙ sym (pow_add x (n % 2) (2 * (n / 2)))
    ∙ ap (λ (k : ℕ). x ^ k) (omega arith)
