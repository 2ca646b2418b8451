-- ===== src/Bignum/Power/Limbs.antt =====
-- The loops over the limbs and bits of an exponent compute a power modulo the prime.
use ether_flutter_plugin.Prelude.{
  ℕ, zero, suc, ◌*◌, ◌/◌, ◌%◌, ◌^◌, ◌<◌, ◌≤◌, ◌≡◌, ◌∙◌, sym, ap, inl, inr, length, arith, bit_and,
  Bool, true, false, ◌≢◌, ◌&&◌, ◌==◌, if◌then◌else◌, Bool-cases, ==_iff, ◌>>>◌,
}
use ether_flutter_plugin.Prelude.Bits.{bit_and_mask, two_pow-suc}
use native.Mathlib.Nat.{mul-le-mul, mul_assoc, mul_comm, pow-zero, mul-one}
use native.Mathlib.Nat.{add-mul-mod_self_right}
use ether_flutter_plugin.Bignum.Value.{Bignum256, value, IsNormalized}
use ether_flutter_plugin.Bignum.Reduce.FastMod.{IsModulus}
use ether_flutter_plugin.Bignum.Multiply.{bn_multiply}
use ether_flutter_plugin.Bignum.Multiply.Product.{bn_multiply-value}
use ether_flutter_plugin.Prelude.Powers.{square-pow, pow_one}
use ether_flutter_plugin.Bignum.Power.Congruence.{
  IsCongruent, IsCongruent-mul, IsCongruent-pow, pow_halves,
}
use ether_flutter_plugin.Bignum.Power.{power_bits}

-- A number that `bn_multiply` takes: nine normalized limbs below 180 times the prime.
pub record Fits (p x : Bignum256) : Type 0 where
  pub limbs : length x ≡ 9
  pub normal : IsNormalized x
  pub bound : value x < 180 * value p

pub record IsPartlyReduced (p x : Bignum256) : Type 0 where
  pub limbs : length x ≡ 9
  pub normal : IsNormalized x
  pub bound : value x < 2 * value p

pub IsPartlyReduced-Fits : {p x : Bignum256} → IsPartlyReduced p x → Fits p x
IsPartlyReduced-Fits h = record { limbs = h.limbs; normal = h.normal; bound = omega arith }

product_bound : (k x q : ℕ) → k < 180 * q → x < 180 * q → q < 2 ^ 256 → k * x < 2 ^ 270 * (2 * q)
product_bound k x q hk hx hq =
    let product : k * x ≤ 180 * q * (180 * q) =
      mul-le-mul {n₂ = 180 * q} {m₂ = 180 * q} (omega arith) (omega arith) in
    let square : q * q ≤ q * 2 ^ 256 =
      mul-le-mul {n₂ = q} {m₂ = 2 ^ 256} (omega arith) (omega arith) in
    omega (arith, product, square)

-- `bn_multiply` on such numbers.
pub bn_multiply-IsPartlyReduced :
    (k x p : Bignum256)
    → IsModulus p
    → Fits p k
    → Fits p x
    → IsPartlyReduced p (bn_multiply k x p)
      × IsCongruent (value p) (value (bn_multiply k x p)) (value k * value x)
bn_multiply-IsPartlyReduced k x p hp hk hx =
    let m =
      bn_multiply-value k x p hk.limbs hx.limbs hk.normal hx.normal hp
        (product_bound (value k) (value x) (value p) hk.bound hx.bound hp.upper) in
    (
      record { limbs = m.4; normal = m.3; bound = m.2 },
      sym (add-mul-mod_self_right (value (bn_multiply k x p)) m.0 (value p))
          ∙ ap (λ (n : ℕ). n % value p) m.1,
    )

-- What the loops keep: the invariant of the comments of `bn_sqrt`.
pub record Powers (p x res x' res' : Bignum256) (last : Bool) (left limb : ℕ) : Type 0 where
  pub result : IsPartlyReduced p res'
  pub power : IsCongruent (value p) (value res') (value res * value x ^ limb)
  pub base : last ≡ false → Fits p x'
  pub squares : last ≡ false → IsCongruent (value p) (value x') (value x ^ (2 ^ left))

pub empty_power : (r x n : ℕ) → n ≡ 0 → r ≡ r * x ^ n
empty_power r x n e =
    sym (ap (λ (k : ℕ). r * x ^ k) e ∙ ap (λ (t : ℕ). r * t) (pow-zero x) ∙ mul-one r)

-- The result of a round: res is multiplied where the lowest bit is set.
odd_round :
    (p x res : Bignum256) (limb : ℕ)
    → IsModulus p
    → Fits p x
    → IsPartlyReduced p res
    → IsPartlyReduced p (if bit_and limb 1 == 0 then res else bn_multiply x res p)
      × IsCongruent
          (value p)
          (value (if bit_and limb 1 == 0 then res else bn_multiply x res p))
          (value res * value x ^ (limb % 2))
odd_round p x res limb hp hx hres = elim (Bool-cases (bit_and limb 1 == 0)) [
  | inl even ↦
      let bit : limb % 2 ≡ 0 = omega (arith, bit_and_mask 1 limb, (==_iff _ _).0 even) in
      rw even (hres, ap (λ (t : ℕ). t % value p) (empty_power (value res) (value x) (limb % 2) bit))
  | inr odd ↦
      let bit : limb % 2 ≡ 1 = odd_bit limb (bit_and_mask 1 limb) odd in
      let m = bn_multiply-IsPartlyReduced x res p hp hx (IsPartlyReduced-Fits hres) in
      rw odd (
        m.0,
        m.1
            ∙ ap (λ (t : ℕ). t % value p)
                (mul_comm (value x) (value res)
                  ∙ sym (
                      ap (λ (n : ℕ). value res * value x ^ n) bit
                      ∙ ap (λ (t : ℕ). value res * t) (pow_one (value x)))),
      )
]
  where
    odd_bit : (n : ℕ) → bit_and n 1 ≡ n % 2 → (bit_and n 1 == 0) ≡ false → n % 2 ≡ 1
    odd_bit n e f = ground arith

-- The power of the bits: the lowest by itself, the others over the square.
bits_power :
    (q r x r1 x1 r2 limb : ℕ)
    → IsCongruent q r1 (r * x ^ (limb % 2))
    → IsCongruent q x1 (x * x)
    → IsCongruent q r2 (r1 * x1 ^ (limb / 2))
    → IsCongruent q r2 (r * x ^ limb)
bits_power q r x r1 x1 r2 limb e1 ex e2 =
    e2
    ∙ IsCongruent-mul q r1 (r * x ^ (limb % 2)) (x1 ^ (limb / 2)) ((x * x) ^ (limb / 2)) e1
        (IsCongruent-pow q (limb / 2) x1 (x * x) ex)
    ∙ ap (λ (n : ℕ). n % q)
        (mul_assoc r (x ^ (limb % 2)) ((x * x) ^ (limb / 2))
          ∙ ap (λ (t : ℕ). r * t) (pow_halves x limb))

squares_power :
    (q x x1 x2 left : ℕ)
    → IsCongruent q x1 (x * x)
    → IsCongruent q x2 (x1 ^ (2 ^ left))
    → IsCongruent q x2 (x ^ (2 ^ suc left))
squares_power q x x1 x2 left e1 e2 =
    e2
    ∙ IsCongruent-pow q (2 ^ left) x1 (x * x) e1
    ∙ ap (λ (n : ℕ). n % q)
        (square-pow x (2 ^ left) ∙ ap (λ (n : ℕ). x ^ n) (sym (two_pow-suc left)))

-- The loop over the bits of one limb.
pub power_bits-Powers :
    (left : ℕ) (last : Bool) (limb : ℕ) (x res p : Bignum256)
    → limb < 2 ^ left
    → IsModulus p
    → Fits p x
    → IsPartlyReduced p res
    → let out = power_bits left last limb x res p in Powers p x res out.0 out.1 last left limb
unfolding power_bits
power_bits-Powers zero last limb x res p h hp hx hres = record {
  result = hres;
  power = ap (λ (n : ℕ). n % value p) (empty_power (value res) (value x) limb (omega arith));
  base = λ _. hx;
  squares = λ _. ap (λ (n : ℕ). n % value p) (sym (pow_one (value x)));
}
power_bits-Powers (suc left) last limb x res p h hp hx hres =
    elim (Bool-cases (last && limb == 0)) [
      | inl stop ↦ rw stop record {
        result = hres;
        power =
            ap (λ (n : ℕ). n % value p)
              (empty_power (value res) (value x) limb (stopped last limb stop).0);
        base = λ e. absurd ((stopped last limb stop).1 e);
        squares = λ e. absurd ((stopped last limb stop).1 e);
      }
      | inr go ↦
          let x1 : Bignum256 = bn_multiply x x p in
          let r1 : Bignum256 = if bit_and limb 1 == 0 then res else bn_multiply x res p in
          let sq = bn_multiply-IsPartlyReduced x x p hp hx hx in
          let odd = odd_round p x res limb hp hx hres in
          let rest =
            power_bits-Powers left last (limb >>> 1) x1 r1 p (omega (arith, two_pow-suc left)) hp
              (IsPartlyReduced-Fits sq.0) odd.0 in
          rw go record {
            result = rest.result;
            power =
                bits_power (value p) (value res) (value x) (value r1) (value x1) _ limb odd.1 sq.1
                  rest.power;
            base = rest.base;
            squares =
                λ e. squares_power (value p) (value x) (value x1) _ left sq.1 (rest.squares e);
          }
    ]
  where
    stopped : (b : Bool) (n : ℕ) → (b && n == 0) ≡ true → (n ≡ 0) × (b ≢ false)
    stopped b n e = (ground arith, λ f. ground arith)
