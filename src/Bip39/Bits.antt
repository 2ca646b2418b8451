-- ===== src/Bip39/Bits.antt =====
-- How `mnemonic_from_data` takes words out of a bit string and `data_from_mnemonic` puts them back.
use ether_flutter_plugin.Prelude.{
  ℕ, zero, suc, ◌+◌, ◌-◌, ◌*◌, ◌/◌, ◌%◌, ◌^◌, ◌<◌, ◌≤◌, ◌≡◌, ◌≢◌, ◌∙◌, refl, sym, ap, subst, false,
  List, bit_and, bit_or, ltb, ◌==◌, to_int, if◌then◌else◌, get_or, set, length, arith,
  get_or-set_self, get_or-set_ne, length-set, replicate, length-replicate,
}
use ether_flutter_plugin.Prelude.Bits.{
  bit_and_single, bit_or-lt, digit-bit_or, digit-two_pow_self, digit-two_pow_ne, pow_pos,
  two_pow-suc,
}
use native.Mathlib.Decide.{ℕ_discrete}
use native.Mathlib.Nat.{pow-le-pow_right, mul_comm, div-div-eq-div-mul, zero-div}
use ether_flutter_plugin.Bip39.Encode.{bit_at, index_loop}
use ether_flutter_plugin.Bip39.Decode.{put_bits}

digit_test : (d p : ℕ) → d < 2 → 0 < p → to_int (ltb 0 (d * p)) ≡ d
digit_test zero p h pos = ground arith
digit_test (suc zero) p h pos = ground arith
digit_test (suc (suc d)) p h pos = absurd (omega arith)

pub bit_at_lem :
    (bits : List ℕ) (p : ℕ) → bit_at bits p ≡ get_or bits (p / 8) 0 / 2 ^ (7 - p % 8) % 2
unfolding bit_at
bit_at_lem bits p =
    let x : ℕ = get_or bits (p / 8) 0 in
    let m : ℕ = 7 - p % 8 in
    ap (λ (n : ℕ). to_int (ltb 0 n)) (bit_and_single m x)
    ∙ digit_test (x / 2 ^ m % 2) (2 ^ m) (omega arith) (pow_pos m)

pub bit_at-lt : (bits : List ℕ) (p : ℕ) → bit_at bits p < 2
bit_at-lt bits p = omega (arith, bit_at_lem bits p)

div_up : (a t : ℕ) → a / 2 ^ suc t ≡ a / 2 ^ t / 2
div_up a t =
    ap (λ (n : ℕ). a / n) (two_pow-suc t ∙ mul_comm 2 (2 ^ t))
    ∙ sym (div-div-eq-div-mul a (2 ^ t) 2)

index_loop_high : (bits : List ℕ) (left p idx : ℕ) → index_loop bits left p idx / 2 ^ left ≡ idx
unfolding index_loop
index_loop_high bits zero p idx = omega arith
index_loop_high bits (suc left) p idx =
    div_up (index_loop bits left (p + 1) (idx * 2 + bit_at bits p)) left
    ∙ omega (arith, index_loop_high bits left (p + 1) (idx * 2 + bit_at bits p), bit_at-lt bits p)

-- Bit number `left - 1 - j` of the index is the bit of the string at p + j.
pub index_loop_digit :
    (bits : List ℕ) (left p idx j : ℕ)
    → j < left
    → index_loop bits left p idx / 2 ^ (left - 1 - j) % 2 ≡ bit_at bits (p + j)
unfolding index_loop
index_loop_digit bits zero p idx j h = absurd (omega arith)
index_loop_digit bits (suc left) p idx zero h =
    ap (λ (n : ℕ). index_loop bits left (p + 1) (idx * 2 + bit_at bits p) / 2 ^ n % 2) {y = left}
      (omega arith)
    ∙ omega (arith, index_loop_high bits left (p + 1) (idx * 2 + bit_at bits p), bit_at-lt bits p)
    ∙ ap (bit_at bits) {x = p} (omega arith)
index_loop_digit bits (suc left) p idx (suc j) h =
    ap (λ (n : ℕ). index_loop bits left (p + 1) (idx * 2 + bit_at bits p) / 2 ^ n % 2)
      {y = left - 1 - j} (omega arith)
    ∙ index_loop_digit bits left (p + 1) (idx * 2 + bit_at bits p) j (omega arith)
    ∙ ap (bit_at bits) (omega arith)

-- An index of 11 bits is below 2048.
pub index_loop-lt : (bits : List ℕ) (p : ℕ) → index_loop bits 11 p 0 < 2048
index_loop-lt bits p = omega (arith, index_loop_high bits 11 p 0)

-- `out` holds the bits of `bits` before position n, and zeros from there on.
pub record HoldsPrefix (bits : List ℕ) (n : ℕ) (out : List ℕ) : Type 0 where
  pub length-out : length out ≡ 65
  pub before : (q : ℕ) → q < n → bit_at out q ≡ bit_at bits q
  pub after : (q : ℕ) → n ≤ q → bit_at out q ≡ 0
  pub byte_out : (t : ℕ) → get_or out t 0 < 256

zero_digit : (e : ℕ) → 0 / 2 ^ e % 2 ≡ 0
zero_digit e = omega (arith, zero-div (2 ^ e))

get_or-replicate : (n t : ℕ) → get_or {A = ℕ} (replicate n 0) t 0 ≡ 0
get_or-replicate zero t = refl
get_or-replicate (suc n) zero = refl
get_or-replicate (suc n) (suc t) = get_or-replicate n t

-- An empty array holds no bits.
pub start-HoldsPrefix : (bits : List ℕ) → HoldsPrefix bits 0 (replicate 65 0)
start-HoldsPrefix bits = record {
  length-out = length-replicate {A = ℕ} 65 0;
  before = λ q h. absurd (omega arith);
  after = λ q h.
      bit_at_lem (replicate 65 0) q
      ∙ ap (λ (n : ℕ). n / 2 ^ (7 - q % 8) % 2) (get_or-replicate 65 (q / 8))
      ∙ zero_digit (7 - q % 8);
  byte_out = λ t. omega (arith, get_or-replicate 65 t);
}

abbrev set_bit : ℕ → List ℕ → List ℕ
set_bit b out = set out (b / 8) (bit_or (get_or out (b / 8) 0) (2 ^ (7 - b % 8)))

set_bit_self : (b : ℕ) (out : List ℕ) → b / 8 < length out → bit_at (set_bit b out) b ≡ 1
set_bit_self b out h =
    let m : ℕ = 7 - b % 8 in
    let x : ℕ = get_or out (b / 8) 0 in
    bit_at_lem (set_bit b out) b
    ∙ ap (λ (n : ℕ). n / 2 ^ m % 2) (get_or-set_self out (b / 8) (bit_or x (2 ^ m)) 0 h)
    ∙ digit-bit_or m x (2 ^ m)
    ∙ omega (arith, digit-two_pow_self m)

set_bit_ne :
    (b q : ℕ) (out : List ℕ) → b / 8 < length out → q ≢ b → bit_at (set_bit b out) q ≡ bit_at out q
set_bit_ne b q out h ne =
    let m : ℕ = 7 - b % 8 in
    let t : ℕ = 7 - q % 8 in
    let x : ℕ = get_or out (b / 8) 0 in
    bit_at_lem (set_bit b out) q
    ∙ elim (ℕ_discrete (b / 8) (q / 8)) [
      | yes e ↦
          ap (λ (i : ℕ). get_or (set_bit b out) i 0 / 2 ^ t % 2) (sym e)
          ∙ ap (λ (n : ℕ). n / 2 ^ t % 2) (get_or-set_self out (b / 8) (bit_or x (2 ^ m)) 0 h)
          ∙ digit-bit_or t x (2 ^ m)
          ∙ omega (arith, digit-two_pow_ne t m (omega arith))
          ∙ ap (λ (i : ℕ). get_or out i 0 / 2 ^ t % 2) e
      | no d ↦
          ap (λ (n : ℕ). n / 2 ^ t % 2) (get_or-set_ne out (b / 8) (q / 8) (bit_or x (2 ^ m)) 0 d)
    ]
    ∙ sym (bit_at_lem out q)

set_bit-byte :
    (b : ℕ) (out : List ℕ)
    → b / 8 < length out
    → ((t : ℕ) → get_or out t 0 < 256)
    → (t : ℕ) → get_or (set_bit b out) t 0 < 256
set_bit-byte b out h bytes t =
    let m : ℕ = 7 - b % 8 in
    let v : ℕ = bit_or (get_or out (b / 8) 0) (2 ^ m) in
    let power : 2 ^ m ≤ 2 ^ 7 =
      pow-le-pow_right {n = 2} (omega arith) {i = m} {j = 7} (omega arith) in
    let small : v < 2 ^ 8 =
      bit_or-lt 8 (get_or out (b / 8) 0) (2 ^ m) (bytes (b / 8)) (omega arith) in
    elim (ℕ_discrete (b / 8) t) [
      | yes here ↦ rw (← here) (rw (get_or-set_self out (b / 8) v 0 h) small)
      | no other ↦ rw (get_or-set_ne out (b / 8) t v 0 other) (bytes t)
    ]

-- One more bit.
next_bit :
    (bits : List ℕ) (b : ℕ) (out : List ℕ) (w : ℕ)
    → HoldsPrefix bits b out
    → b < 520
    → w ≡ bit_at bits b
    → HoldsPrefix bits (b + 1) (if w == 0 then out else set_bit b out)
next_bit bits b out zero s h e = record {
  length-out = s.length-out;
  before = λ q hq. ground (arith, s.before q, s.after q);
  after = λ q hq. s.after q (omega arith);
  byte_out = s.byte_out;
}
next_bit bits b out (suc w) s h e =
    let in_range : b / 8 < length out = omega (arith, s.length-out) in
    let nonzero : (suc w == 0) ≡ false = ground arith in
    rw nonzero record {
      length-out = length-set out (b / 8) _ ∙ s.length-out;
      before = λ q hq. elim (ℕ_discrete q b) [
        | yes here ↦
            ap (bit_at (set_bit b out)) here
            ∙ set_bit_self b out in_range
            ∙ omega (arith, e, bit_at-lt bits b)
            ∙ ap (bit_at bits) (sym here)
        | no other ↦ set_bit_ne b q out in_range other ∙ s.before q (omega arith)
      ];
      after = λ q hq. set_bit_ne b q out in_range (omega arith) ∙ s.after q (omega arith);
      byte_out = set_bit-byte b out in_range s.byte_out;
    }

zero_test : (w p : ℕ) → 0 < p → (w * p == 0) ≡ (w == 0)
zero_test zero p h = ground arith
zero_test (suc w) p h = ground arith

-- `put_bits` of a number whose digits are the next bits of the string.
pub put_bits-HoldsPrefix :
    (bits : List ℕ) (k left b : ℕ) (out : List ℕ)
    → HoldsPrefix bits b out
    → b + left ≤ 520
    → ((j : ℕ) → j < left → k / 2 ^ (left - 1 - j) % 2 ≡ bit_at bits (b + j))
    → HoldsPrefix bits (b + left) (put_bits k left b out)
unfolding put_bits
put_bits-HoldsPrefix bits k zero b out s h e =
    subst (λ n. HoldsPrefix bits n out) {x = b} (omega arith) s
put_bits-HoldsPrefix bits k (suc left) b out s h e =
    let w : ℕ = k / 2 ^ left % 2 in
    let first : w ≡ bit_at bits b =
      ap (λ (n : ℕ). k / 2 ^ n % 2) {x = left} (omega arith)
      ∙ e 0 (omega arith)
      ∙ ap (bit_at bits) {y = b} (omega arith) in
    let test : (bit_and k (2 ^ left) == 0) ≡ (w == 0) =
      ap (λ (n : ℕ). n == 0) (bit_and_single left k) ∙ zero_test w (2 ^ left) (pow_pos left) in
    let step : HoldsPrefix bits (b + 1) (if bit_and k (2 ^ left) == 0 then out else set_bit b out) =
      rw test (next_bit bits b out w s (omega arith) first) in
    let rest = put_bits-HoldsPrefix bits k left (b + 1) _ step (omega arith) (λ j hj.
      ap (λ (n : ℕ). k / 2 ^ n % 2) {y = suc left - 1 - suc j} (omega arith)
      ∙ e (suc j) (omega arith)
      ∙ ap (bit_at bits) (omega arith)) in
    subst
      (λ n.
        HoldsPrefix bits n
          (put_bits k left (b + 1) (if bit_and k (2 ^ left) == 0 then out else set_bit b out)))
      {x = b + 1 + left} (omega arith) rest
