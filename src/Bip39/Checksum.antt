-- ===== src/Bip39/Checksum.antt =====
-- The bytes and the checksum behind a bit string of ios/Classes/bip39.c.
use ether_flutter_plugin.Prelude.{
  ℕ, zero, suc, ◌+◌, ◌-◌, ◌*◌, ◌/◌, ◌%◌, ◌^◌, ◌<◌, ◌≤◌, ◌≡◌, ◌∙◌, refl, sym, ap, ap₂, List, [], ◌∷◌,
  ◌++◌, bit_and, get_or, set, length, drop, length-append, min, arith, get_or-set_self,
  get_or-append_left, get_or-append_right, get_or-drop, ◌⊎◌, inl, inr, leb, leb_iff, Bool-cases,
}
use ether_flutter_plugin.Prelude.Bits.{digits_eq, digit-bit_and, bit_and-lt}
use ether_flutter_plugin.Sha2.Memory.{overlay}
use ether_flutter_plugin.Bip39.Encode.{bit_at, checked_bits}
use ether_flutter_plugin.Bip39.Decode.{checksum_mask}
use ether_flutter_plugin.Bip39.Bits.{bit_at_lem}

-- Bit s of byte t.
bit_of_byte :
    (bits : List ℕ) (t s : ℕ) → s < 8 → bit_at bits (8 * t + s) ≡ get_or bits t 0 / 2 ^ (7 - s) % 2
bit_of_byte bits t s h =
    let quotient : (8 * t + s) / 8 ≡ t = omega arith in
    let place : 7 - (8 * t + s) % 8 ≡ 7 - s = omega arith in
    bit_at_lem bits (8 * t + s) ∙ ap₂ (λ (i e : ℕ). get_or bits i 0 / 2 ^ e % 2) quotient place

pub same_bit :
    (xs ys : List ℕ) (t s : ℕ)
    → s < 8
    → bit_at xs (8 * t + s) ≡ bit_at ys (8 * t + s)
    → get_or xs t 0 / 2 ^ (7 - s) % 2 ≡ get_or ys t 0 / 2 ^ (7 - s) % 2
same_bit xs ys t s h e = sym (bit_of_byte xs t s h) ∙ e ∙ bit_of_byte ys t s h

-- Bytes with the same bits are equal.
pub same_byte :
    (xs ys : List ℕ) (t : ℕ)
    → get_or xs t 0 < 256
    → get_or ys t 0 < 256
    → ((s : ℕ) → s < 8 → bit_at xs (8 * t + s) ≡ bit_at ys (8 * t + s))
    → get_or xs t 0 ≡ get_or ys t 0
same_byte xs ys t hx hy e = digits_eq 8 (get_or xs t 0) (get_or ys t 0) hx hy (λ j hj.
    ap (λ (n : ℕ). get_or xs t 0 / 2 ^ n % 2) {y = 7 - (7 - j)} (omega arith)
    ∙ same_bit xs ys t (7 - j) (omega arith) (e (7 - j) (omega arith))
    ∙ ap (λ (n : ℕ). get_or ys t 0 / 2 ^ n % 2) (omega arith))

le_cases : (m n : ℕ) → (m ≤ n) ⊎ (n < m)
le_cases m n = elim (Bool-cases (leb m n)) [
  | inl e ↦ inl ((leb_iff m n).0 e)
  | inr e ↦ inr (ground arith)
]

-- Bytes that agree in their first k bits are equal under a mask of these bits.
pub same_masked :
    (x y mask k : ℕ)
    → x < 256
    → y < 256
    → ((s : ℕ) → s < k → x / 2 ^ (7 - s) % 2 ≡ y / 2 ^ (7 - s) % 2)
    → ((s : ℕ) → k ≤ s → s < 8 → mask / 2 ^ (7 - s) % 2 ≡ 0)
    → bit_and x mask ≡ bit_and y mask
same_masked x y mask k hx hy same off =
    digits_eq 8 (bit_and x mask) (bit_and y mask) (bit_and-lt 8 x mask hx) (bit_and-lt 8 y mask hy)
      (λ j hj.
        let back : 7 - (7 - j) ≡ j = omega arith in
        let masked : bit_and x mask / 2 ^ (7 - (7 - j)) % 2
            ≡ bit_and y mask / 2 ^ (7 - (7 - j)) % 2 =
          digit-bit_and (7 - (7 - j)) x mask
          ∙ elim (le_cases k (7 - j)) [
            | inl le ↦ omega (arith, off (7 - j) le (omega arith))
            | inr lt ↦ ap (λ (n : ℕ). min n (mask / 2 ^ (7 - (7 - j)) % 2)) (same (7 - j) lt)
          ]
          ∙ sym (digit-bit_and (7 - (7 - j)) y mask) in
        ap (λ (n : ℕ). bit_and x mask / 2 ^ n % 2) (sym back)
        ∙ masked
        ∙ ap (λ (n : ℕ). bit_and y mask / 2 ^ n % 2) back)

-- The masks for 12 and 18 words keep the first 4 and 6 bits.
low_digit4 : (t : ℕ) → t < 4 → checksum_mask 4 / 2 ^ t % 2 ≡ 0
unfolding checksum_mask
low_digit4 zero h = refl
low_digit4 (suc zero) h = refl
low_digit4 (suc (suc zero)) h = refl
low_digit4 (suc (suc (suc zero))) h = refl
low_digit4 (suc (suc (suc (suc t)))) h = absurd (omega arith)

pub mask-off4 : (s : ℕ) → 4 ≤ s → s < 8 → checksum_mask 4 / 2 ^ (7 - s) % 2 ≡ 0
mask-off4 s h k = low_digit4 (7 - s) (omega arith)

low_digit6 : (t : ℕ) → t < 2 → checksum_mask 6 / 2 ^ t % 2 ≡ 0
unfolding checksum_mask
low_digit6 zero h = refl
low_digit6 (suc zero) h = refl
low_digit6 (suc (suc t)) h = absurd (omega arith)

pub mask-off6 : (s : ℕ) → 6 ≤ s → s < 8 → checksum_mask 6 / 2 ^ (7 - s) % 2 ≡ 0
mask-off6 s h k = low_digit6 (7 - s) (omega arith)

module _ (sha256_raw : List ℕ → List ℕ) (input : List ℕ) where
  -- The array of `mnemonic_from_data` begins with the data.
  pub get_or-checked_bits :
      (t : ℕ) → t < length input → get_or (checked_bits sha256_raw input) t 0 ≡ get_or input t 0
  unfolding checked_bits overlay
  get_or-checked_bits t h = get_or-append_left input _ t 0 h

  -- Behind the data stands the first byte of its hash.
  pub get_or-checked_bits_end :
      length input ≤ length (sha256_raw input)
      → get_or (checked_bits sha256_raw input) (length input) 0 ≡ get_or (sha256_raw input) 0 0
  unfolding checked_bits overlay
  get_or-checked_bits_end h =
      let hash = sha256_raw input in
      let bits : List ℕ = set (hash ++ (0 ∷ [])) (length input) (get_or hash 0 0) in
      ap (λ (n : ℕ). get_or (input ++ drop (0 + length input) bits) n 0) {y = length input + 0}
        (omega arith)
      ∙ get_or-append_right input (drop (0 + length input) bits) 0 0
      ∙ get_or-drop (0 + length input) bits 0 0
      ∙ ap (λ (n : ℕ). get_or bits n 0) {y = length input} (omega arith)
      ∙ get_or-set_self (hash ++ (0 ∷ [])) (length input) (get_or hash 0 0) 0
          (omega (arith, length-append hash (0 ∷ [])))
