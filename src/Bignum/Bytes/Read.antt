-- ===== src/Bignum/Bytes/Read.antt =====
-- `bn_read_be` and `bn_read_le` read the number that the bytes stand for.
use ether_flutter_plugin.Prelude.{
  ℕ, zero, suc, ◌+◌, ◌-◌, ◌*◌, ◌%◌, ◌^◌, ◌<◌, ◌≤◌, ◌≡◌, ◌∙◌, refl, ap, List, [], ◌∷◌, length, arith,
  bit_and, bit_or, u32, ◌<<<◌, ◌>>>◌, drop,
}
use ether_flutter_plugin.Prelude.Bits.{bit_or_sum_low, bit_and_mask, two_pow-suc}
use ether_flutter_plugin.Bignum.Value.{value, IsNormalized, limb_small}
use ether_flutter_plugin.Bignum.Bytes.{read_be, read_limbs, bn_read_be}
use ether_flutter_plugin.Bignum.Bytes.Words.{IsBytes, be_value, read_be-lt, read_be-value}

-- One round: the limb that is stored and the rest of the word carry what came in.
read_round :
    (j temp w : ℕ)
    → j ≤ 7
    → temp < 2 ^ (2 * j)
    → w < 2 ^ 32
    → (bit_and (bit_or temp (u32 (w <<< (2 * j)))) 0x3FFFFFFF + 2 ^ 30 * (w >>> (30 - 2 * j))
        ≡ temp + 2 ^ (2 * j) * w)
      × (w >>> (30 - 2 * j) < 2 ^ (2 * (j + 1)))
read_round (suc (suc (suc (suc (suc (suc (suc (suc j)))))))) temp w h ht hw = absurd (omega arith)
read_round j temp w h ht hw =
    let sum =
      bit_or_sum_low (2 * j) (w % 2 ^ (32 - 2 * j)) temp {y = u32 (w <<< (2 * j))} refl
        (omega arith) ht in
    (omega (arith, sum, bit_and_mask 30 (bit_or temp (u32 (w <<< (2 * j))))), omega arith)

-- The words from round j on, the lowest first.
abbrev word_sum : (ℕ → ℕ) → ℕ → ℕ → ℕ
word_sum limb zero j = 0
word_sum limb (suc left) j = limb j + 2 ^ 32 * word_sum limb left (j + 1)

four_fold : (j v : ℕ) → 2 ^ (2 * (j + 1)) * v ≡ 4 * (2 ^ (2 * j) * v)
four_fold j v =
    let e : 2 ^ (2 * (j + 1)) ≡ 4 * 2 ^ (2 * j) =
      ap (λ (n : ℕ). 2 ^ n) {y = suc (suc (2 * j))} (omega arith)
      ∙ omega (arith, two_pow-suc (suc (2 * j)), two_pow-suc (2 * j)) in
    omega (arith, ap (λ (t : ℕ). t * v) e)

read_limbs_lem :
    (limb : ℕ → ℕ) (left j temp : ℕ)
    → left + j ≡ 8
    → temp < 2 ^ (2 * j)
    → ((i : ℕ) → limb i < 2 ^ 32)
    → (value (read_limbs limb left j temp) ≡ temp + 2 ^ (2 * j) * word_sum limb left j)
      × IsNormalized (read_limbs limb left j temp)
unfolding read_limbs
read_limbs_lem limb zero j temp e ht hw =
    let end : 2 ^ (2 * j) ≡ 2 ^ 16 = ap (λ (n : ℕ). 2 ^ (2 * n)) {y = 8} (omega arith) in
    (omega arith, (omega arith, tt))
read_limbs_lem limb (suc left) j temp e ht hw =
    let round = read_round j temp (limb j) (omega arith) ht (hw j) in
    let rest =
      read_limbs_lem limb left (j + 1) (limb j >>> (30 - 2 * j)) (omega arith) round.1 hw in
    (
      omega (arith, round.0, rest.0, four_fold j (word_sum limb left (j + 1))),
      (limb_small _, rest.1),
    )

be_words :
    (bs : List ℕ)
    → length bs ≡ 32
    → IsBytes bs
    → word_sum (λ i. read_be (drop ((7 - i) * 4) bs)) 8 0 ≡ be_value 0 bs
be_words
      (b0 ∷ b1 ∷ b2 ∷ b3 ∷ b4 ∷ b5 ∷ b6 ∷ b7 ∷ b8 ∷ b9 ∷ b10 ∷ b11 ∷ b12 ∷ b13 ∷ b14 ∷ b15 ∷ b16
        ∷ b17 ∷ b18 ∷ b19 ∷ b20 ∷ b21 ∷ b22 ∷ b23 ∷ b24 ∷ b25 ∷ b26 ∷ b27 ∷ b28 ∷ b29 ∷ b30 ∷ b31
        ∷ [])
      e h =
    omega (
      arith,
      read_be-value b0 b1 b2 b3
          (b4 ∷ b5 ∷ b6 ∷ b7 ∷ b8 ∷ b9 ∷ b10 ∷ b11 ∷ b12 ∷ b13 ∷ b14 ∷ b15 ∷ b16 ∷ b17 ∷ b18 ∷ b19
            ∷ b20 ∷ b21 ∷ b22 ∷ b23 ∷ b24 ∷ b25 ∷ b26 ∷ b27 ∷ b28 ∷ b29 ∷ b30 ∷ b31 ∷ [])
          (omega (arith, h)),
      read_be-value b4 b5 b6 b7
          (b8 ∷ b9 ∷ b10 ∷ b11 ∷ b12 ∷ b13 ∷ b14 ∷ b15 ∷ b16 ∷ b17 ∷ b18 ∷ b19 ∷ b20 ∷ b21 ∷ b22
            ∷ b23 ∷ b24 ∷ b25 ∷ b26 ∷ b27 ∷ b28 ∷ b29 ∷ b30 ∷ b31 ∷ [])
          (omega (arith, h)),
      read_be-value b8 b9 b10 b11
          (b12 ∷ b13 ∷ b14 ∷ b15 ∷ b16 ∷ b17 ∷ b18 ∷ b19 ∷ b20 ∷ b21 ∷ b22 ∷ b23 ∷ b24 ∷ b25 ∷ b26
            ∷ b27 ∷ b28 ∷ b29 ∷ b30 ∷ b31 ∷ [])
          (omega (arith, h)),
      read_be-value b12 b13 b14 b15
          (b16 ∷ b17 ∷ b18 ∷ b19 ∷ b20 ∷ b21 ∷ b22 ∷ b23 ∷ b24 ∷ b25 ∷ b26 ∷ b27 ∷ b28 ∷ b29 ∷ b30
            ∷ b31 ∷ [])
          (omega (arith, h)),
      read_be-value b16 b17 b18 b19
          (b20 ∷ b21 ∷ b22 ∷ b23 ∷ b24 ∷ b25 ∷ b26 ∷ b27 ∷ b28 ∷ b29 ∷ b30 ∷ b31 ∷ [])
          (omega (arith, h)),
      read_be-value b20 b21 b22 b23 (b24 ∷ b25 ∷ b26 ∷ b27 ∷ b28 ∷ b29 ∷ b30 ∷ b31 ∷ [])
          (omega (arith, h)),
      read_be-value b24 b25 b26 b27 (b28 ∷ b29 ∷ b30 ∷ b31 ∷ []) (omega (arith, h)),
      read_be-value b28 b29 b30 b31 ([]) (omega (arith, h)),
    )
be_words bs e h = absurd (omega arith)

IsBytes-drop : (n : ℕ) (bs : List ℕ) → IsBytes bs → IsBytes (drop n bs)
IsBytes-drop zero bs h = h
IsBytes-drop (suc n) [] h = tt
IsBytes-drop (suc n) (b ∷ bs) h = IsBytes-drop n bs h.1

-- `bn_read_be` of 32 bytes has normalized limbs, and they stand for the number that the bytes stand
-- for with the highest byte first.
pub bn_read_be-value :
    (bs : List ℕ)
    → length bs ≡ 32
    → IsBytes bs
    → (value (bn_read_be bs) ≡ be_value 0 bs) × IsNormalized (bn_read_be bs)
unfolding bn_read_be
bn_read_be-value bs e h =
    let limb : ℕ → ℕ = λ i. read_be (drop ((7 - i) * 4) bs) in
    let loop =
      read_limbs_lem limb 8 0 0 (omega arith) (omega arith)
        (λ i. read_be-lt (drop ((7 - i) * 4) bs) (IsBytes-drop ((7 - i) * 4) bs h)) in
    (loop.0 ∙ omega (arith, be_words bs e h), loop.1)
