-- ===== src/Sha2/Reverse.antt =====
-- The macros REVERSE32 and REVERSE64 of ios/Classes/sha2.h turn little-endian words into big-endian ones.
use ether_flutter_plugin.Prelude.{
  ℕ, ◌+◌, ◌*◌, ◌^◌, ◌<◌, ◌≡◌, ◌∙◌, refl, ap, ap₂, bit_and, bit_or, arith, u32, u64, ◌<<<◌, ◌>>>◌,
}
use ether_flutter_plugin.Prelude.Bits.{
  bit_and_fields, bit_or_fields_each, bit_and_mask, bit_and-zero, bit_or_sum_low,
}
use ether_flutter_plugin.Sha2.Memory.{reverse32, reverse64}

-- Two bytes under the masks 0xff00 and 0x00ff.
mask_high : (h l : ℕ) → h < 256 → l < 256 → bit_and (h * 256 + l) 0xff00 ≡ h * 256
mask_high h l hh hl =
    bit_and_fields 8 h 255 l 0 (omega arith) (omega arith)
    ∙ omega (arith, bit_and_mask 8 h, bit_and-zero l)

mask_low : (h l : ℕ) → h < 256 → l < 256 → bit_and (h * 256 + l) 0xff ≡ l
mask_low h l hh hl =
    bit_and_fields 8 h 0 l 255 (omega arith) (omega arith)
    ∙ omega (arith, bit_and_mask 8 l, bit_and-zero h)

-- Four bytes a b c d, the highest first.
abbrev pub word4 : ℕ → ℕ → ℕ → ℕ → ℕ
word4 a b c d = (a * 256 + b) * 65536 + (c * 256 + d)

mask_highs :
    (a b c d : ℕ)
    → a < 256
    → b < 256
    → c < 256
    → d < 256
    → bit_and (word4 a b c d) 0xff00ff00 ≡ word4 a 0 c 0
mask_highs a b c d ha hb hc hd =
    bit_and_fields 16 (a * 256 + b) 0xff00 (c * 256 + d) 0xff00 (omega arith) (omega arith)
    ∙ omega (arith, mask_high a b ha hb, mask_high c d hc hd)

mask_lows :
    (a b c d : ℕ)
    → a < 256
    → b < 256
    → c < 256
    → d < 256
    → bit_and (word4 a b c d) 0x00ff00ff ≡ word4 0 b 0 d
mask_lows a b c d ha hb hc hd =
    bit_and_fields 16 (a * 256 + b) 0xff (c * 256 + d) 0xff (omega arith) (omega arith)
    ∙ omega (arith, mask_low a b ha hb, mask_low c d hc hd)

-- Swapping the bytes of each half.
join_swapped :
    (a b c d : ℕ)
    → a < 256
    → b < 256
    → c < 256
    → d < 256
    → bit_or (word4 0 a 0 c) (word4 b 0 d 0) ≡ word4 b a d c
join_swapped a b c d ha hb hc hd =
    let low : word4 0 a 0 c ≡ a * 2 ^ 16 + c = omega arith in
    let high : word4 b 0 d 0 ≡ b * 256 * 2 ^ 16 + d * 256 = omega arith in
    ap₂ bit_or low high
    ∙ bit_or_fields_each 16 a (b * 256) c (d * 256) (omega arith) (omega arith)
    ∙ omega (
      arith,
      bit_or_sum_low 8 b a {x = a} {y = b * 256} refl refl ha,
      bit_or_sum_low 8 d c {x = c} {y = d * 256} refl refl hc,
    )

pub reverse32_lem :
    (a b c d : ℕ)
    → a < 256
    → b < 256
    → c < 256
    → d < 256
    → reverse32 (word4 a b c d) ≡ word4 d c b a
unfolding reverse32
reverse32_lem a b c d ha hb hc hd =
    let swapped : bit_or (word4 a b c d >>> 16) (u32 (word4 a b c d <<< 16)) ≡ word4 c d a b =
      bit_or_sum_low 16 (c * 256 + d) (a * 256 + b) (omega arith) (omega arith) (omega arith) in
    ap₂ bit_or
      (ap (λ (t : ℕ). bit_and t 0xff00ff00 >>> 8) swapped
        ∙ ap (λ (t : ℕ). t >>> 8) (mask_highs c d a b hc hd ha hb)
        ∙ omega arith)
      (ap (λ (t : ℕ). u32 (bit_and t 0x00ff00ff <<< 8)) swapped
        ∙ ap (λ (t : ℕ). u32 (t <<< 8)) (mask_lows c d a b hc hd ha hb)
        ∙ omega arith)
    ∙ join_swapped c d a b hc hd ha hb

-- Two halves under a mask that repeats.
mask_halves :
    (x y m p q : ℕ)
    → y < 2 ^ 32
    → m < 2 ^ 32
    → bit_and x m ≡ p
    → bit_and y m ≡ q
    → bit_and (x * 2 ^ 32 + y) (m * 2 ^ 32 + m) ≡ p * 2 ^ 32 + q
mask_halves x y m p q hy hm ep eq = bit_and_fields 32 x m y m hy hm ∙ omega (arith, ep, eq)

mask_top : (h l : ℕ) → h < 65536 → l < 65536 → bit_and (h * 65536 + l) 0xffff0000 ≡ h * 65536
mask_top h l hh hl =
    bit_and_fields 16 h 0xffff l 0 (omega arith) (omega arith)
    ∙ omega (arith, bit_and_mask 16 h, bit_and-zero l)

mask_bottom : (h l : ℕ) → h < 65536 → l < 65536 → bit_and (h * 65536 + l) 0xffff ≡ l
mask_bottom h l hh hl =
    bit_and_fields 16 h 0 l 0xffff (omega arith) (omega arith)
    ∙ omega (arith, bit_and_mask 16 l, bit_and-zero h)

join_halves :
    (a b c d : ℕ)
    → a < 65536
    → b < 65536
    → c < 65536
    → d < 65536
    → bit_or (a * 2 ^ 32 + c) (b * 65536 * 2 ^ 32 + d * 65536)
      ≡ (b * 65536 + a) * 2 ^ 32 + (d * 65536 + c)
join_halves a b c d ha hb hc hd =
    bit_or_fields_each 32 a (b * 65536) c (d * 65536) (omega arith) (omega arith)
    ∙ omega (
      arith,
      bit_or_sum_low 16 b a {x = a} {y = b * 65536} refl refl ha,
      bit_or_sum_low 16 d c {x = c} {y = d * 65536} refl refl hc,
    )

swap_join :
    (a b c d e f g h : ℕ)
    → a < 256
    → b < 256
    → c < 256
    → d < 256
    → e < 256
    → f < 256
    → g < 256
    → h < 256
    → bit_or
        ((word4 a 0 c 0 * 2 ^ 32 + word4 e 0 g 0) >>> 8)
        (u64 ((word4 0 b 0 d * 2 ^ 32 + word4 0 f 0 h) <<< 8))
      ≡ word4 b a d c * 2 ^ 32 + word4 f e h g
swap_join a b c d e f g h ha hb hc hd he hf hg hh =
    let high : (word4 a 0 c 0 * 2 ^ 32 + word4 e 0 g 0) >>> 8
        ≡ word4 0 a 0 c * 2 ^ 32 + word4 0 e 0 g =
      omega arith in
    let low : u64 ((word4 0 b 0 d * 2 ^ 32 + word4 0 f 0 h) <<< 8)
        ≡ word4 b 0 d 0 * 2 ^ 32 + word4 f 0 h 0 =
      omega arith in
    ap₂ bit_or high low
    ∙ bit_or_fields_each 32 (word4 0 a 0 c) (word4 b 0 d 0) (word4 0 e 0 g) (word4 f 0 h 0)
        (omega arith) (omega arith)
    ∙ omega (arith, join_swapped a b c d ha hb hc hd, join_swapped e f g h he hf hg hh)

-- The second stage swaps the bytes of each 16 bits.
swap_bytes :
    (a b c d e f g h : ℕ)
    → a < 256
    → b < 256
    → c < 256
    → d < 256
    → e < 256
    → f < 256
    → g < 256
    → h < 256
    → bit_or
        (bit_and (word4 a b c d * 2 ^ 32 + word4 e f g h) 0xff00ff00ff00ff00 >>> 8)
        (u64 (bit_and (word4 a b c d * 2 ^ 32 + word4 e f g h) 0x00ff00ff00ff00ff <<< 8))
      ≡ word4 b a d c * 2 ^ 32 + word4 f e h g
swap_bytes a b c d e f g h ha hb hc hd he hf hg hh =
    let small : word4 e f g h < 2 ^ 32 = omega arith in
    ap₂ bit_or
      (ap (λ (t : ℕ). t >>> 8)
        (mask_halves (word4 a b c d) (word4 e f g h) 0xff00ff00 (word4 a 0 c 0) (word4 e 0 g 0)
          small (omega arith) (mask_highs a b c d ha hb hc hd) (mask_highs e f g h he hf hg hh)))
      (ap (λ (t : ℕ). u64 (t <<< 8))
        (mask_halves (word4 a b c d) (word4 e f g h) 0x00ff00ff (word4 0 b 0 d) (word4 0 f 0 h)
          small (omega arith) (mask_lows a b c d ha hb hc hd) (mask_lows e f g h he hf hg hh)))
    ∙ swap_join a b c d e f g h ha hb hc hd he hf hg hh

pub reverse64_lem :
    (a b c d e f g h : ℕ)
    → a < 256
    → b < 256
    → c < 256
    → d < 256
    → e < 256
    → f < 256
    → g < 256
    → h < 256
    → reverse64 (word4 a b c d * 2 ^ 32 + word4 e f g h) ≡ word4 h g f e * 2 ^ 32 + word4 d c b a
unfolding reverse64
reverse64_lem a b c d e f g h ha hb hc hd he hf hg hh =
    let w : ℕ = word4 a b c d * 2 ^ 32 + word4 e f g h in
    let v : ℕ = word4 f e h g * 2 ^ 32 + word4 b a d c in
    let halves : bit_or (w >>> 32) (u64 (w <<< 32)) ≡ word4 e f g h * 2 ^ 32 + word4 a b c d =
      bit_or_sum_low 32 (word4 e f g h) (word4 a b c d) (omega arith) (omega arith) (omega arith) in
    let bytes : bit_or (bit_and (bit_or (w >>> 32) (u64 (w <<< 32))) 0xff00ff00ff00ff00 >>> 8)
          (u64 (bit_and (bit_or (w >>> 32) (u64 (w <<< 32))) 0x00ff00ff00ff00ff <<< 8))
        ≡ v =
      ap
        (λ (t : ℕ).
          bit_or (bit_and t 0xff00ff00ff00ff00 >>> 8) (u64 (bit_and t 0x00ff00ff00ff00ff <<< 8)))
        halves
      ∙ swap_bytes e f g h a b c d he hf hg hh ha hb hc hd in
    let top : bit_and v 0xffff0000ffff0000
        ≡ (f * 256 + e) * 65536 * 2 ^ 32 + (b * 256 + a) * 65536 =
      mask_halves (word4 f e h g) (word4 b a d c) 0xffff0000 ((f * 256 + e) * 65536)
        ((b * 256 + a) * 65536) (omega arith) (omega arith)
        (mask_top (f * 256 + e) (h * 256 + g) (omega arith) (omega arith))
        (mask_top (b * 256 + a) (d * 256 + c) (omega arith) (omega arith)) in
    let bottom : bit_and v 0x0000ffff0000ffff ≡ (h * 256 + g) * 2 ^ 32 + (d * 256 + c) =
      mask_halves (word4 f e h g) (word4 b a d c) 0xffff (h * 256 + g) (d * 256 + c) (omega arith)
        (omega arith) (mask_bottom (f * 256 + e) (h * 256 + g) (omega arith) (omega arith))
        (mask_bottom (b * 256 + a) (d * 256 + c) (omega arith) (omega arith)) in
    let high : bit_and v 0xffff0000ffff0000 >>> 16 ≡ (f * 256 + e) * 2 ^ 32 + (b * 256 + a) =
      omega (arith, top) in
    let low : u64 (bit_and v 0x0000ffff0000ffff <<< 16)
        ≡ (h * 256 + g) * 65536 * 2 ^ 32 + (d * 256 + c) * 65536 =
      omega (arith, bottom) in
    ap
      (λ (t : ℕ).
        bit_or (bit_and t 0xffff0000ffff0000 >>> 16) (u64 (bit_and t 0x0000ffff0000ffff <<< 16)))
      bytes
    ∙ ap₂ bit_or high low
    ∙ join_halves (f * 256 + e) (h * 256 + g) (b * 256 + a) (d * 256 + c) (omega arith)
        (omega arith) (omega arith) (omega arith)
