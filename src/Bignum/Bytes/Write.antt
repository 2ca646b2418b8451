-- ===== src/Bignum/Bytes/Write.antt =====
-- `bn_write_be` writes the number, and is inverse to `bn_read_be`.
use ether_flutter_plugin.Prelude.{
  ℕ, zero, suc, ◌+◌, ◌-◌, ◌*◌, ◌/◌, ◌%◌, ◌^◌, ◌<◌, ◌≤◌, ◌≡◌, ◌∙◌, refl, ap, ap₂, List, [], ◌∷◌,
  length, arith, u32, ◌<<<◌, ◌>>>◌, get_or, drop,
}
use ether_flutter_plugin.Prelude.Bits.{bit_or_sum}
use native.Mathlib.Nat.{mul-le-mul}
use ether_flutter_plugin.Bignum.Value.{Bignum256, value, IsNormalized, IsWords}
use ether_flutter_plugin.Bignum.Bytes.{
  read_be, write_be, read_limbs, bn_read_be, write_words, store_be, bn_write_be,
}
use ether_flutter_plugin.Bignum.Bytes.Words.{IsBytes, be_value}
use ether_flutter_plugin.Bignum.Bytes.Read.{bn_read_be-value}

-- Big-endian words as a number.
abbrev word_value : ℕ → List ℕ → ℕ
word_value acc [] = acc
word_value acc (w ∷ ws) = word_value (2 ^ 32 * acc + w) ws

store_be-value :
    (acc : ℕ) (ws : List ℕ)
    → IsWords ws
    → (be_value acc (store_be ws) ≡ word_value acc ws)
      × IsBytes (store_be ws)
      × (length (store_be ws) ≡ 4 * length ws)
unfolding store_be write_be
store_be-value acc [] h = (refl, tt, refl)
store_be-value acc (w ∷ ws) h =
    let rest = store_be-value (2 ^ 32 * acc + w) ws h.1 in
    (
      ap (λ (n : ℕ). be_value n (store_be ws)) (omega (arith, h.0)) ∙ rest.0,
      (omega arith, (omega arith, (omega arith, (omega arith, rest.1)))),
      omega (arith, rest.2),
    )

write_words-value :
    (a : Bignum256)
    → length a ≡ 9
    → IsNormalized a
    → value a < 2 ^ 256
    → (word_value 0 (write_words a 8 0 (u32 (get_or a 8 0 <<< 16))) ≡ value a)
      × IsWords (write_words a 8 0 (u32 (get_or a 8 0 <<< 16)))
unfolding write_words
write_words-value (v0 ∷ v1 ∷ v2 ∷ v3 ∷ v4 ∷ v5 ∷ v6 ∷ v7 ∷ v8 ∷ []) e h small = omega (
  arith,
  bit_or_sum 16 (v8) (v7 / 2 ^ 14) {x = u32 (v8 <<< 16)} {y = v7 >>> 14} (omega arith) refl
      (omega arith),
  bit_or_sum 18 (v7 % 2 ^ 14) (v6 / 2 ^ 12) {x = u32 (v7 <<< 18)} {y = v6 >>> 12} (omega arith) refl
      (omega arith),
  bit_or_sum 20 (v6 % 2 ^ 12) (v5 / 2 ^ 10) {x = u32 (v6 <<< 20)} {y = v5 >>> 10} (omega arith) refl
      (omega arith),
  bit_or_sum 22 (v5 % 2 ^ 10) (v4 / 2 ^ 8) {x = u32 (v5 <<< 22)} {y = v4 >>> 8} (omega arith) refl
      (omega arith),
  bit_or_sum 24 (v4 % 2 ^ 8) (v3 / 2 ^ 6) {x = u32 (v4 <<< 24)} {y = v3 >>> 6} (omega arith) refl
      (omega arith),
  bit_or_sum 26 (v3 % 2 ^ 6) (v2 / 2 ^ 4) {x = u32 (v3 <<< 26)} {y = v2 >>> 4} (omega arith) refl
      (omega arith),
  bit_or_sum 28 (v2 % 2 ^ 4) (v1 / 2 ^ 2) {x = u32 (v2 <<< 28)} {y = v1 >>> 2} (omega arith) refl
      (omega arith),
  bit_or_sum 30 (v1 % 2 ^ 2) (v0 / 2 ^ 0) {x = u32 (v1 <<< 30)} {y = v0 >>> 0} (omega arith) refl
      (omega arith),
)
write_words-value a e h small = absurd (omega arith)

length-write_words : (a : Bignum256) (left i temp : ℕ) → length (write_words a left i temp) ≡ left
unfolding write_words
length-write_words a zero i temp = refl
length-write_words a (suc left) i temp =
    ap suc (length-write_words a left (i + 1) (u32 (get_or a (7 - i) 0 <<< (18 + 2 * i))))

-- For nine normalized limbs whose number is below 2^256, `bn_write_be` writes 32 bytes, and read with
-- the highest byte first they stand for that number.
pub bn_write_be-value :
    (a : Bignum256)
    → length a ≡ 9
    → IsNormalized a
    → value a < 2 ^ 256
    → (be_value 0 (bn_write_be a) ≡ value a)
      × IsBytes (bn_write_be a)
      × (length (bn_write_be a) ≡ 32)
unfolding bn_write_be
bn_write_be-value a e h small =
    let words = write_words-value a e h small in
    let top : ℕ = u32 (get_or a 8 0 <<< 16) in
    let store = store_be-value 0 (write_words a 8 0 top) words.1 in
    (store.0 ∙ words.0, store.1, omega (arith, store.2, length-write_words a 8 0 top))

be_value-injective :
    (acc acc' : ℕ) (xs ys : List ℕ)
    → length xs ≡ length ys
    → IsBytes xs
    → IsBytes ys
    → be_value acc xs ≡ be_value acc' ys
    → (acc ≡ acc') × (xs ≡ ys)
be_value-injective acc acc' [] [] e hx hy h = (h, refl)
be_value-injective acc acc' [] (y ∷ ys) e hx hy h = absurd (omega arith)
be_value-injective acc acc' (x ∷ xs) [] e hx hy h = absurd (omega arith)
be_value-injective acc acc' (x ∷ xs) (y ∷ ys) e hx hy h =
    let rest =
      be_value-injective (256 * acc + x) (256 * acc' + y) xs ys (omega arith) hx.1 hy.1 h in
    (omega (arith, rest.0), ap₂ ◌∷◌ (omega (arith, rest.0)) rest.1)

value-injective :
    (xs ys : Bignum256)
    → length xs ≡ length ys
    → IsNormalized xs
    → IsNormalized ys
    → value xs ≡ value ys
    → xs ≡ ys
value-injective [] [] e hx hy h = refl
value-injective [] (y ∷ ys) e hx hy h = absurd (omega arith)
value-injective (x ∷ xs) [] e hx hy h = absurd (omega arith)
value-injective (x ∷ xs) (y ∷ ys) e hx hy h =
    ap₂ ◌∷◌ (omega arith) (value-injective xs ys (omega arith) hx.1 hy.1 (omega arith))

-- 256^n, what n bytes can hold.
abbrev byte_capacity : ℕ → ℕ
byte_capacity zero = 1
byte_capacity (suc n) = 256 * byte_capacity n

be_value-lt :
    (acc : ℕ) (bs : List ℕ)
    → IsBytes bs
    → be_value acc bs + 1 ≤ (acc + 1) * byte_capacity (length bs)
be_value-lt acc [] h = omega arith
be_value-lt acc (b ∷ bs) h =
    let rest = be_value-lt (256 * acc + b) bs h.1 in
    let step : (256 * acc + b + 1) * byte_capacity (length bs)
        ≤ 256 * (acc + 1) * byte_capacity (length bs) =
      mul-le-mul {m₂ = byte_capacity (length bs)} (omega (arith, h.0)) (omega arith) in
    omega (arith, rest, step)

length-read_limbs :
    (limb : ℕ → ℕ) (left i temp : ℕ) → length (read_limbs limb left i temp) ≡ suc left
unfolding read_limbs
length-read_limbs limb zero i temp = refl
length-read_limbs limb (suc left) i temp =
    ap suc (length-read_limbs limb left (i + 1) (limb i >>> (30 - 2 * i)))

pub length-bn_read_be : (bs : List ℕ) → length (bn_read_be bs) ≡ 9
unfolding bn_read_be
length-bn_read_be bs = length-read_limbs (λ i. read_be (drop ((7 - i) * 4) bs)) 8 0 0

pub bn_read_be-lt : (bs : List ℕ) → length bs ≡ 32 → IsBytes bs → value (bn_read_be bs) < 2 ^ 256
bn_read_be-lt bs e h =
    let full : byte_capacity (length bs) ≡ 2 ^ 256 = ap byte_capacity e in
    omega (arith, bn_read_be-value bs e h, be_value-lt 0 bs h, full)

-- For every string of 32 bytes, `bn_write_be` of what `bn_read_be` reads gives the string back.
pub bn_write_be-bn_read_be :
    (bs : List ℕ) → length bs ≡ 32 → IsBytes bs → bn_write_be (bn_read_be bs) ≡ bs
bn_write_be-bn_read_be bs e h =
    let read = bn_read_be-value bs e h in
    let written =
      bn_write_be-value (bn_read_be bs) (length-bn_read_be bs) read.1 (bn_read_be-lt bs e h) in
    (be_value-injective 0 0 _ bs (omega (arith, written.2)) written.1 h (written.0 ∙ read.0)).1

-- For nine normalized limbs whose number is below 2^256, `bn_read_be` of the bytes that
-- `bn_write_be` writes gives the same limbs back.
pub bn_read_be-bn_write_be :
    (a : Bignum256)
    → length a ≡ 9
    → IsNormalized a
    → value a < 2 ^ 256
    → bn_read_be (bn_write_be a) ≡ a
bn_read_be-bn_write_be a e h small =
    let written = bn_write_be-value a e h small in
    let read = bn_read_be-value (bn_write_be a) written.2 written.1 in
    value-injective _ a (omega (arith, length-bn_read_be (bn_write_be a))) read.1 h
      (read.0 ∙ written.0)
