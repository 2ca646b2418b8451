-- ===== src/Sha2/BigEndian.antt =====
-- The reversed little-endian words of ios/Classes/sha2.c are big-endian words.
use ether_flutter_plugin.Prelude.{
  ℕ, zero, suc, ◌+◌, ◌*◌, ◌/◌, ◌%◌, ◌^◌, ◌<◌, ◌≡◌, ◌∙◌, refl, ap, ap₂, List, [], ◌∷◌, ◌++◌, map, u8,
  ◌>>>◌, length, drop, arith, length-drop, take-append_le, drop-append_le,
}
use ether_flutter_plugin.Prelude.Bytes.{IsBytes, be_bytes, be_words, AllBelow}
use ether_flutter_plugin.Sha2.Memory.{
  reverse32, reverse64, load_word, load_words, store_word, store_words,
}
use ether_flutter_plugin.Sha2.Reverse.{word4, reverse32_lem, reverse64_lem}

pub map-load_words32 :
    (count : ℕ) (bs : List ℕ)
    → length bs ≡ 4 * count
    → IsBytes bs
    → map reverse32 (load_words 4 count bs) ≡ be_words 4 count bs
unfolding load_words load_word
map-load_words32 zero bs e h = refl
map-load_words32 (suc count) (a ∷ b ∷ c ∷ d ∷ bs) e (ha, (hb, (hc, (hd, h)))) =
    let word : a + 256 * (b + 256 * (c + 256 * (d + 256 * 0))) ≡ word4 d c b a = omega arith in
    ap₂ (λ x xs. x ∷ xs) (ap reverse32 word ∙ reverse32_lem d c b a hd hc hb ha ∙ omega arith)
      (map-load_words32 count bs (omega arith) h)
map-load_words32 (suc count) bs e h = absurd (omega arith)

pub map-load_words64 :
    (count : ℕ) (bs : List ℕ)
    → length bs ≡ 8 * count
    → IsBytes bs
    → map reverse64 (load_words 8 count bs) ≡ be_words 8 count bs
unfolding load_words load_word
map-load_words64 zero bs e h = refl
map-load_words64 (suc count) (a ∷ b ∷ c ∷ d ∷ i ∷ j ∷ k ∷ l ∷ bs) e
      (ha, (hb, (hc, (hd, (hi, (hj, (hk, (hl, h)))))))) =
    let word : a
          + 256
            * (b + 256 * (c + 256 * (d + 256 * (i + 256 * (j + 256 * (k + 256 * (l + 256 * 0)))))))
        ≡ word4 l k j i * 2 ^ 32 + word4 d c b a =
      omega arith in
    ap₂ (λ x xs. x ∷ xs)
      (ap reverse64 word ∙ reverse64_lem l k j i d c b a hl hk hj hi hd hc hb ha ∙ omega arith)
      (map-load_words64 count bs (omega arith) h)
map-load_words64 (suc count) bs e h = absurd (omega arith)

store_word32 : (w : ℕ) → w < 2 ^ 32 → store_word 4 (reverse32 w) ≡ be_bytes 4 w
unfolding store_word
store_word32 w h =
    let a : ℕ = w / 2 ^ 24 in
    let b : ℕ = w / 2 ^ 16 % 256 in
    let c : ℕ = w / 2 ^ 8 % 256 in
    let d : ℕ = w % 256 in
    let parts : w ≡ word4 a b c d = omega arith in
    let r : reverse32 w ≡ word4 d c b a =
      ap reverse32 parts
      ∙ reverse32_lem a b c d (omega arith) (omega arith) (omega arith) (omega arith) in
    let b0 : u8 (reverse32 w) ≡ w / 256 ^ 3 % 256 = omega (arith, r) in
    let b1 : u8 (reverse32 w >>> 8) ≡ w / 256 ^ 2 % 256 = omega (arith, r) in
    let b2 : u8 (reverse32 w >>> 8 >>> 8) ≡ w / 256 ^ 1 % 256 = omega (arith, r) in
    let b3 : u8 (reverse32 w >>> 8 >>> 8 >>> 8) ≡ w / 256 ^ 0 % 256 = omega (arith, r) in
    ap₂ (λ x xs. x ∷ xs) b0
      (ap₂ (λ x xs. x ∷ xs) b1 (ap₂ (λ x xs. x ∷ xs) b2 (ap (λ x. x ∷ []) b3)))

store_word64 : (w : ℕ) → w < 2 ^ 64 → store_word 8 (reverse64 w) ≡ be_bytes 8 w
unfolding store_word
store_word64 w h =
    let a : ℕ = w / 2 ^ 56 in
    let b : ℕ = w / 2 ^ 48 % 256 in
    let c : ℕ = w / 2 ^ 40 % 256 in
    let d : ℕ = w / 2 ^ 32 % 256 in
    let e : ℕ = w / 2 ^ 24 % 256 in
    let f : ℕ = w / 2 ^ 16 % 256 in
    let g : ℕ = w / 2 ^ 8 % 256 in
    let k : ℕ = w / 2 ^ 0 % 256 in
    let parts : w ≡ word4 a b c d * 2 ^ 32 + word4 e f g k = omega arith in
    let r : reverse64 w ≡ word4 k g f e * 2 ^ 32 + word4 d c b a =
      ap reverse64 parts
      ∙ reverse64_lem a b c d e f g k (omega arith) (omega arith) (omega arith) (omega arith)
          (omega arith) (omega arith) (omega arith) (omega arith) in
    let b0 : u8 (reverse64 w) ≡ w / 256 ^ 7 % 256 = omega (arith, r) in
    let b1 : u8 (reverse64 w >>> 8) ≡ w / 256 ^ 6 % 256 = omega (arith, r) in
    let b2 : u8 (reverse64 w >>> 8 >>> 8) ≡ w / 256 ^ 5 % 256 = omega (arith, r) in
    let b3 : u8 (reverse64 w >>> 8 >>> 8 >>> 8) ≡ w / 256 ^ 4 % 256 = omega (arith, r) in
    let b4 : u8 (reverse64 w >>> 8 >>> 8 >>> 8 >>> 8) ≡ w / 256 ^ 3 % 256 = omega (arith, r) in
    let b5 : u8 (reverse64 w >>> 8 >>> 8 >>> 8 >>> 8 >>> 8) ≡ w / 256 ^ 2 % 256 =
      omega (arith, r) in
    let b6 : u8 (reverse64 w >>> 8 >>> 8 >>> 8 >>> 8 >>> 8 >>> 8) ≡ w / 256 ^ 1 % 256 =
      omega (arith, r) in
    let b7 : u8 (reverse64 w >>> 8 >>> 8 >>> 8 >>> 8 >>> 8 >>> 8 >>> 8) ≡ w / 256 ^ 0 % 256 =
      omega (arith, r) in
    ap₂ (λ x xs. x ∷ xs) b0
      (ap₂ (λ x xs. x ∷ xs) b1
        (ap₂ (λ x xs. x ∷ xs) b2
          (ap₂ (λ x xs. x ∷ xs) b3
            (ap₂ (λ x xs. x ∷ xs) b4
              (ap₂ (λ x xs. x ∷ xs) b5 (ap₂ (λ x xs. x ∷ xs) b6 (ap (λ x. x ∷ []) b7)))))))

-- The words as bytes, the highest first.
abbrev pub be_string : ℕ → List ℕ → List ℕ
be_string n [] = []
be_string n (w ∷ ws) = be_bytes n w ++ be_string n ws

pub store_words32 :
    (ws : List ℕ) → AllBelow (2 ^ 32) ws → store_words 4 (map reverse32 ws) ≡ be_string 4 ws
unfolding store_words
store_words32 [] h = refl
store_words32 (w ∷ ws) h = ap₂ (λ a b. a ++ b) (store_word32 w h.0) (store_words32 ws h.1)

pub store_words64 :
    (ws : List ℕ) → AllBelow (2 ^ 64) ws → store_words 8 (map reverse64 ws) ≡ be_string 8 ws
unfolding store_words
store_words64 [] h = refl
store_words64 (w ∷ ws) h = ap₂ (λ a b. a ++ b) (store_word64 w h.0) (store_words64 ws h.1)

-- Words before and behind a place that is a multiple of the word.
pub load_words_append :
    (n a b : ℕ) (xs ys : List ℕ)
    → length xs ≡ a * n
    → load_words n (a + b) (xs ++ ys) ≡ load_words n a xs ++ load_words n b ys
unfolding load_words
load_words_append n zero b [] ys e = ap (λ k. load_words n k ys) {x = 0 + b} {y = b} (omega arith)
load_words_append n zero b (x ∷ xs) ys e = absurd (omega arith)
load_words_append n (suc a) b xs ys e =
    ap (λ k. load_words n k (xs ++ ys)) {x = suc a + b} {y = suc (a + b)} (omega arith)
    ∙ ap₂ (λ w ws. load_word w ∷ ws) (take-append_le n xs ys (omega arith))
        (ap (load_words n (a + b)) (drop-append_le n xs ys (omega arith))
          ∙ load_words_append n a b (drop n xs) ys (length-drop n xs ∙ omega arith))
