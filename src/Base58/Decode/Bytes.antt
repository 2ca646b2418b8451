-- ===== src/Base58/Decode/Bytes.antt =====
-- The bytes that `b58tobin` of ios/Classes/base58.c writes for its words.
use ether_flutter_plugin.Prelude.{
  ℕ, zero, suc, ◌+◌, ◌*◌, ◌^◌, ◌<◌, ◌≡◌, ◌∙◌, refl, sym, ap, subst, List, [], ◌∷◌, ◌++◌, length,
  length-append, append_assoc, ◌>>>◌, ◌==◌, if◌then◌else◌, false, arith,
}
use mathlib.Core.List.{reverse, reverse-cons}
use ether_flutter_plugin.Prelude.Bits.{bit_and_mask}
use ether_flutter_plugin.Prelude.Masks.{bit_and_high}
use ether_flutter_plugin.Prelude.Bytes.{IsBytes, be_value, AllBelow}
use ether_flutter_plugin.Base58.Decode.{first_word, first_bytes, word_bytes, out_bytes}
use ether_flutter_plugin.Base58.Decode.Words.{words_value, top_of}

-- The words as they stand in the array.
abbrev pub array_value : ℕ → List ℕ → ℕ
array_value acc [] = acc
array_value acc (w ∷ ws) = array_value (2 ^ 32 * acc + w) ws

array_value-append :
    (acc : ℕ) (xs ys : List ℕ) → array_value acc (xs ++ ys) ≡ array_value (array_value acc xs) ys
array_value-append acc [] ys = refl
array_value-append acc (x ∷ xs) ys = array_value-append (2 ^ 32 * acc + x) xs ys

pub array_value-reverse : (ws : List ℕ) → array_value 0 (reverse ws) ≡ words_value ws
array_value-reverse [] = refl
array_value-reverse (w ∷ ws) =
    ap (array_value 0) (reverse-cons w ws)
    ∙ array_value-append 0 (reverse ws) (w ∷ [])
    ∙ omega (arith, array_value-reverse ws)

-- What the array holds is what its list holds.
AllBelow-append :
    (xs ys : List ℕ) → AllBelow (2 ^ 32) xs → AllBelow (2 ^ 32) ys → AllBelow (2 ^ 32) (xs ++ ys)
AllBelow-append [] ys h k = k
AllBelow-append (x ∷ xs) ys h k = (h.0, AllBelow-append xs ys h.1 k)

pub AllBelow-reverse : (ws : List ℕ) → AllBelow (2 ^ 32) ws → AllBelow (2 ^ 32) (reverse ws)
AllBelow-reverse [] h = tt
AllBelow-reverse (w ∷ ws) h =
    subst (AllBelow (2 ^ 32)) (sym (reverse-cons w ws))
      (AllBelow-append (reverse ws) (w ∷ []) (AllBelow-reverse ws h.1) (h.0, tt))

pub length-reverse : (ws : List ℕ) → length (reverse ws) ≡ length ws
length-reverse [] = refl
length-reverse (w ∷ ws) =
    ap length (reverse-cons w ws)
    ∙ length-append (reverse ws) (w ∷ [])
    ∙ omega (arith, length-reverse ws)

abbrev pub head_word : List ℕ → ℕ
head_word [] = 0
head_word (w ∷ ws) = w

head_word-append :
    (ws ys : List ℕ) (x : ℕ) → head_word (reverse ws ++ (x ∷ ys)) ≡ first_word (x ∷ ws)
unfolding first_word
head_word-append [] ys x = refl
head_word-append (w ∷ ws) ys x =
    ap (λ t. head_word (t ++ (x ∷ ys))) (reverse-cons w ws)
    ∙ ap head_word (append_assoc (reverse ws) (w ∷ []) (x ∷ ys))
    ∙ head_word-append ws (x ∷ ys) w

pub head_word-reverse : (ws : List ℕ) → head_word (reverse ws) ≡ first_word ws
unfolding first_word
head_word-reverse [] = refl
head_word-reverse (w ∷ ws) = ap head_word (reverse-cons w ws) ∙ head_word-append ws [] w

-- The bytes of one word.
pub word_bytes-value :
    (acc : ℕ) (ws : List ℕ)
    → AllBelow (2 ^ 32) ws
    → (be_value acc (word_bytes ws) ≡ array_value acc ws)
      × IsBytes (word_bytes ws)
      × (length (word_bytes ws) ≡ 4 * length ws)
unfolding word_bytes
word_bytes-value acc [] h = (refl, tt, omega arith)
word_bytes-value acc (w ∷ ws) h =
    let a = bit_and_mask 8 (w >>> 0x18) in
    let b = bit_and_mask 8 (w >>> 0x10) in
    let c = bit_and_mask 8 (w >>> 8) in
    let d = bit_and_mask 8 (w >>> 0) in
    let rest = word_bytes-value (2 ^ 32 * acc + w) ws h.1 in
    (
      ap (λ (n : ℕ). be_value n (word_bytes ws)) (omega (arith, a, b, c, d, h.0)) ∙ rest.0,
      (omega (arith, a), (omega (arith, b), (omega (arith, c), (omega (arith, d), rest.1)))),
      omega (arith, rest.2),
    )

-- The bytes of the first word, if there are fewer than four of them.
first_bytes-value :
    (bytesleft w : ℕ) (rest : List ℕ)
    → 0 < bytesleft
    → bytesleft < 4
    → w < 256 ^ bytesleft
    → IsBytes rest
    → (be_value 0 (first_bytes bytesleft w ++ rest) ≡ be_value w rest)
      × IsBytes (first_bytes bytesleft w ++ rest)
      × (length (first_bytes bytesleft w ++ rest) ≡ bytesleft + length rest)
unfolding first_bytes
first_bytes-value zero w rest pos few h hr = absurd (omega arith)
first_bytes-value (suc zero) w rest pos few h hr =
    let a = bit_and_mask 8 w in
    (ap (λ (n : ℕ). be_value n rest) (omega (arith, a)), (omega (arith, a), hr), omega arith)
first_bytes-value (suc (suc zero)) w rest pos few h hr =
    let a = bit_and_mask 8 w in
    let b = bit_and_high 8 8 w in
    (
      ap (λ (n : ℕ). be_value n rest) (omega (arith, a, b)),
      (omega (arith, b), (omega (arith, a), hr)),
      omega arith,
    )
first_bytes-value (suc (suc (suc zero))) w rest pos few h hr =
    let a = bit_and_mask 8 w in
    let b = bit_and_high 8 8 w in
    let c = bit_and_high 16 8 w in
    (
      ap (λ (n : ℕ). be_value n rest) (omega (arith, a, b, c)),
      (omega (arith, c), (omega (arith, b), (omega (arith, a), hr))),
      omega arith,
    )
first_bytes-value (suc (suc (suc (suc n)))) w rest pos few h hr = absurd (omega arith)

-- How many bytes the array gives.
abbrev pub bytes_of : ℕ → ℕ → ℕ
bytes_of zero words = 4 * words
bytes_of (suc bytesleft) zero = 0
bytes_of (suc bytesleft) (suc words) = suc bytesleft + 4 * words

out_bytes-first :
    (bytesleft w : ℕ) (ws : List ℕ)
    → out_bytes (suc bytesleft) (w ∷ ws) ≡ first_bytes (suc bytesleft) w ++ word_bytes ws
unfolding out_bytes
out_bytes-first bytesleft w ws =
    ap (λ b. if b then word_bytes (w ∷ ws) else first_bytes (suc bytesleft) w ++ word_bytes ws)
      (some_left bytesleft)
  where
    some_left : (n : ℕ) → (suc n == 0) ≡ false
    some_left n = ground arith

pub out_bytes-value :
    (bytesleft : ℕ) (ws : List ℕ)
    → bytesleft < 4
    → AllBelow (2 ^ 32) ws
    → head_word ws < top_of bytesleft
    → (be_value 0 (out_bytes bytesleft ws) ≡ array_value 0 ws)
      × IsBytes (out_bytes bytesleft ws)
      × (length (out_bytes bytesleft ws) ≡ bytes_of bytesleft (length ws))
unfolding out_bytes
out_bytes-value zero [] few h top = (refl, tt, omega arith)
out_bytes-value (suc bytesleft) [] few h top = (refl, tt, refl)
out_bytes-value zero (w ∷ ws) few h top = word_bytes-value 0 (w ∷ ws) h
out_bytes-value (suc bytesleft) (w ∷ ws) few h top =
    let rest = word_bytes-value w ws h.1 in
    let first = first_bytes-value (suc bytesleft) w (word_bytes ws) (omega arith) few top rest.1 in
    let out = out_bytes-first bytesleft w ws in
    (
      ap (be_value 0) out ∙ first.0 ∙ rest.0 ∙ ap (λ (n : ℕ). array_value n ws) (omega arith),
      subst IsBytes (sym out) first.1,
      ap length out ∙ omega (arith, first.2, rest.2),
    )
