-- ===== src/Base58/Decode/Words.antt =====
-- The words of `b58tobin` in ios/Classes/base58.c as a number, and a round of the loop over them.
use ether_flutter_plugin.Prelude.{
  ℕ, zero, suc, ◌+◌, ◌*◌, ◌/◌, ◌%◌, ◌^◌, ◌<◌, ◌≤◌, ◌≡◌, ◌↔◌, ◌∙◌, refl, ap, List, [], ◌∷◌, length,
  bit_and, u64, ◌>>>◌, arith,
}
use ether_flutter_plugin.Prelude.Bits.{bit_and_mask, bit_and-zero}
use ether_flutter_plugin.Prelude.Masks.{bit_and_high}
use ether_flutter_plugin.Prelude.Bytes.{AllBelow}
use ether_flutter_plugin.Base58.Decode.{scale_words, first_word, zeromask}

-- The list begins with the last word.
abbrev pub words_value : List ℕ → ℕ
words_value [] = 0
words_value (w ∷ ws) = w + 2 ^ 32 * words_value ws

abbrev pub words_room : List ℕ → ℕ
words_room [] = 1
words_room (w ∷ ws) = 2 ^ 32 * words_room ws

-- What the words may hold if the first one stays below `top`.
abbrev pub limit : ℕ → List ℕ → ℕ
limit top [] = 1
limit top (w ∷ []) = top
limit top (w ∷ v ∷ ws) = 2 ^ 32 * limit top (v ∷ ws)

pub limit-le-words_room : (top : ℕ) (ws : List ℕ) → top ≤ 2 ^ 32 → limit top ws ≤ words_room ws
limit-le-words_room top [] h = omega arith
limit-le-words_room top (w ∷ []) h = omega arith
limit-le-words_room top (w ∷ v ∷ ws) h = omega (arith, limit-le-words_room top (v ∷ ws) h)

pub limit-length : (top : ℕ) (xs ys : List ℕ) → length xs ≡ length ys → limit top xs ≡ limit top ys
limit-length top [] [] e = refl
limit-length top [] (y ∷ ys) e = absurd (omega arith)
limit-length top (x ∷ xs) [] e = absurd (omega arith)
limit-length top (x ∷ []) (y ∷ []) e = refl
limit-length top (x ∷ []) (y ∷ y' ∷ ys) e = absurd (omega arith)
limit-length top (x ∷ x' ∷ xs) (y ∷ []) e = absurd (omega arith)
limit-length top (x ∷ x' ∷ xs) (y ∷ y' ∷ ys) e =
    ap (λ (n : ℕ). 2 ^ 32 * n) (limit-length top (x' ∷ xs) (y' ∷ ys) (omega arith))

pub limit_iff :
    (top : ℕ) (ws : List ℕ)
    → 0 < top
    → AllBelow (2 ^ 32) ws
    → (first_word ws < top) ↔ (words_value ws < limit top ws)
unfolding first_word
limit_iff top [] pos h = (λ _. omega arith, λ _. omega arith)
limit_iff top (w ∷ []) pos h = (λ e. omega arith, λ e. omega arith)
limit_iff top (w ∷ v ∷ ws) pos h =
    let rest = limit_iff top (v ∷ ws) pos h.1 in
    (λ e. omega (arith, rest.0 e, h.0), λ e. rest.1 (omega (arith, h.0)))

-- A round keeps the number of words, multiplies by 58 and adds; the carry goes out at the top.
pub record Scaled (c : ℕ) (ws : List ℕ) : Type 0 where
  pub exact :
      words_value (scale_words c ws).0 + (scale_words c ws).1 * words_room ws
      ≡ 58 * words_value ws + c
  pub words : AllBelow (2 ^ 32) (scale_words c ws).0
  pub same_length : length (scale_words c ws).0 ≡ length ws
  pub same_limit : (top : ℕ) → limit top (scale_words c ws).0 ≡ limit top ws

pub scale_words-Scaled : (c : ℕ) (ws : List ℕ) → c < 58 → AllBelow (2 ^ 32) ws → Scaled c ws
unfolding scale_words
scale_words-Scaled c [] h hw = record {
  exact = omega arith;
  words = tt;
  same_length = refl;
  same_limit = λ top. refl;
}
scale_words-Scaled c (w ∷ ws) h hw =
    let t : ℕ = u64 (w * 58 + c) in
    let exact : t ≡ w * 58 + c = omega (arith, hw.0) in
    let carry : bit_and t 0x3f00000000 >>> 32 ≡ t / 2 ^ 32 =
      ap (λ (n : ℕ). n / 2 ^ 32) (bit_and_high 32 6 t) ∙ omega (arith, exact, hw.0) in
    let low : bit_and t 0xffffffff ≡ t % 2 ^ 32 = bit_and_mask 32 t in
    let rest =
      scale_words-Scaled (bit_and t 0x3f00000000 >>> 32) ws (omega (arith, carry, exact, hw.0))
        hw.1 in
    record {
      exact = omega (arith, rest.exact, carry, low, exact);
      words = (omega (arith, low), rest.words);
      same_length = ap suc rest.same_length;
      same_limit =
          λ top. limit-length top (scale_words c (w ∷ ws)).0 (w ∷ ws) (ap suc rest.same_length);
    }

-- The bound of the first word that `zeromask` stands for.
abbrev pub top_of : ℕ → ℕ
top_of zero = 2 ^ 32
top_of (suc bytesleft) = 256 ^ suc bytesleft

pub zeromask_iff :
    (bytesleft w : ℕ)
    → bytesleft < 4
    → w < 2 ^ 32
    → (bit_and w (zeromask bytesleft) ≡ 0) ↔ (w < top_of bytesleft)
unfolding zeromask
zeromask_iff zero w h hw = (λ _. hw, λ _. bit_and-zero w)
zeromask_iff (suc zero) w h hw =
    let e = bit_and_high 8 24 w in (λ z. omega (arith, e, z), λ z. omega (arith, e, z))
zeromask_iff (suc (suc zero)) w h hw =
    let e = bit_and_high 16 16 w in (λ z. omega (arith, e, z), λ z. omega (arith, e, z))
zeromask_iff (suc (suc (suc zero))) w h hw =
    let e = bit_and_high 24 8 w in (λ z. omega (arith, e, z), λ z. omega (arith, e, z))
zeromask_iff (suc (suc (suc (suc n)))) w h hw = absurd (omega arith)
