-- ===== src/Base58/Decode.antt =====
-- `b58tobin` of ios/Classes/base58.c. `outi` is the list of its words from the last one down.
use ether_flutter_plugin.Prelude.{
  ℕ, zero, suc, ◌+◌, ◌-◌, ◌*◌, ◌/◌, ◌%◌, ◌^◌, List, [], ◌∷◌, ◌++◌, Option, none, some, true, false,
  Bool, ◌==◌, not, ◌||◌, ◌&&◌, if◌then◌else◌, length, replicate, bit_and, u8, u32, u64, ◌<<<◌,
  ◌>>>◌,
}
use mathlib.Core.List.{reverse}
use mathlib.Core.Option
use ether_flutter_plugin.Base58.Digits.{digit_of, count_front, skip_front}
pub mod Words
pub mod Rounds
pub mod Loop
pub mod Bytes
pub mod Spec

-- The loop over j: the words times 58 and the carry, and the carry out of the first word.
unfoldable pub scale_words : ℕ → List ℕ → List ℕ × ℕ
scale_words c [] = ([], c)
scale_words c (w ∷ ws) =
    let t = u64 (w * 58 + c) in
    let rest = scale_words (bit_and t 0x3f00000000 >>> 32) ws in
    (bit_and t 0xffffffff ∷ rest.0, rest.1)

-- `outi[0]`.
unfoldable pub first_word : List ℕ → ℕ
first_word [] = 0
first_word (w ∷ []) = w
first_word (w ∷ v ∷ ws) = first_word (v ∷ ws)

unfoldable pub zeromask : ℕ → ℕ
zeromask bytesleft = if bytesleft == 0 then 0 else u32 (0xffffffff <<< (bytesleft * 8))

-- The loop over the characters; `none` is `return false`.
unfoldable pub decode_digits : ℕ → List ℕ → List ℕ → Option (List ℕ)
unfolding scale_words first_word
decode_digits mask [] ws = some ws
decode_digits mask (ch ∷ str) ws = elim (digit_of ch) [
  | none ↦ none
  | some c ↦
      let out = scale_words c ws in
      let rest = decode_digits mask str out.0 in
      if not (out.1 == 0) || not (bit_and (first_word out.0) mask == 0) then none else rest
]

-- The switch: the low bytes of the first word.
unfoldable pub first_bytes : ℕ → ℕ → List ℕ
first_bytes bytesleft w =
    (if bytesleft == 3 then bit_and w 0xff0000 >>> 16 ∷ [] else [])
    ++ ((if bytesleft == 3 || bytesleft == 2 then bit_and w 0xff00 >>> 8 ∷ [] else [])
        ++ (bit_and w 0xff ∷ []))

-- The last loop over the words.
unfoldable pub word_bytes : List ℕ → List ℕ
word_bytes [] = []
word_bytes (w ∷ ws) =
    bit_and (w >>> 0x18) 0xff
    ∷ bit_and (w >>> 0x10) 0xff
    ∷ bit_and (w >>> 8) 0xff
    ∷ bit_and (w >>> 0) 0xff
    ∷ word_bytes ws

unfoldable pub out_bytes : ℕ → List ℕ → List ℕ
unfolding first_bytes word_bytes
out_bytes bytesleft [] = []
out_bytes bytesleft (w ∷ ws) =
    if bytesleft == 0 then word_bytes (w ∷ ws) else first_bytes bytesleft w ++ word_bytes ws

-- The bytes that are written and the new `*binszp`; `none` is `return false`. `zerocount` is an
-- unsigned int of 32 bits, the sizes are a size_t of 64 bits.
unfoldable pub b58tobin : ℕ → List ℕ → Option (List ℕ × ℕ)
unfolding decode_digits zeromask out_bytes count_front skip_front
b58tobin binsz b58 =
    let bytesleft = binsz % 4 in
    let zerocount = u32 (count_front b'1' b58) in
    Option.map
      (λ ws.
        let bin = out_bytes bytesleft (reverse ws) in
        (bin, u64 (binsz - count_front 0 bin + zerocount)))
      (decode_digits (zeromask bytesleft) (skip_front b'1' b58) (replicate (u64 (binsz + 3) / 4) 0))
