-- ===== src/Bip39/RoundTrip.antt =====
-- `data_from_mnemonic` of ios/Classes/bip39.c gives back the data of `mnemonic_from_data`.
use ether_flutter_plugin.Prelude.{
  ℕ, zero, suc, ◌+◌, ◌-◌, ◌*◌, ◌/◌, ◌%◌, ◌^◌, ◌<◌, ◌≤◌, ◌≡◌, ◌∙◌, refl, sym, ap, subst, Bool, true,
  false, not, ◌&&◌, List, [], ◌∷◌, ◌++◌, some, bit_and, ◌==◌, ==_iff, get_or, length, take,
  replicate, arith, take_ext,
}
use ether_flutter_plugin.Bip39.Encode.{checked_bits}
use ether_flutter_plugin.Bip39.Decode.{
  count_spaces, parse_words, checksum_mask, check_data, data_from_mnemonic,
}
use ether_flutter_plugin.Bip39.Bits.{HoldsPrefix, index_loop-lt, start-HoldsPrefix}
use ether_flutter_plugin.Bip39.Words.{no_spaces, wordlist-plain}
use ether_flutter_plugin.Bip39.Sentence.{
  sentence, word_at, more_words, one_word, index_at, plain_parts, parse_words-sentence,
}
use ether_flutter_plugin.Bip39.Checksum.{
  same_bit, same_byte, same_masked, get_or-checked_bits, get_or-checked_bits_end,
}

count_spaces-append : (xs ys : List ℕ) → count_spaces (xs ++ ys) ≡ count_spaces xs + count_spaces ys
unfolding count_spaces
count_spaces-append [] ys = omega arith
count_spaces-append (x ∷ xs) ys = omega (arith, count_spaces-append xs ys)

count_spaces-no_spaces : (xs : List ℕ) → no_spaces xs ≡ true → count_spaces xs ≡ 0
unfolding count_spaces
count_spaces-no_spaces [] h = refl
count_spaces-no_spaces (x ∷ xs) h = ground (arith, count_spaces-no_spaces xs)

count_spaces-word : (bits : List ℕ) (i : ℕ) → count_spaces (word_at (index_at bits i)) ≡ 0
count_spaces-word bits i =
    let parts =
      plain_parts (word_at (index_at bits i))
        (wordlist-plain (index_at bits i) (index_loop-lt bits (i * 11))) in
    count_spaces-no_spaces (word_at (index_at bits i)) parts.2

space_first : (xs : List ℕ) → count_spaces (b' ' ∷ xs) ≡ 1 + count_spaces xs
unfolding count_spaces
space_first xs = refl

-- The sentence of n words taken from a bit string holds n - 1 spaces, for n above 0.
pub count_spaces-sentence :
    (bits : List ℕ) (left i : ℕ) → count_spaces (sentence bits (suc left) i) ≡ left
count_spaces-sentence bits zero i = ap count_spaces (one_word bits i) ∙ count_spaces-word bits i
count_spaces-sentence bits (suc left) i =
    let w : List ℕ = word_at (index_at bits i) in
    let later : List ℕ = sentence bits (suc left) (i + 1) in
    let space : count_spaces (b' ' ∷ later) ≡ 1 + count_spaces later = space_first later in
    ap count_spaces (more_words bits left i)
    ∙ count_spaces-append w (b' ' ∷ later)
    ∙ omega (arith, count_spaces-word bits i, count_spaces-sentence bits left (i + 1), space)

-- The first test of the parser: twelve, eighteen and twenty-four words pass it.
abbrev pub rejected : ℕ → Bool
rejected n = not (n == 12) && (not (n == 18) && not (n == 24))

data_from-parse_words :
    (sha256_raw : List ℕ → List ℕ) (m : List ℕ) (n bi : ℕ) (out : List ℕ)
    → count_spaces m + 1 ≡ n
    → rejected n ≡ false
    → parse_words (length m) m 0 (replicate 65 0) ≡ some (out, bi)
    → data_from_mnemonic sha256_raw m ≡ some (check_data sha256_raw n out bi)
unfolding data_from_mnemonic
data_from-parse_words sha256_raw m n bi out words test e =
    let test' : rejected (count_spaces m + 1) ≡ false = ap rejected words ∙ test in
    rw (test', data_from_mnemonic)
      (rw (e, data_from_mnemonic) (ap (λ c. some (check_data sha256_raw c out bi)) words))

module _ (sha256_raw : List ℕ → List ℕ) (input : List ℕ) (k : ℕ) where
  abbrev bits : List ℕ
  bits = checked_bits sha256_raw input

  -- The first bytes are the data.
  restored :
      (out : List ℕ)
      → length input ≡ 4 * k
      → k ≤ 8
      → ((t : ℕ) → get_or input t 0 < 256)
      → HoldsPrefix bits (33 * k) out
      → take (length input) out ≡ input
  restored out len small bytes holds =
      take_ext input out 0 (omega (arith, holds.length-out)) (λ t ht.
        same_byte out bits t (holds.byte_out t)
          (omega (arith, get_or-checked_bits sha256_raw input t ht, bytes t))
          (λ s hs. holds.before (8 * t + s) (omega arith))
        ∙ get_or-checked_bits sha256_raw input t ht)

  -- The k bits behind the data are those of the hash.
  same_checksum :
      (out : List ℕ)
      → length input ≡ 4 * k
      → length input ≤ length (sha256_raw input)
      → get_or (sha256_raw input) 0 0 < 256
      → k ≤ 8
      → ((s : ℕ) → k ≤ s → s < 8 → checksum_mask k / 2 ^ (7 - s) % 2 ≡ 0)
      → HoldsPrefix bits (33 * k) out
      → bit_and (get_or (sha256_raw input) 0 0) (checksum_mask k)
        ≡ bit_and (get_or out (length input) 0) (checksum_mask k)
  same_checksum out len long byte small off holds =
      let end = get_or-checked_bits_end sha256_raw input long in
      same_masked (get_or (sha256_raw input) 0 0) (get_or out (length input) 0) (checksum_mask k) k
        byte (holds.byte_out (length input))
        (λ s hs.
          ap (λ (n : ℕ). n / 2 ^ (7 - s) % 2) (sym end)
          ∙ sym (
              same_bit out bits (length input) s (omega arith)
                (holds.before (8 * length input + s) (omega arith))))
        off

  -- The last tests of the parser succeed.
  check_data_lem :
      (n bi : ℕ) (out : List ℕ)
      → bi ≡ n * 11
      → n * 4 / 3 ≡ length input
      → n / 3 ≡ k
      → take (length input) out ≡ input
      → bit_and (get_or (sha256_raw input) 0 0) (checksum_mask k)
        ≡ bit_and (get_or out (length input) 0) (checksum_mask k)
      → check_data sha256_raw n out bi ≡ (length input, out)
  unfolding check_data
  check_data_lem n bi out whole len third same sum =
      let all : (bi == n * 11) ≡ true = ground arith in
      let test : (bit_and (get_or (sha256_raw input) 0 0) (checksum_mask k)
            == bit_and (get_or out (length input) 0) (checksum_mask k))
          ≡ true =
        (==_iff _ _).1 sum in
      rw (all, check_data)
        (rw (len, check_data)
          (rw (third, check_data) (rw (same, check_data) (rw (test, check_data) refl))))

  abbrev pub Restores : List ℕ → Type 0
  Restores mnemonic =
      (out : List ℕ) × (data_from_mnemonic sha256_raw mnemonic ≡ some (length input, out))
      × (take (length input) out ≡ input)

  pub restores :
      length input ≡ 4 * k
      → length input ≤ length (sha256_raw input)
      → get_or (sha256_raw input) 0 0 < 256
      → ((t : ℕ) → get_or input t 0 < 256)
      → 1 ≤ k
      → k ≤ 8
      → rejected (3 * k) ≡ false
      → ((s : ℕ) → k ≤ s → s < 8 → checksum_mask k / 2 ^ (7 - s) % 2 ≡ 0)
      → Restores (sentence bits (3 * k) 0)
  restores len long byte bytes positive small count off =
      let (out, e, holds) =
        parse_words-sentence bits (3 * k) 0 (length (sentence bits (3 * k) 0)) (replicate 65 0)
          (start-HoldsPrefix bits) (omega arith) (omega arith) in
      let holds' : HoldsPrefix bits (33 * k) out =
        subst (λ n. HoldsPrefix bits n out) (omega arith) holds in
      let words : count_spaces (sentence bits (3 * k) 0) + 1 ≡ 3 * k =
        ap (λ (n : ℕ). count_spaces (sentence bits n 0) + 1) {x = 3 * k} {y = suc (3 * k - 1)}
          (omega arith)
        ∙ omega (arith, count_spaces-sentence bits (3 * k - 1) 0) in
      let same = restored out len small bytes holds' in
      let sum = same_checksum out len long byte small off holds' in
      (
        out,
        data_from-parse_words sha256_raw (sentence bits (3 * k) 0) (3 * k) (0 * 11 + 3 * k * 11) out
              words count e
            ∙ ap some (
                check_data_lem (3 * k) (0 * 11 + 3 * k * 11) out (omega arith) (omega arith)
                  (omega arith) same sum),
        same,
      )
