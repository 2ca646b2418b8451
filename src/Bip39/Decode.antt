-- ===== src/Bip39/Decode.antt =====
-- `data_from_mnemonic` and `mnemonic_check` of ios/Classes/bip39.c, of a sentence that is not a null
-- pointer.
use ether_flutter_plugin.Prelude.{
  ℕ, zero, suc, ◌+◌, ◌-◌, ◌*◌, ◌/◌, ◌%◌, ◌^◌, Bool, true, false, ◌&&◌, not, List, [], ◌∷◌, Option,
  none, some, bit_and, bit_or, ltb, leb, ◌==◌, to_int, if◌then◌else◌, get_or, set, length, take,
  replicate,
}
use ether_flutter_plugin.Bip39.Wordlist.{wordlist}

-- The spaces of the sentence.
unfoldable pub count_spaces : List ℕ → ℕ
count_spaces [] = 0
count_spaces (c ∷ cs) = to_int (c == b' ') + count_spaces cs

-- The loop that copies a word to `current_word`, a `char[10]`: `none` is the return on a tenth
-- character. The rest begins behind the space.
unfoldable pub read_word : ℕ → List ℕ → Option (List ℕ × List ℕ)
read_word j [] = some ([], [])
read_word j (c ∷ cs) = elim (c == b' ') [
  | true ↦ some ([], cs)
  | false ↦ elim (leb 9 j) [
    | true ↦ none
    | false ↦ elim (read_word (j + 1) cs) [ none ↦ none | some (w, rest) ↦ some (c ∷ w, rest) ]
  ]
]

unfoldable pub same_word : List ℕ → List ℕ → Bool
same_word [] [] = true
same_word [] (y ∷ ys) = false
same_word (x ∷ xs) [] = false
same_word (x ∷ xs) (y ∷ ys) = x == y && same_word xs ys

-- The search for the word from index k on; `none` is the end of the list.
unfoldable pub find_word : List ℕ → List (List ℕ) → ℕ → Option ℕ
unfolding same_word
find_word w [] k = none
find_word w (v ∷ vs) k =
    let later = find_word w vs (k + 1) in if same_word w v then some k else later

-- The loop over ki: the `left` low bits of k, the highest first, go to the bits from `bi` on.
unfoldable pub put_bits : ℕ → ℕ → ℕ → List ℕ → List ℕ
put_bits k zero bi out = out
put_bits k (suc left) bi out = put_bits k left (bi + 1) (
    if bit_and k (2 ^ left) == 0
    then out
    else set out (bi / 8) (bit_or (get_or out (bi / 8) 0) (2 ^ (7 - bi % 8))))

-- The loop over the words: the data and the count of its bits. Every round takes a character at
-- least, so the length of the sentence is enough fuel; `none` is a return of 0.
unfoldable pub parse_words : ℕ → List ℕ → ℕ → List ℕ → Option (List ℕ × ℕ)
unfolding read_word find_word put_bits wordlist
parse_words fuel [] bi out = some (out, bi)
parse_words zero (c ∷ cs) bi out = none
parse_words (suc fuel) (c ∷ cs) bi out = elim (read_word 0 (c ∷ cs)) [
  | none ↦ none
  | some (w, rest) ↦ elim (find_word w wordlist 0) [
    | none ↦ none
    | some k ↦ parse_words fuel rest (bi + 11) (put_bits k 11 bi out)
  ]
]

-- The mask of the n / 3 checksum bits: `mask |= (0x80 >> i)`, for i from `left` rounds before the end.
unfoldable pub checksum_mask : ℕ → ℕ
checksum_mask zero = 0
checksum_mask (suc i) = bit_or (checksum_mask i) (0x80 / 2 ^ i)

module _ (sha256_raw : List ℕ → List ℕ) where
  -- The end of the function: the number of bits and the checksum. The result is the length of the
  -- data, or 0, with the array `data`.
  unfoldable pub check_data : ℕ → List ℕ → ℕ → ℕ × List ℕ
  unfolding checksum_mask
  check_data n out bi =
      let len = n * 4 / 3 in
      let mask = checksum_mask (n / 3) in
      if not (bi == n * 11)
      then (0, out)
      else if bit_and (get_or (sha256_raw (take len out)) 0 0) mask
          == bit_and (get_or out len 0) mask
      then (len, out)
      else (0, out)

  -- `data` has MAXIMUM_BIP39_DATA_LENGTH = 65 bytes. What it holds after a return inside the loop
  -- over the words is not modelled: the result there is `none`.
  unfoldable pub data_from_mnemonic : List ℕ → Option (ℕ × List ℕ)
  unfolding count_spaces parse_words check_data
  data_from_mnemonic mnemonic =
      let n = count_spaces mnemonic + 1 in
      if not (n == 12) && (not (n == 18) && not (n == 24))
      then none
      else elim (parse_words (length mnemonic) mnemonic 0 (replicate 65 0)) [
        | none ↦ none
        | some (out, bi) ↦ some (check_data n out bi)
      ]

  -- `mnemonic_check`: the length returned is above 0.
  unfoldable pub mnemonic_check : List ℕ → Bool
  unfolding data_from_mnemonic
  mnemonic_check mnemonic = elim (data_from_mnemonic mnemonic) [
    | none ↦ false
    | some (len, out) ↦ ltb 0 len
  ]
