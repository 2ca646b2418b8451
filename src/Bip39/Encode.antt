-- ===== src/Bip39/Encode.antt =====
-- `mnemonic_from_data` and `mnemonic_from_data_indexes` of ios/Classes/bip39.c. The hash is that of
-- sha2.c; it is a parameter, so that what is proved does not look into it.
use ether_flutter_plugin.Prelude.{
  ℕ, zero, suc, ◌+◌, ◌-◌, ◌*◌, ◌/◌, ◌%◌, ◌^◌, Bool, ◌||◌, not, List, [], ◌∷◌, ◌++◌, Option, none,
  some, map, bit_and, ltb, ◌==◌, to_int, if◌then◌else◌, get_or, set, length, take,
}
use ether_flutter_plugin.Sha2.Memory.{overlay}
use ether_flutter_plugin.Bip39.Wordlist.{wordlist}

-- `(bits[p / 8] & (1 << (7 - p % 8))) > 0`, as 0 or 1.
unfoldable pub bit_at : List ℕ → ℕ → ℕ
bit_at bits p = to_int (ltb 0 (bit_and (get_or bits (p / 8) 0) (2 ^ (7 - p % 8))))

-- The loop over j: `left` bits are still to be read, from position p on.
unfoldable pub index_loop : List ℕ → ℕ → ℕ → ℕ → ℕ
unfolding bit_at
index_loop bits zero p idx = idx
index_loop bits (suc left) p idx = index_loop bits left (p + 1) (idx * 2 + bit_at bits p)

-- The indexes of the words i, i + 1, ...
unfoldable pub index_list : List ℕ → ℕ → ℕ → List ℕ
index_list bits zero i = []
index_list bits (suc left) i = index_loop bits 11 (i * 11) 0 ∷ index_list bits left (i + 1)

-- `strcpy` of each word, a space after each but the last.
unfoldable pub write_mnemonic : List (List ℕ) → List ℕ
write_mnemonic [] = []
write_mnemonic (w ∷ []) = w
write_mnemonic (w ∷ v ∷ ws) = w ++ (b' ' ∷ write_mnemonic (v ∷ ws))

unfoldable pub bad_length : ℕ → Bool
bad_length len = not (len % 4 == 0) || (ltb len 16 || ltb 32 len)

module _ (sha256_raw : List ℕ → List ℕ) where
  -- The array `bits`: the data, and behind it the first byte of its hash. The 33rd byte of the
  -- array is not set before it is read.
  unfoldable pub checked_bits : List ℕ → List ℕ
  unfolding overlay
  checked_bits input =
      let hash = sha256_raw input in
      overlay (set (hash ++ (0 ∷ [])) (length input) (get_or hash 0 0)) 0 input

  -- `mlen` words. `none` is the null pointer.
  unfoldable pub mnemonic_from_data_indexes : List ℕ → Option (List ℕ)
  unfolding bad_length index_list checked_bits
  mnemonic_from_data_indexes input =
      if bad_length (length input)
      then none
      else some (index_list (checked_bits input) (length input * 3 / 4) 0)

  unfoldable pub mnemonic_from_data : List ℕ → Option (List ℕ)
  unfolding bad_length index_list checked_bits write_mnemonic wordlist
  mnemonic_from_data input =
      if bad_length (length input)
      then none
      else some (
          write_mnemonic (
            map (λ idx. get_or wordlist idx [])
              (index_list (checked_bits input) (length input * 3 / 4) 0)))

-- The guard of `mnemonic_generate` and `mnemonic_generate_indexes`: the strength is a number of bits.
unfoldable pub bad_strength : ℕ → Bool
bad_strength strength = not (strength % 32 == 0) || (ltb strength 128 || ltb 256 strength)

-- `random` stands for the 32 bytes that `random_buffer` delivers.
module _ (sha256_raw : List ℕ → List ℕ) (random : List ℕ) where
  unfoldable pub mnemonic_generate : ℕ → Option (List ℕ)
  unfolding bad_strength mnemonic_from_data
  mnemonic_generate strength =
      if bad_strength strength
      then none
      else mnemonic_from_data sha256_raw (take (strength / 8) random)

  unfoldable pub mnemonic_generate_indexes : ℕ → Option (List ℕ)
  unfolding bad_strength mnemonic_from_data_indexes
  mnemonic_generate_indexes strength =
      if bad_strength strength
      then none
      else mnemonic_from_data_indexes sha256_raw (take (strength / 8) random)
