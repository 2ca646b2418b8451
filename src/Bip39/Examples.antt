-- ===== src/Bip39/Examples.antt =====
-- The theorems on ios/Classes/bip39.c at concrete data.
use ether_flutter_plugin.Prelude.{
  ℕ, zero, suc, ◌+◌, ◌*◌, ◌<◌, ◌≡◌, refl, inl, true, false, List, [], ◌∷◌, none, some, get_or,
  length, take, replicate, arith,
}
use ether_flutter_plugin.Sha2.Sha256.{sha256_raw}
use ether_flutter_plugin.Bip39.Encode.{mnemonic_from_data}
use ether_flutter_plugin.Bip39.Decode.{data_from_mnemonic, mnemonic_check}
use ether_flutter_plugin.Bip39.Bits.{start-HoldsPrefix}
use ether_flutter_plugin.Bip39.Sentence.{sentence, Parses, parse_words-sentence}
use ether_flutter_plugin.Sha2.Rounds.{sha512_transform}
use ether_flutter_plugin.Pbkdf2.{Pbkdf2Context, pbkdf2_update}
use ether_flutter_plugin.Pbkdf2.Slices.{pbkdf2_update_add}
use ether_flutter_plugin.Bip39.Seed.{SeedCache, empty_cache, mnemonic_to_seed}
use ether_flutter_plugin.Bip39.Seed.Cache.{
  empty-RightEntries, mnemonic_to_seed-pbkdf2_seed, run_calls, pbkdf2_seeds, run_calls-pbkdf2_seeds,
  mnemonic_to_seed-overrun,
}
use ether_flutter_plugin.Bip39.Seed.Entries.{pbkdf2_seed, RightEntries}
use ether_flutter_plugin.Bip39.Recover.{
  data_from_mnemonic-mnemonic_from_data, mnemonic_check-mnemonic_from_data,
}

bytes_replicate : (n t : ℕ) → get_or (replicate n 0x5a) t 0 < 256
bytes_replicate zero t = omega arith
bytes_replicate (suc n) zero = omega arith
bytes_replicate (suc n) (suc t) = bytes_replicate n t

parse_words-sentence_example :
    Parses
      (replicate 17 0x5a)
      (length (sentence (replicate 17 0x5a) 12 0))
      (sentence (replicate 17 0x5a) 12 0)
      (0 * 11)
      (replicate 65 0)
      (0 * 11 + 12 * 11)
parse_words-sentence_example =
    parse_words-sentence (replicate 17 0x5a) 12 0 (length (sentence (replicate 17 0x5a) 12 0))
      (replicate 65 0) (start-HoldsPrefix (replicate 17 0x5a)) (omega arith) (omega arith)

data_from_mnemonic-mnemonic_from_data_example :
    (mnemonic : List ℕ) × (out : List ℕ) × (mnemonic_from_data sha256_raw (replicate 16 0x5a)
      ≡ some mnemonic)
    × (data_from_mnemonic sha256_raw mnemonic ≡ some (16, out))
    × (take 16 out ≡ replicate 16 0x5a)
    × (mnemonic_check sha256_raw mnemonic ≡ true)
data_from_mnemonic-mnemonic_from_data_example =
    data_from_mnemonic-mnemonic_from_data (replicate 16 0x5a) (inl refl) (bytes_replicate 16)

mnemonic_check-mnemonic_from_data_example :
    (mnemonic : List ℕ) × (mnemonic_from_data sha256_raw (replicate 20 0x5a) ≡ some mnemonic)
    × (mnemonic_check sha256_raw mnemonic ≡ false)
mnemonic_check-mnemonic_from_data_example =
    mnemonic_check-mnemonic_from_data (replicate 20 0x5a) (inl refl)

-- What a buffer on the stack may hold, a sentence and a passphrase.
abbrev stack_buffer : List ℕ
stack_buffer = replicate 128 0xcc

abbrev abandon : List ℕ
abandon = b'a' ∷ b'b' ∷ b'a' ∷ b'n' ∷ b'd' ∷ b'o' ∷ b'n' ∷ []

abbrev fresh_context : Pbkdf2Context
fresh_context = record {
  odig = replicate 8 1;
  idig = replicate 8 2;
  f = replicate 8 3;
  g = replicate 16 4;
  first = 1;
}

pbkdf2_update_add_example :
    pbkdf2_update sha512_transform (pbkdf2_update sha512_transform fresh_context 2) 3
    ≡ pbkdf2_update sha512_transform fresh_context (2 + 3)
pbkdf2_update_add_example =
    pbkdf2_update_add sha512_transform fresh_context 2 3 (omega arith) (omega arith)

abbrev trezor : List ℕ
trezor = b'T' ∷ b'R' ∷ b'E' ∷ b'Z' ∷ b'O' ∷ b'R' ∷ []

mnemonic_to_seed-pbkdf2_seed_example :
    (cache' : SeedCache) × (mnemonic_to_seed stack_buffer empty_cache abandon trezor
      ≡ some (pbkdf2_seed stack_buffer abandon trezor, cache'))
    × RightEntries stack_buffer cache'.entries
mnemonic_to_seed-pbkdf2_seed_example =
    mnemonic_to_seed-pbkdf2_seed stack_buffer empty_cache abandon trezor
      (empty-RightEntries stack_buffer) (omega arith) (omega arith)

run_calls-pbkdf2_seeds_example :
    run_calls stack_buffer empty_cache ((abandon, []) ∷ (abandon, trezor) ∷ (abandon, []) ∷ [])
    ≡ some (pbkdf2_seeds stack_buffer ((abandon, []) ∷ (abandon, trezor) ∷ (abandon, []) ∷ []))
run_calls-pbkdf2_seeds_example =
    run_calls-pbkdf2_seeds stack_buffer ((abandon, []) ∷ (abandon, trezor) ∷ (abandon, []) ∷ [])
      (omega arith)

mnemonic_to_seed-overrun_example :
    mnemonic_to_seed stack_buffer empty_cache abandon (replicate 257 b'x') ≡ none
mnemonic_to_seed-overrun_example =
    mnemonic_to_seed-overrun stack_buffer empty_cache abandon (replicate 257 b'x') (omega arith)
      (omega arith)
