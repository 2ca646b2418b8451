-- ===== src/Bip39/Seed.antt =====
-- `mnemonic_to_seed` of ios/Classes/bip39.c with its cache. The progress callback, which only
-- reports, is left out.
use ether_flutter_plugin.Prelude.{
  ℕ, zero, suc, ◌+◌, ◌/◌, ◌%◌, Bool, true, false, ◌&&◌, List, [], ◌∷◌, ◌++◌, Option, none, some,
  ltb, leb, u32, ◌||◌, ◌^◌, if◌then◌else◌, length, set, replicate,
}
use mathlib.Core.Option
use ether_flutter_plugin.Sha2.Rounds.{sha512_transform}
use ether_flutter_plugin.Pbkdf2.{
  Pbkdf2Context, pbkdf2_update, pbkdf2_hmac_sha512_init, pbkdf2_hmac_sha512_final,
}
use ether_flutter_plugin.Bip39.Decode.{same_word}
pub mod Derive
pub mod Entries
pub mod Cache

pub record SeedEntry : Type 0 where
  pub is_set : Bool
  pub mnemonic : List ℕ
  pub passphrase : List ℕ
  pub seed : List ℕ

-- `bip39_cache` and `bip39_cache_index`.
pub record SeedCache : Type 0 where
  pub index : ℕ
  pub entries : List SeedEntry

-- The static variables start with zeros.
abbrev pub empty_cache : SeedCache
empty_cache = record {
  index = 0;
  entries =
      replicate 4 record { is_set = false; mnemonic = []; passphrase = []; seed = replicate 64 0 };
}

-- The loop over the entries.
unfoldable pub find_seed : List SeedEntry → List ℕ → List ℕ → Option (List ℕ)
unfolding same_word
find_seed [] mnemonic passphrase = none
find_seed (e ∷ es) mnemonic passphrase =
    let later = find_seed es mnemonic passphrase in
    if e.is_set && (same_word e.mnemonic mnemonic && same_word e.passphrase passphrase)
    then some e.seed
    else later

-- `(int)n < bound`: the conversion takes 32 bits, and the upper half of those is negative.
unfoldable pub int_below : ℕ → ℕ → Bool
int_below n bound = ltb (u32 n) bound || leb (2 ^ 31) (u32 n)

-- The test before the cache is read and before it is written.
unfoldable pub fits_cache : List ℕ → List ℕ → Bool
unfolding int_below
fits_cache mnemonic passphrase = int_below (length mnemonic) 256 && int_below (length passphrase) 64

-- `strcpy` of a string with its final 0 to an array; `none` is a write behind the array.
unfoldable pub copy_string : ℕ → List ℕ → Option (List ℕ)
copy_string size s = if ltb (length s) size then some s else none

-- The entry that is written to the cache: its arrays hold 256 and 64 characters.
unfoldable pub make_entry : List ℕ → List ℕ → List ℕ → Option SeedEntry
unfolding copy_string
make_entry mnemonic passphrase seed = elim (copy_string 256 mnemonic) [
  | none ↦ none
  | some m ↦
      Option.map (λ p. record { is_set = true; mnemonic = m; passphrase = p; seed = seed })
        (copy_string 64 passphrase)
]

-- The calls of `pbkdf2_hmac_sha512_Update`, of BIP39_PBKDF2_ROUNDS / 16 iterations each.
unfoldable pub run_slices : ℕ → Pbkdf2Context → Pbkdf2Context
unfolding pbkdf2_update sha512_transform
run_slices zero pctx = pctx
run_slices (suc n) pctx = run_slices n (pbkdf2_update sha512_transform pctx (2048 / 16))

-- The last part: the seed goes to the entry at the index.
unfoldable pub store_seed : SeedCache → List ℕ → List ℕ → List ℕ → Option (List ℕ × SeedCache)
unfolding fits_cache make_entry
store_seed cache mnemonic passphrase seed =
    if fits_cache mnemonic passphrase
    then Option.map
        (λ entry. (
          seed,
          record { index = (cache.index + 1) % 4; entries = set cache.entries cache.index entry },
        ))
        (make_entry mnemonic passphrase seed)
    else some (seed, cache)

-- The array on the stack has 8 + 256 bytes; `none` is a write behind it.
unfoldable pub make_salt : List ℕ → Option (List ℕ)
make_salt passphrase =
    if leb (8 + length passphrase) (8 + 256)
    then some (b'm' ∷ b'n' ∷ b'e' ∷ b'm' ∷ b'o' ∷ b'n' ∷ b'i' ∷ b'c' ∷ passphrase)
    else none

-- `buffer` is what the buffer of the hash context on the stack holds, as in Pbkdf2. `none` is a write
-- behind an array.
module _ (buffer : List ℕ) where
  -- The part behind the search in the cache, up to the seed.
  unfoldable pub derive_seed : List ℕ → List ℕ → Option (List ℕ)
  unfolding run_slices make_salt pbkdf2_hmac_sha512_init pbkdf2_hmac_sha512_final
  derive_seed mnemonic passphrase =
      Option.map
        (λ salt.
          pbkdf2_hmac_sha512_final (run_slices 16 (pbkdf2_hmac_sha512_init buffer mnemonic salt)))
        (make_salt passphrase)

  -- What the search gives: a seed that is found leaves the cache as it is.
  unfoldable pub seed_after :
      SeedCache → List ℕ → List ℕ → Option (List ℕ) → Option (List ℕ × SeedCache)
  unfolding derive_seed store_seed
  seed_after cache mnemonic passphrase (some found) = some (found, cache)
  seed_after cache mnemonic passphrase none = elim (derive_seed mnemonic passphrase) [
    | none ↦ none
    | some seed ↦ store_seed cache mnemonic passphrase seed
  ]

  unfoldable pub mnemonic_to_seed : SeedCache → List ℕ → List ℕ → Option (List ℕ × SeedCache)
  unfolding fits_cache find_seed seed_after
  mnemonic_to_seed cache mnemonic passphrase =
      seed_after cache mnemonic passphrase (
        if fits_cache mnemonic passphrase
        then find_seed cache.entries mnemonic passphrase
        else none)
