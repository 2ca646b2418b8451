-- ===== src/Bip39/Seed/Cache.antt =====
-- The arrays and the cache of `mnemonic_to_seed` of ios/Classes/bip39.c, over one call and over
-- sequences of calls.
use ether_flutter_plugin.Prelude.{
  ℕ, ◌+◌, ◌^◌, ◌≤◌, ◌<◌, ◌≡◌, ◌≢◌, ◌∙◌, ◌%◌, refl, ap, Bool, true, false, ◌&&◌, List, [], ◌∷◌,
  Option, none, some, Bool-cases, inl, inr, set, arith, length, if◌then◌else◌,
}
use mathlib.Core.Option
use ether_flutter_plugin.Bip39.Seed.{
  SeedEntry, SeedCache, empty_cache, find_seed, int_below, fits_cache, store_seed, seed_after,
  mnemonic_to_seed,
}
use ether_flutter_plugin.Bip39.Seed.Derive.{derive_seed-overrun, derive_seed-pbkdf2_hmac_sha512}
use ether_flutter_plugin.Bip39.Seed.Entries.{
  make_entry-some, above_bound, and_false, find_seed-pbkdf2_seed, set-RightEntries, pbkdf2_seed,
  RightEntries,
}

module _ (buffer : List ℕ) where
  -- A call that writes behind no array, gives the seed and leaves a right cache.
  abbrev pub Promised : List ℕ → List ℕ → Option (List ℕ × SeedCache) → Type 0
  Promised m p result =
      (cache : SeedCache) × (result ≡ some (pbkdf2_seed buffer m p, cache))
      × RightEntries buffer cache.entries

  store_seed-Promised :
      (cache : SeedCache) (m p : List ℕ)
      → RightEntries buffer cache.entries
      → length m < 2 ^ 31
      → length p ≤ 256
      → Promised m p (store_seed cache m p (pbkdf2_seed buffer m p))
  unfolding store_seed
  store_seed-Promised cache m p right hm hp = elim (Bool-cases (fits_cache m p)) [
    | inr large ↦ (cache, rw large refl, right)
    | inl fits ↦
        let entry : SeedEntry = record {
          is_set = true;
          mnemonic = m;
          passphrase = p;
          seed = pbkdf2_seed buffer m p;
        } in
        (
          record { index = (cache.index + 1) % 4; entries = set cache.entries cache.index entry },
          rw fits (
              ap
                (Option.map (λ e. (
                  pbkdf2_seed buffer m p,
                  record {
                    index = (cache.index + 1) % 4;
                    entries = set cache.entries cache.index e;
                  },
                )))
                (make_entry-some m p (pbkdf2_seed buffer m p) hm hp fits)),
          set-RightEntries buffer cache.entries cache.index entry right (inr refl),
        )
  ]

  seed_after-Promised :
      (cache : SeedCache) (m p : List ℕ) (o : Option (List ℕ))
      → RightEntries buffer cache.entries
      → length m < 2 ^ 31
      → length p ≤ 256
      → ((found : List ℕ) → o ≡ some found → found ≡ pbkdf2_seed buffer m p)
      → Promised m p (seed_after buffer cache m p o)
  unfolding seed_after
  seed_after-Promised cache m p (some found) right hm hp f =
      (cache, ap (λ s. some (s, cache)) (f found refl), right)
  seed_after-Promised cache m p none right hm hp f =
      rw (derive_seed-pbkdf2_hmac_sha512 buffer m p hp, seed_after)
        (store_seed-Promised cache m p right hm hp)

  none-ne-some : (found : List ℕ) → none ≢ some found
  none-ne-some found h = cc

  looked_up :
      (b : Bool) (es : List SeedEntry) (m p found : List ℕ)
      → RightEntries buffer es
      → (if b then find_seed es m p else none) ≡ some found
      → found ≡ pbkdf2_seed buffer m p
  looked_up true es m p found right h = find_seed-pbkdf2_seed buffer es m p found right h
  looked_up false es m p found right h = absurd (none-ne-some found h)

  -- From a cache whose set entries are right, for a sentence of fewer than 2^31 characters and a
  -- passphrase of at most 256, `mnemonic_to_seed` writes behind no array, gives PBKDF2 of the sentence
  -- with the salt of BIP 39 and 2048 iterations, and leaves such a cache.
  pub mnemonic_to_seed-pbkdf2_seed :
      (cache : SeedCache) (m p : List ℕ)
      → RightEntries buffer cache.entries
      → length m < 2 ^ 31
      → length p ≤ 256
      → (cache' : SeedCache) × (mnemonic_to_seed buffer cache m p
          ≡ some (pbkdf2_seed buffer m p, cache'))
        × RightEntries buffer cache'.entries
  unfolding mnemonic_to_seed
  mnemonic_to_seed-pbkdf2_seed cache m p right hm hp =
      seed_after-Promised cache m p (if fits_cache m p then find_seed cache.entries m p else none)
        right hm hp (λ found. looked_up (fits_cache m p) cache.entries m p found right)

  -- A sequence of calls, each with a sentence and a passphrase; `none` if one of them writes behind an
  -- array.
  abbrev pub run_calls : SeedCache → List (List ℕ × List ℕ) → Option (List (List ℕ))
  run_calls cache [] = some []
  run_calls cache ((m, p) ∷ calls) = elim (mnemonic_to_seed buffer cache m p) [
    | none ↦ none
    | some result ↦ Option.map (λ seeds. result.0 ∷ seeds) (run_calls result.1 calls)
  ]

  abbrev pub pbkdf2_seeds : List (List ℕ × List ℕ) → List (List ℕ)
  pbkdf2_seeds [] = []
  pbkdf2_seeds ((m, p) ∷ calls) = pbkdf2_seed buffer m p ∷ pbkdf2_seeds calls

  abbrev pub ShortCalls : List (List ℕ × List ℕ) → Type 0
  ShortCalls [] = Unit {0}
  ShortCalls ((m, p) ∷ calls) = ((length m < 2 ^ 31) × (length p ≤ 256)) × ShortCalls calls

  run_calls_right :
      (cache : SeedCache) (calls : List (List ℕ × List ℕ))
      → RightEntries buffer cache.entries
      → ShortCalls calls
      → run_calls cache calls ≡ some (pbkdf2_seeds calls)
  run_calls_right cache [] right short = refl
  run_calls_right cache ((m, p) ∷ calls) right short =
      let (cache', result, right') =
        mnemonic_to_seed-pbkdf2_seed cache m p right short.0.0 short.0.1 in
      rw (result, run_calls)
        (ap (Option.map (λ seeds. pbkdf2_seed buffer m p ∷ seeds))
          (run_calls_right cache' calls right' short.1))

  pub empty-RightEntries : RightEntries buffer empty_cache.entries
  empty-RightEntries = (inl refl, (inl refl, (inl refl, (inl refl, tt))))

  -- Over every sequence of calls that starts with the empty cache, with sentences of fewer than 2^31
  -- characters and passphrases of at most 256, `mnemonic_to_seed` writes behind no array and gives
  -- for each call PBKDF2 of its own sentence and passphrase, as without the cache.
  pub run_calls-pbkdf2_seeds :
      (calls : List (List ℕ × List ℕ))
      → ShortCalls calls
      → run_calls empty_cache calls ≡ some (pbkdf2_seeds calls)
  run_calls-pbkdf2_seeds calls short = run_calls_right empty_cache calls empty-RightEntries short

  long_phrase : (m p : List ℕ) → 256 < length p → length p < 2 ^ 31 → fits_cache m p ≡ false
  unfolding fits_cache
  long_phrase m p long h =
      ap (λ b. int_below (length m) 256 && b) (above_bound (length p) 64 h (omega arith))
      ∙ and_false (int_below (length m) 256)

  none_found :
      (cache : SeedCache) (m p : List ℕ) → 256 < length p → seed_after buffer cache m p none ≡ none
  unfolding seed_after
  none_found cache m p long = rw (derive_seed-overrun buffer m p long, seed_after) refl

  -- With any cache and sentence, and a passphrase of more than 256 and fewer than 2^31 characters,
  -- `mnemonic_to_seed` does not look into the cache and writes behind the array of the salt.
  pub mnemonic_to_seed-overrun :
      (cache : SeedCache) (m p : List ℕ)
      → 256 < length p
      → length p < 2 ^ 31
      → mnemonic_to_seed buffer cache m p ≡ none
  unfolding mnemonic_to_seed
  mnemonic_to_seed-overrun cache m p long h =
      ap (λ b. seed_after buffer cache m p (if b then find_seed cache.entries m p else none))
        (long_phrase m p long h)
      ∙ none_found cache m p long
