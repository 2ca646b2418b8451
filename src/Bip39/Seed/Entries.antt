-- ===== src/Bip39/Seed/Entries.antt =====
-- The entries of the cache of `mnemonic_to_seed` of ios/Classes/bip39.c: what is found in them and
-- what is stored.
use ether_flutter_plugin.Prelude.{
  ℕ, zero, suc, ◌^◌, ◌≤◌, ◌<◌, ◌≡◌, ◌≢◌, ◌⊎◌, ◌∙◌, refl, sym, ap₂, Bool, true, false, ◌&&◌, List,
  [], ◌∷◌, some, Bool-cases, inl, inr, set, arith, length, ltb_iff,
}
use ether_flutter_plugin.Pbkdf2.{pbkdf2_hmac_sha512}
use ether_flutter_plugin.Bip39.Decode.{same_word}
use ether_flutter_plugin.Bip39.Seed.{
  SeedEntry, find_seed, int_below, fits_cache, copy_string, make_entry,
}
use ether_flutter_plugin.Bip39.Seed.Derive.{seed_salt}

same_word_sound : (xs ys : List ℕ) → same_word xs ys ≡ true → xs ≡ ys
unfolding same_word
same_word_sound [] [] h = refl
same_word_sound [] (y ∷ ys) h = cc
same_word_sound (x ∷ xs) [] h = cc
same_word_sound (x ∷ xs) (y ∷ ys) h =
    ap₂ (λ a t. a ∷ t) (ground arith) (same_word_sound xs ys (ground arith))

abbrev matches : SeedEntry → List ℕ → List ℕ → Bool
matches e m p = e.is_set && (same_word e.mnemonic m && same_word e.passphrase p)

some_injective : (xs ys : List ℕ) → some xs ≡ some ys → xs ≡ ys
some_injective xs ys h = cc

-- What passes the test fits the arrays, if the length of the sentence fits an int.
below_bound : (n bound : ℕ) → n < 2 ^ 31 → bound ≤ 2 ^ 31 → int_below n bound ≡ true → n < bound
unfolding int_below
below_bound n bound h b t = ground arith

pub above_bound : (n bound : ℕ) → n < 2 ^ 31 → bound ≤ n → int_below n bound ≡ false
unfolding int_below
above_bound n bound h b = ground arith

pub and_false : (b : Bool) → b && false ≡ false
and_false true = refl
and_false false = refl

copy_string-some : (size : ℕ) (s : List ℕ) → length s < size → copy_string size s ≡ some s
unfolding copy_string
copy_string-some size s h = rw ((ltb_iff (length s) size).1 h) refl

and_parts : {a b : Bool} → a && b ≡ true → (a ≡ true) × (b ≡ true)
and_parts {a = true} h = (refl, h)
and_parts {a = false} h = cc

pub make_entry-some :
    (m p seed : List ℕ)
    → length m < 2 ^ 31
    → length p ≤ 256
    → fits_cache m p ≡ true
    → make_entry m p seed ≡ some record { is_set = true; mnemonic = m; passphrase = p; seed = seed }
unfolding make_entry fits_cache
make_entry-some m p seed hm hp fits =
    let parts = and_parts fits in
    let sentence = copy_string-some 256 m (below_bound (length m) 256 hm (omega arith) parts.0) in
    let phrase =
      copy_string-some 64 p (below_bound (length p) 64 (omega arith) (omega arith) parts.1) in
    rw (sentence, make_entry) (rw (phrase, make_entry) refl)

module _ (buffer : List ℕ) where
  -- The seed of BIP 39.
  abbrev pub pbkdf2_seed : List ℕ → List ℕ → List ℕ
  pbkdf2_seed mnemonic passphrase = pbkdf2_hmac_sha512 buffer mnemonic (seed_salt passphrase) 2048

  -- An entry that is set has the seed of its sentence and passphrase.
  abbrev pub RightEntry : SeedEntry → Type 0
  RightEntry e = (e.is_set ≡ false) ⊎ (e.seed ≡ pbkdf2_seed e.mnemonic e.passphrase)

  abbrev pub RightEntries : List SeedEntry → Type 0
  RightEntries [] = Unit {0}
  RightEntries (e ∷ es) = RightEntry e × RightEntries es

  set_entry :
      (e : SeedEntry)
      → RightEntry e
      → e.is_set ≡ true
      → e.seed ≡ pbkdf2_seed e.mnemonic e.passphrase
  set_entry e (inl unset) h = cc
  set_entry e (inr right) h = right

  nothing_found : (m p found : List ℕ) → find_seed [] m p ≢ some found
  unfolding find_seed
  nothing_found m p found h = cc

  find_seed_hit :
      (e : SeedEntry) (es : List SeedEntry) (m p : List ℕ)
      → matches e m p ≡ true
      → find_seed (e ∷ es) m p ≡ some e.seed
  unfolding find_seed
  find_seed_hit e es m p t = rw (t, find_seed) refl

  find_seed_miss :
      (e : SeedEntry) (es : List SeedEntry) (m p : List ℕ)
      → matches e m p ≡ false
      → find_seed (e ∷ es) m p ≡ find_seed es m p
  unfolding find_seed
  find_seed_miss e es m p t = rw (t, find_seed) refl

  pub find_seed-pbkdf2_seed :
      (es : List SeedEntry) (m p found : List ℕ)
      → RightEntries es
      → find_seed es m p ≡ some found
      → found ≡ pbkdf2_seed m p
  find_seed-pbkdf2_seed [] m p found right h = absurd (nothing_found m p found h)
  find_seed-pbkdf2_seed (e ∷ es) m p found right h = elim (Bool-cases (matches e m p)) [
    | inl t ↦
        let hit : e.seed ≡ found =
          some_injective e.seed found (sym (find_seed_hit e es m p t) ∙ h) in
        let own : e.seed ≡ pbkdf2_seed e.mnemonic e.passphrase =
          set_entry e right.0 (ground arith) in
        let sentence : e.mnemonic ≡ m = same_word_sound e.mnemonic m (ground arith) in
        let phrase : e.passphrase ≡ p = same_word_sound e.passphrase p (ground arith) in
        sym hit ∙ own ∙ ap₂ pbkdf2_seed sentence phrase
    | inr t ↦ find_seed-pbkdf2_seed es m p found right.1 (sym (find_seed_miss e es m p t) ∙ h)
  ]

  pub set-RightEntries :
      (es : List SeedEntry) (i : ℕ) (e : SeedEntry)
      → RightEntries es
      → RightEntry e
      → RightEntries (set es i e)
  set-RightEntries [] i e right here = tt
  set-RightEntries (x ∷ es) zero e right here = (here, right.1)
  set-RightEntries (x ∷ es) (suc i) e right here = (right.0, set-RightEntries es i e right.1 here)
