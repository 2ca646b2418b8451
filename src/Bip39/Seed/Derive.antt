-- ===== src/Bip39/Seed/Derive.antt =====
-- The salt and the sixteen slices of `mnemonic_to_seed` of ios/Classes/bip39.c.
use ether_flutter_plugin.Prelude.{
  ℕ, zero, suc, ◌+◌, ◌*◌, ◌^◌, ◌≤◌, ◌<◌, ◌≡◌, ◌∙◌, refl, ap, List, ◌∷◌, none, some, false, leb,
  arith, length, leb_iff,
}
use mathlib.Core.Option
use ether_flutter_plugin.Sha2.Rounds.{sha512_transform}
use ether_flutter_plugin.Pbkdf2.{
  Pbkdf2Context, pbkdf2_update, pbkdf2_hmac_sha512_init, pbkdf2_hmac_sha512_final,
  pbkdf2_hmac_sha512,
}
use ether_flutter_plugin.Pbkdf2.Slices.{pbkdf2_update_add}
use ether_flutter_plugin.Bip39.Seed.{run_slices, make_salt, derive_seed}

-- The salt of BIP 39.
abbrev pub seed_salt : List ℕ → List ℕ
seed_salt passphrase = b'm' ∷ b'n' ∷ b'e' ∷ b'm' ∷ b'o' ∷ b'n' ∷ b'i' ∷ b'c' ∷ passphrase

run_slices_lem :
    (n : ℕ) (p : Pbkdf2Context)
    → p.first ≤ 128
    → n < 2 ^ 20
    → run_slices (suc n) p ≡ pbkdf2_update sha512_transform p (suc n * 128)
unfolding run_slices pbkdf2_update
run_slices_lem zero p h few =
    ap (pbkdf2_update sha512_transform p) {x = 128} {y = 1 * 128} (omega arith)
run_slices_lem (suc n) p h few =
    run_slices_lem n (pbkdf2_update sha512_transform p 128) (omega arith) (omega arith)
    ∙ pbkdf2_update_add sha512_transform p 128 (suc n * 128) h (omega arith)
    ∙ ap (pbkdf2_update sha512_transform p) {x = 128 + suc n * 128} {y = suc (suc n) * 128}
        (omega arith)

init-first : (buffer pass salt : List ℕ) → (pbkdf2_hmac_sha512_init buffer pass salt).first ≡ 1
unfolding pbkdf2_hmac_sha512_init
init-first buffer pass salt = refl

make_salt-seed_salt :
    (passphrase : List ℕ)
    → length passphrase ≤ 256
    → make_salt passphrase ≡ some (seed_salt passphrase)
unfolding make_salt
make_salt-seed_salt passphrase h =
    rw ((leb_iff (8 + length passphrase) (8 + 256)).1 (omega arith)) refl

pub derive_seed-pbkdf2_hmac_sha512 :
    (buffer mnemonic passphrase : List ℕ)
    → length passphrase ≤ 256
    → derive_seed buffer mnemonic passphrase
      ≡ some (pbkdf2_hmac_sha512 buffer mnemonic (seed_salt passphrase) 2048)
unfolding derive_seed pbkdf2_hmac_sha512
derive_seed-pbkdf2_hmac_sha512 buffer mnemonic passphrase h =
    let salt : List ℕ = seed_salt passphrase in
    ap
      (Option.map
        (λ s. pbkdf2_hmac_sha512_final (run_slices 16 (pbkdf2_hmac_sha512_init buffer mnemonic s))))
      (make_salt-seed_salt passphrase h)
    ∙ ap (λ p. some (pbkdf2_hmac_sha512_final p))
        (run_slices_lem 15 (pbkdf2_hmac_sha512_init buffer mnemonic salt)
          (omega (arith, init-first buffer mnemonic salt)) (omega arith))

make_salt-overrun : (passphrase : List ℕ) → 256 < length passphrase → make_salt passphrase ≡ none
unfolding make_salt
make_salt-overrun passphrase h = rw (not_below (8 + length passphrase) (8 + 256) (omega arith)) refl
  where
    not_below : (a b : ℕ) → b < a → leb a b ≡ false
    not_below a b e = ground arith

pub derive_seed-overrun :
    (buffer mnemonic passphrase : List ℕ)
    → 256 < length passphrase
    → derive_seed buffer mnemonic passphrase ≡ none
unfolding derive_seed
derive_seed-overrun buffer mnemonic passphrase h =
    ap
      (Option.map (λ salt.
        pbkdf2_hmac_sha512_final (run_slices 16 (pbkdf2_hmac_sha512_init buffer mnemonic salt))))
      (make_salt-overrun passphrase h)
