-- ===== src/Pbkdf2.antt =====
-- ios/Classes/pbkdf2.c: the derivation can be run in slices.
use ether_flutter_plugin.Prelude.{
  ℕ, zero, suc, ◌+◌, ◌-◌, ◌*◌, List, [], ◌∷◌, ◌++◌, map, bit_xor, u32, take, replicate,
}
use ether_flutter_plugin.Sha2.Memory.{overlay, load_words, store_words, reverse32, reverse64}
use ether_flutter_plugin.Sha2.Rounds.{sha256_transform, sha512_transform}
use ether_flutter_plugin.Sha2.Sha256.{sha256_update, sha256_final}
use ether_flutter_plugin.Sha2.Sha512.{sha512_update, sha512_final}
use ether_flutter_plugin.Hmac.{hmac_sha256_prepare, hmac_sha512_prepare}
pub mod Slices

-- PBKDF2_HMAC_SHA256_CTX and PBKDF2_HMAC_SHA512_CTX: f has eight words and g sixteen.
pub record Pbkdf2Context : Type 0 where
  pub odig : List ℕ
  pub idig : List ℕ
  pub f : List ℕ
  pub g : List ℕ
  pub first : ℕ

-- `f[j] ^= g[j]` for the eight words of f.
unfoldable pub xor_words : List ℕ → List ℕ → List ℕ
xor_words [] gs = []
xor_words (x ∷ xs) [] = x ∷ xs
xor_words (x ∷ xs) (y ∷ ys) = bit_xor x y ∷ xor_words xs ys

module _ (transform : List ℕ → List ℕ → List ℕ) where
  -- One round of the loop: both transforms write their state to the first words of g.
  unfoldable pub iteration : Pbkdf2Context → Pbkdf2Context
  unfolding overlay xor_words
  iteration p =
      let inner = overlay p.g 0 (transform p.idig p.g) in
      let outer = overlay inner 0 (transform p.odig inner) in
      record p { f = xor_words p.f outer; g = outer }

  unfoldable pub iterate : ℕ → Pbkdf2Context → Pbkdf2Context
  unfolding iteration
  iterate zero p = p
  iterate (suc n) p = iterate n (iteration p)

  -- The loop runs from `first` to `iterations`, a uint32_t.
  unfoldable pub pbkdf2_update : Pbkdf2Context → ℕ → Pbkdf2Context
  unfolding iterate
  pbkdf2_update pctx iterations = record (iterate (u32 iterations - pctx.first) pctx) { first = 0 }

-- `buffer` is what the buffer of the hash context on the stack holds, which is not set.
module _ (buffer : List ℕ) where
  unfoldable pub pbkdf2_hmac_sha256_init : List ℕ → List ℕ → Pbkdf2Context
  unfolding hmac_sha256_prepare sha256_update sha256_final overlay load_words reverse32
      sha256_transform
  pbkdf2_hmac_sha256_init pass salt =
      let prepared = hmac_sha256_prepare pass in
      let digest = sha256_final (
        sha256_update
          (sha256_update record { state = prepared.ipad_digest; bitcount = 64 * 8; buffer = buffer }
            salt)
          (0 ∷ 0 ∷ 0 ∷ 1 ∷ [])) in
      let g =
        map reverse32 (load_words 4 8 digest)
        ++ (0x80000000 ∷ replicate 6 0 ++ ((64 + 32) * 8 ∷ [])) in
      let g' = overlay g 0 (sha256_transform prepared.opad_digest g) in
      record {
        odig = prepared.opad_digest;
        idig = prepared.ipad_digest;
        f = take 8 g';
        g = g';
        first = 1;
      }

  unfoldable pub pbkdf2_hmac_sha512_init : List ℕ → List ℕ → Pbkdf2Context
  unfolding hmac_sha512_prepare sha512_update sha512_final overlay load_words reverse64
      sha512_transform
  pbkdf2_hmac_sha512_init pass salt =
      let prepared = hmac_sha512_prepare pass in
      let digest = sha512_final (
        sha512_update
          (sha512_update
            record {
              state = prepared.ipad_digest;
              bitcount = record { low = 128 * 8; high = 0 };
              buffer = buffer;
            }
            salt)
          (0 ∷ 0 ∷ 0 ∷ 1 ∷ [])) in
      let g =
        map reverse64 (load_words 8 8 digest)
        ++ (0x8000000000000000 ∷ replicate 6 0 ++ ((128 + 64) * 8 ∷ [])) in
      let g' = overlay g 0 (sha512_transform prepared.opad_digest g) in
      record {
        odig = prepared.opad_digest;
        idig = prepared.ipad_digest;
        f = take 8 g';
        g = g';
        first = 1;
      }

-- The key; the context is wiped afterwards.
unfoldable pub pbkdf2_hmac_sha256_final : Pbkdf2Context → List ℕ
unfolding store_words reverse32
pbkdf2_hmac_sha256_final pctx = store_words 4 (map reverse32 pctx.f)

unfoldable pub pbkdf2_hmac_sha512_final : Pbkdf2Context → List ℕ
unfolding store_words reverse64
pbkdf2_hmac_sha512_final pctx = store_words 8 (map reverse64 pctx.f)

module _ (buffer : List ℕ) where
  unfoldable pub pbkdf2_hmac_sha256 : List ℕ → List ℕ → ℕ → List ℕ
  unfolding pbkdf2_hmac_sha256_init pbkdf2_update pbkdf2_hmac_sha256_final sha256_transform
  pbkdf2_hmac_sha256 pass salt iterations =
      pbkdf2_hmac_sha256_final
        (pbkdf2_update sha256_transform (pbkdf2_hmac_sha256_init buffer pass salt) iterations)

  unfoldable pub pbkdf2_hmac_sha512 : List ℕ → List ℕ → ℕ → List ℕ
  unfolding pbkdf2_hmac_sha512_init pbkdf2_update pbkdf2_hmac_sha512_final sha512_transform
  pbkdf2_hmac_sha512 pass salt iterations =
      pbkdf2_hmac_sha512_final
        (pbkdf2_update sha512_transform (pbkdf2_hmac_sha512_init buffer pass salt) iterations)
