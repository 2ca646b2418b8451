-- ===== src/Sha2/Digest.antt =====
-- The digests of ios/Classes/sha2.c are byte strings of SHA256_DIGEST_LENGTH and
-- SHA512_DIGEST_LENGTH bytes.
use ether_flutter_plugin.Prelude.{
  ℕ, zero, suc, ◌+◌, ◌*◌, ◌%◌, ◌<◌, ◌≡◌, ◌∙◌, refl, ap, List, [], ◌∷◌, ◌++◌, map, length,
  length-map, get_or, ltb, arith, Bool-cases, inl, inr, ◌>>>◌,
}
use ether_flutter_plugin.Sha2.Memory.{store_word, store_words, reverse32, reverse64}
use ether_flutter_plugin.Sha2.Sha256.{
  sha256_init, sha256_update, sha256_last, sha256_final, Sha256Context, sha256_raw,
}
use ether_flutter_plugin.Sha2.Sha512.{
  sha512_init, sha512_update, sha512_final, sha512_last, Sha512Context, sha512_raw,
}
use ether_flutter_plugin.Sha2.Pieces.{length-store_words}

get_or-store_word :
    (n w t : ℕ) (rest : List ℕ)
    → ((i : ℕ) → get_or rest i 0 < 256)
    → get_or (store_word n w ++ rest) t 0 < 256
unfolding store_word
get_or-store_word zero w t rest h = h t
get_or-store_word (suc n) w zero rest h = omega arith
get_or-store_word (suc n) w (suc t) rest h = get_or-store_word n _ t rest h

get_or-store_words : (n : ℕ) (ws : List ℕ) (t : ℕ) → get_or (store_words n ws) t 0 < 256
unfolding store_words
get_or-store_words n [] t = omega arith
get_or-store_words n (w ∷ ws) t =
    get_or-store_word n w t (store_words n ws) (get_or-store_words n ws)

length-digest256 : (ws : List ℕ) → length ws ≡ 8 → length (store_words 4 (map reverse32 ws)) ≡ 32
length-digest256 ws h =
    length-store_words 4 (map reverse32 ws) ∙ ap (λ (n : ℕ). 4 * n) (length-map ws reverse32 ∙ h)

length-digest512 : (ws : List ℕ) → length ws ≡ 8 → length (store_words 8 (map reverse64 ws)) ≡ 64
length-digest512 ws h =
    length-store_words 8 (map reverse64 ws) ∙ ap (λ (n : ℕ). 8 * n) (length-map ws reverse64 ∙ h)

length-sha256_last : (c : Sha256Context) → length (sha256_last c) ≡ 8
unfolding sha256_last
length-sha256_last c = elim (Bool-cases (ltb 56 ((c.bitcount >>> 3) % 64 + 1))) [
  | inl e ↦ rw (e, sha256_last) refl
  | inr e ↦ rw (e, sha256_last) refl
]

length-sha256_final : (c : Sha256Context) → length (sha256_final c) ≡ 32
unfolding sha256_final
length-sha256_final c = length-digest256 (sha256_last c) (length-sha256_last c)

length-sha512_last : (c : Sha512Context) → length (sha512_last c) ≡ 8
unfolding sha512_last
length-sha512_last c = elim (Bool-cases (ltb 112 ((c.bitcount.low >>> 3) % 128 + 1))) [
  | inl e ↦ rw (e, sha512_last) refl
  | inr e ↦ rw (e, sha512_last) refl
]

pub length-sha512_final : (c : Sha512Context) → length (sha512_final c) ≡ 64
unfolding sha512_final
length-sha512_final c = length-digest512 (sha512_last c) (length-sha512_last c)

get_or-sha256_final : (c : Sha256Context) (t : ℕ) → get_or (sha256_final c) t 0 < 256
unfolding sha256_final
get_or-sha256_final c t = get_or-store_words 4 (map reverse32 (sha256_last c)) t

pub get_or-sha512_final : (c : Sha512Context) (t : ℕ) → get_or (sha512_final c) t 0 < 256
unfolding sha512_final
get_or-sha512_final c t = get_or-store_words 8 (map reverse64 (sha512_last c)) t

-- For every message the SHA-256 digest has 32 elements, and each of them is a byte.
pub sha256_raw-bytes :
    (message : List ℕ)
    → (length (sha256_raw message) ≡ 32) × ((t : ℕ) → get_or (sha256_raw message) t 0 < 256)
unfolding sha256_raw
sha256_raw-bytes message = (
  length-sha256_final (sha256_update sha256_init message),
  get_or-sha256_final (sha256_update sha256_init message),
)

-- For every message the SHA-512 digest has 64 elements, and each of them is a byte.
pub sha512_raw-bytes :
    (message : List ℕ)
    → (length (sha512_raw message) ≡ 64) × ((t : ℕ) → get_or (sha512_raw message) t 0 < 256)
unfolding sha512_raw
sha512_raw-bytes message = (
  length-sha512_final (sha512_update sha512_init message),
  get_or-sha512_final (sha512_update sha512_init message),
)
