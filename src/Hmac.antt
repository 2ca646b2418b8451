-- ===== src/Hmac.antt =====
-- ios/Classes/hmac.c on the contexts of sha2.c.
use ether_flutter_plugin.Prelude.{ℕ, List, map, bit_xor, length, replicate, ltb, if◌then◌else◌}
use ether_flutter_plugin.Sha2.Memory.{overlay, load_words, reverse32, reverse64}
use ether_flutter_plugin.Sha2.Constants.{sha256_initial_hash_value, sha512_initial_hash_value}
use ether_flutter_plugin.Sha2.Rounds.{sha256_transform, sha512_transform}
use ether_flutter_plugin.Sha2.Sha256.{
  Sha256Context, sha256_init, sha256_update, sha256_final, sha256_raw,
}
use ether_flutter_plugin.Sha2.Sha512.{
  Sha512Context, sha512_init, sha512_update, sha512_final, sha512_raw,
}

-- A key of at most a block, or the digest of a longer one, in a block of zeros.
unfoldable pub pad_key256 : List ℕ → List ℕ
unfolding overlay sha256_raw
pad_key256 key = overlay (replicate 64 0) 0 (if ltb 64 (length key) then sha256_raw key else key)

unfoldable pub pad_key512 : List ℕ → List ℕ
unfolding overlay sha512_raw
pad_key512 key = overlay (replicate 128 0) 0 (if ltb 128 (length key) then sha512_raw key else key)

pub record HmacSha256Context : Type 0 where
  pub o_key_pad : List ℕ
  pub ctx : Sha256Context

unfoldable pub hmac_sha256_init : List ℕ → HmacSha256Context
unfolding pad_key256 sha256_init sha256_update
hmac_sha256_init key = record {
  o_key_pad = map (λ b. bit_xor b 0x5c) (pad_key256 key);
  ctx = sha256_update sha256_init (map (λ b. bit_xor b 0x36) (pad_key256 key));
}

unfoldable pub hmac_sha256_update : HmacSha256Context → List ℕ → HmacSha256Context
unfolding sha256_update
hmac_sha256_update hctx msg = record hctx { ctx = sha256_update hctx.ctx msg }

-- The context is wiped afterwards.
unfoldable pub hmac_sha256_final : HmacSha256Context → List ℕ
unfolding sha256_init sha256_update sha256_final
hmac_sha256_final hctx =
    let hash = sha256_final hctx.ctx in
    sha256_final (sha256_update (sha256_update sha256_init hctx.o_key_pad) hash)

unfoldable pub hmac_sha256 : List ℕ → List ℕ → List ℕ
unfolding hmac_sha256_init hmac_sha256_update hmac_sha256_final
hmac_sha256 key msg = hmac_sha256_final (hmac_sha256_update (hmac_sha256_init key) msg)

pub record HmacSha512Context : Type 0 where
  pub o_key_pad : List ℕ
  pub ctx : Sha512Context

unfoldable pub hmac_sha512_init : List ℕ → HmacSha512Context
unfolding pad_key512 sha512_init sha512_update
hmac_sha512_init key = record {
  o_key_pad = map (λ b. bit_xor b 0x5c) (pad_key512 key);
  ctx = sha512_update sha512_init (map (λ b. bit_xor b 0x36) (pad_key512 key));
}

unfoldable pub hmac_sha512_update : HmacSha512Context → List ℕ → HmacSha512Context
unfolding sha512_update
hmac_sha512_update hctx msg = record hctx { ctx = sha512_update hctx.ctx msg }

unfoldable pub hmac_sha512_final : HmacSha512Context → List ℕ
unfolding sha512_init sha512_update sha512_final
hmac_sha512_final hctx =
    let hash = sha512_final hctx.ctx in
    sha512_final (sha512_update (sha512_update sha512_init hctx.o_key_pad) hash)

unfoldable pub hmac_sha512 : List ℕ → List ℕ → List ℕ
unfolding hmac_sha512_init hmac_sha512_update hmac_sha512_final
hmac_sha512 key msg = hmac_sha512_final (hmac_sha512_update (hmac_sha512_init key) msg)

-- The states behind the two padded keys.
pub record Prepared : Type 0 where
  pub opad_digest : List ℕ
  pub ipad_digest : List ℕ

unfoldable pub hmac_sha256_prepare : List ℕ → Prepared
unfolding pad_key256 load_words reverse32 sha256_transform
hmac_sha256_prepare key =
    let buf = map reverse32 (load_words 4 16 (pad_key256 key)) in
    record {
      opad_digest =
          sha256_transform sha256_initial_hash_value (map (λ d. bit_xor d 0x5c5c5c5c) buf);
      ipad_digest =
          sha256_transform sha256_initial_hash_value (map (λ d. bit_xor d 0x36363636) buf);
    }

unfoldable pub hmac_sha512_prepare : List ℕ → Prepared
unfolding pad_key512 load_words reverse64 sha512_transform
hmac_sha512_prepare key =
    let buf = map reverse64 (load_words 8 16 (pad_key512 key)) in
    record {
      opad_digest =
          sha512_transform sha512_initial_hash_value (map (λ d. bit_xor d 0x5c5c5c5c5c5c5c5c) buf);
      ipad_digest =
          sha512_transform sha512_initial_hash_value (map (λ d. bit_xor d 0x3636363636363636) buf);
    }
