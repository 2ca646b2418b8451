-- ===== src/Sha2/Spec.antt =====
-- SHA-256 and SHA-512 as FIPS 180-4 states them over the compression functions: the message with its
-- padding, cut into blocks of big-endian words. The functions of ios/Classes/sha2.c refine it.
use ether_flutter_plugin.Prelude.{
  ℕ, zero, suc, ◌+◌, ◌-◌, ◌*◌, ◌/◌, ◌%◌, ◌^◌, ◌<◌, ◌≡◌, List, [], ◌∷◌, ◌++◌, length, take, drop,
  replicate,
}
use ether_flutter_plugin.Prelude.Bytes.{be_bytes, be_words}
use ether_flutter_plugin.Sha2.BigEndian.{be_string}
use ether_flutter_plugin.Sha2.Constants.{sha256_initial_hash_value, sha512_initial_hash_value}
use ether_flutter_plugin.Sha2.Rounds.{sha256_transform, sha512_transform}
pub mod Refine256
pub mod Refine512

-- n blocks of `size` bytes, one after the other.
unfoldable pub hash_blocks : (List ℕ → List ℕ → List ℕ) → ℕ → ℕ → List ℕ → List ℕ → List ℕ
hash_blocks compress size zero state bytes = state
hash_blocks compress size (suc n) state bytes =
    hash_blocks compress size n (compress state (take size bytes)) (drop size bytes)

-- A 1 bit, the fewest zeros that fill the block, and the count of bits in 64 bits.
unfoldable pub padded256 : List ℕ → List ℕ
padded256 message =
    message
    ++ ((0x80 ∷ replicate ((119 - length message % 64) % 64) 0) ++ be_bytes 8 (8 * length message))

unfoldable pub spec256 : List ℕ → List ℕ
unfolding hash_blocks padded256 sha256_transform
spec256 message =
    let bytes = padded256 message in
    be_string 4 (
      hash_blocks (λ state b. sha256_transform state (be_words 4 16 b)) 64 (length bytes / 64)
        sha256_initial_hash_value bytes)

-- The count has 128 bits here.
unfoldable pub padded512 : List ℕ → List ℕ
padded512 message =
    message
    ++ ((0x80 ∷ replicate ((239 - length message % 128) % 128) 0)
        ++ (replicate 8 0 ++ be_bytes 8 (8 * length message)))

unfoldable pub spec512 : List ℕ → List ℕ
unfolding hash_blocks padded512 sha512_transform
spec512 message =
    let bytes = padded512 message in
    be_string 8 (
      hash_blocks (λ state b. sha512_transform state (be_words 8 16 b)) 128 (length bytes / 128)
        sha512_initial_hash_value bytes)
