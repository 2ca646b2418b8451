-- ===== src/Bignum/Bytes.antt =====
-- Conversions of ios/Classes/bignum.c between bytes, machine words and limbs.
use ether_flutter_plugin.Prelude.{
  ℕ, zero, suc, ◌+◌, ◌-◌, ◌*◌, ◌^◌, List, [], ◌∷◌, ◌++◌, bit_and, bit_or, u8, u32, u64, ◌<<<◌,
  ◌>>>◌, get_or, drop, replicate,
}
use ether_flutter_plugin.Bignum.Value.{Bignum256}
pub mod Words
pub mod Read
pub mod Write

unfoldable pub read_be : List ℕ → ℕ
read_be bytes =
    bit_or
      (bit_or (bit_or (u32 (get_or bytes 0 0 <<< 24)) (u32 (get_or bytes 1 0 <<< 16)))
        (u32 (get_or bytes 2 0 <<< 8)))
      (get_or bytes 3 0)

-- The four bytes that `write_be` stores.
unfoldable pub write_be : ℕ → List ℕ
write_be x = u8 (x >>> 24) ∷ u8 (x >>> 16) ∷ u8 (x >>> 8) ∷ u8 x ∷ []

unfoldable pub read_le : List ℕ → ℕ
read_le bytes =
    bit_or
      (bit_or (bit_or (u32 (get_or bytes 3 0 <<< 24)) (u32 (get_or bytes 2 0 <<< 16)))
        (u32 (get_or bytes 1 0 <<< 8)))
      (get_or bytes 0 0)

unfoldable pub write_le : ℕ → List ℕ
write_le x = u8 x ∷ u8 (x >>> 8) ∷ u8 (x >>> 16) ∷ u8 (x >>> 24) ∷ []

-- The loop of `bn_read_be` and `bn_read_le` from round i on, which differ in where `limb` is read.
unfoldable pub read_limbs : (ℕ → ℕ) → ℕ → ℕ → ℕ → Bignum256
read_limbs limb zero i temp = temp ∷ []
read_limbs limb (suc left) i temp =
    bit_and (bit_or temp (u32 (limb i <<< (2 * i)))) 0x3FFFFFFF
    ∷ read_limbs limb left (i + 1) (limb i >>> (30 - 2 * i))

unfoldable pub bn_read_be : List ℕ → Bignum256
unfolding read_limbs read_be
bn_read_be in_number = read_limbs (λ i. read_be (drop ((7 - i) * 4) in_number)) 8 0 0

unfoldable pub bn_read_le : List ℕ → Bignum256
unfolding read_limbs read_le
bn_read_le in_number = read_limbs (λ i. read_le (drop (i * 4) in_number)) 8 0 0

-- The loop of `bn_write_be` from round i on: the words that it hands to `write_be`, in order.
unfoldable pub write_words : Bignum256 → ℕ → ℕ → ℕ → List ℕ
write_words val zero i temp = []
write_words val (suc left) i temp =
    let limb = get_or val (7 - i) 0 in
    bit_or temp (limb >>> (14 - 2 * i)) ∷ write_words val left (i + 1) (u32 (limb <<< (18 + 2 * i)))

-- Word i goes to byte 4 i.
unfoldable pub store_be : List ℕ → List ℕ
store_be [] = []
store_be (w ∷ ws) = write_be w ++ store_be ws

-- Word i goes to byte 4 (7 - i), so that the last word comes first.
unfoldable pub store_le : List ℕ → List ℕ
store_le [] = []
store_le (w ∷ ws) = store_le ws ++ write_le w

unfoldable pub bn_write_be : Bignum256 → List ℕ
unfolding write_words store_be write_be
bn_write_be in_number = store_be (write_words in_number 8 0 (u32 (get_or in_number 8 0 <<< 16)))

unfoldable pub bn_write_le : Bignum256 → List ℕ
unfolding write_words store_le write_le
bn_write_le in_number = store_le (write_words in_number 8 0 (u32 (get_or in_number 8 0 <<< 16)))

unfoldable pub bn_read_uint32 : ℕ → Bignum256
bn_read_uint32 n = bit_and n 0x3FFFFFFF ∷ n >>> 30 ∷ replicate 7 0

unfoldable pub bn_read_uint64 : ℕ → Bignum256
bn_read_uint64 n =
    bit_and n 0x3FFFFFFF
    ∷ bit_and (n >>> 30) 0x3FFFFFFF
    ∷ bit_and (n >>> 30 >>> 30) 0x3FFFFFFF
    ∷ replicate 6 0

unfoldable pub bn_write_uint32 : Bignum256 → ℕ
bn_write_uint32 val = bit_or (get_or val 0 0) (u32 (get_or val 1 0 <<< 30))

unfoldable pub bn_write_uint64 : Bignum256 → ℕ
bn_write_uint64 val =
    let tmp = bit_or (u64 (get_or val 2 0 <<< 30)) (get_or val 1 0) in
    bit_or (u64 (tmp <<< 30)) (get_or val 0 0)
