-- ===== src/Sha2/Memory.antt =====
-- Words in little-endian memory: the macros REVERSE32 and REVERSE64 of ios/Classes/sha2.h, `memcpy`
-- and `memset` on a byte array.
use ether_flutter_plugin.Prelude.{
  ℕ, zero, suc, ◌+◌, ◌*◌, List, [], ◌∷◌, ◌++◌, bit_and, bit_or, u8, u32, u64, ◌<<<◌, ◌>>>◌, take,
  drop, length,
}

unfoldable pub reverse32 : ℕ → ℕ
reverse32 w =
    let tmp = bit_or (w >>> 16) (u32 (w <<< 16)) in
    bit_or (bit_and tmp 0xff00ff00 >>> 8) (u32 (bit_and tmp 0x00ff00ff <<< 8))

unfoldable pub reverse64 : ℕ → ℕ
reverse64 w =
    let tmp = bit_or (w >>> 32) (u64 (w <<< 32)) in
    let tmp' =
      bit_or (bit_and tmp 0xff00ff00ff00ff00 >>> 8) (u64 (bit_and tmp 0x00ff00ff00ff00ff <<< 8)) in
    bit_or (bit_and tmp' 0xffff0000ffff0000 >>> 16) (u64 (bit_and tmp' 0x0000ffff0000ffff <<< 16))

-- The bytes of a word, the lowest first.
unfoldable pub store_word : ℕ → ℕ → List ℕ
store_word zero w = []
store_word (suc n) w = u8 w ∷ store_word n (w >>> 8)

unfoldable pub store_words : ℕ → List ℕ → List ℕ
unfolding store_word
store_words n [] = []
store_words n (w ∷ ws) = store_word n w ++ store_words n ws

unfoldable pub load_word : List ℕ → ℕ
load_word [] = 0
load_word (b ∷ bs) = b + 256 * load_word bs

-- `count` words of n bytes each.
unfoldable pub load_words : ℕ → ℕ → List ℕ → List ℕ
unfolding load_word
load_words n zero bytes = []
load_words n (suc count) bytes = load_word (take n bytes) ∷ load_words n count (drop n bytes)

-- `memcpy(buffer + offset, source, ...)`.
unfoldable pub overlay : List ℕ → ℕ → List ℕ → List ℕ
overlay buffer offset source =
    take offset buffer ++ (source ++ drop (offset + length source) buffer)
