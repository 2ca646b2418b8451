-- ===== src/Sha2/Sha256.antt =====
-- The SHA-256 functions of ios/Classes/sha2.c. A digest buffer is always passed.
use ether_flutter_plugin.Prelude.{
  ℕ, ◌+◌, ◌-◌, ◌%◌, List, [], ◌∷◌, ◌++◌, map, bit_and, u32, u64, ◌>>>◌, replicate, ltb,
  if◌then◌else◌,
}
use ether_flutter_plugin.Sha2.Constants.{sha256_initial_hash_value}
use ether_flutter_plugin.Sha2.Rounds.{sha256_transform}
use ether_flutter_plugin.Sha2.Memory.{reverse32, store_words, load_words, overlay}
use ether_flutter_plugin.Sha2.Stream.{Engine, Context, update}

-- `buffer` seen as sixteen words, each reversed.
unfoldable pub reversed_words256 : List ℕ → List ℕ
unfolding reverse32 load_words
reversed_words256 buffer = map reverse32 (load_words 4 16 buffer)

-- `uint64_t bitcount`.
unfoldable pub engine256 : Engine
unfolding reversed_words256 store_words sha256_transform
engine256 = record {
  Count = ℕ;
  block = 64;
  start = 0;
  add_bits = λ count bits. u64 (count + bits);
  used = λ count. (count >>> 3) % 64;
  process = λ state buffer. sha256_transform state (reversed_words256 buffer);
  reversed = λ buffer. store_words 4 (reversed_words256 buffer);
}

abbrev pub Sha256Context : Type 0
Sha256Context = Context engine256

unfoldable pub sha256_init : Sha256Context
unfolding engine256
sha256_init = record { state = sha256_initial_hash_value; bitcount = 0; buffer = replicate 64 0 }

unfoldable pub sha256_update : Sha256Context → List ℕ → Sha256Context
unfolding update engine256
sha256_update context input = update engine256 context input

-- The last transform: words 0 to 13 are reversed, and the bit count is stored in words 14 and 15.
unfoldable pub last_block256 : List ℕ → ℕ → List ℕ → List ℕ
unfolding load_words reverse32 sha256_transform
last_block256 state bitcount buffer = sha256_transform state (
    map reverse32 (load_words 4 14 buffer)
    ++ (u32 (bitcount >>> 32) ∷ bit_and bitcount 0xffffffff ∷ []))

-- The state after the padding bit, zeros to the length field, one more transform first if the length
-- does not fit, and the last transform.
unfoldable pub sha256_last : Sha256Context → List ℕ
unfolding engine256 last_block256 overlay store_words
sha256_last context =
    let usedspace = (context.bitcount >>> 3) % 64 in
    let marked = overlay context.buffer usedspace (0x80 ∷ []) in
    let usedspace' = usedspace + 1 in
    if ltb 56 usedspace'
    then (let filled = overlay marked usedspace' (replicate (64 - usedspace') 0) in
        let state' = sha256_transform context.state (reversed_words256 filled) in
        last_block256 state' context.bitcount
          (overlay (store_words 4 (reversed_words256 filled)) 0 (replicate 56 0)))
    else last_block256 context.state context.bitcount
        (overlay marked usedspace' (replicate (56 - usedspace') 0))

-- The digest: the state words reversed. The context is wiped afterwards.
unfoldable pub sha256_final : Sha256Context → List ℕ
unfolding sha256_last store_words reverse32
sha256_final context = store_words 4 (map reverse32 (sha256_last context))

unfoldable pub sha256_raw : List ℕ → List ℕ
unfolding sha256_init sha256_update sha256_final
sha256_raw message = sha256_final (sha256_update sha256_init message)
