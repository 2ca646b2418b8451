-- ===== src/Sha2/Sha512.antt =====
-- The SHA-512 functions of ios/Classes/sha2.c. A digest buffer is always passed.
use ether_flutter_plugin.Prelude.{
  ℕ, ◌+◌, ◌-◌, ◌%◌, List, [], ◌∷◌, ◌++◌, map, u64, ◌>>>◌, replicate, ltb, if◌then◌else◌,
}
use ether_flutter_plugin.Sha2.Constants.{sha512_initial_hash_value}
use ether_flutter_plugin.Sha2.Rounds.{sha512_transform}
use ether_flutter_plugin.Sha2.Memory.{reverse64, store_words, load_words, overlay}
use ether_flutter_plugin.Sha2.Stream.{Engine, Context, update}

-- `uint64_t bitcount[2]`, the low word first.
pub record BitCount128 : Type 0 where
  pub low : ℕ
  pub high : ℕ

-- The macro ADDINC128: the high word takes the carry.
unfoldable pub addinc128 : BitCount128 → ℕ → BitCount128
addinc128 w n =
    let low' = u64 (w.low + u64 n) in
    record { low = low'; high = if ltb low' (u64 n) then u64 (w.high + 1) else w.high }

-- `buffer` seen as sixteen words, each reversed.
unfoldable pub reversed_words512 : List ℕ → List ℕ
unfolding reverse64 load_words
reversed_words512 buffer = map reverse64 (load_words 8 16 buffer)

unfoldable pub engine512 : Engine
unfolding reversed_words512 store_words sha512_transform addinc128
engine512 = record {
  Count = BitCount128;
  block = 128;
  start = record { low = 0; high = 0 };
  add_bits = addinc128;
  used = λ count. (count.low >>> 3) % 128;
  process = λ state buffer. sha512_transform state (reversed_words512 buffer);
  reversed = λ buffer. store_words 8 (reversed_words512 buffer);
}

abbrev pub Sha512Context : Type 0
Sha512Context = Context engine512

unfoldable pub sha512_init : Sha512Context
unfolding engine512
sha512_init = record {
  state = sha512_initial_hash_value;
  bitcount = record { low = 0; high = 0 };
  buffer = replicate 128 0;
}

unfoldable pub sha512_update : Sha512Context → List ℕ → Sha512Context
unfolding update engine512
sha512_update context input = update engine512 context input

-- The end of `sha512_Last`: words 0 to 13 are reversed, words 14 and 15 hold the bit count.
unfoldable pub last_block512 : List ℕ → BitCount128 → List ℕ → List ℕ
unfolding load_words reverse64 sha512_transform
last_block512 state bitcount buffer =
    sha512_transform state
      (map reverse64 (load_words 8 14 buffer) ++ (bitcount.high ∷ bitcount.low ∷ []))

-- The state that `sha512_Last` leaves.
unfoldable pub sha512_last : Sha512Context → List ℕ
unfolding engine512 last_block512 overlay store_words
sha512_last context =
    let usedspace = (context.bitcount.low >>> 3) % 128 in
    let marked = overlay context.buffer usedspace (0x80 ∷ []) in
    let usedspace' = usedspace + 1 in
    if ltb 112 usedspace'
    then (let filled = overlay marked usedspace' (replicate (128 - usedspace') 0) in
        let state' = sha512_transform context.state (reversed_words512 filled) in
        last_block512 state' context.bitcount
          (overlay (store_words 8 (reversed_words512 filled)) 0 (replicate 112 0)))
    else last_block512 context.state context.bitcount
        (overlay marked usedspace' (replicate (112 - usedspace') 0))

-- The digest; the context is wiped afterwards.
unfoldable pub sha512_final : Sha512Context → List ℕ
unfolding sha512_last store_words reverse64
sha512_final context = store_words 8 (map reverse64 (sha512_last context))

unfoldable pub sha512_raw : List ℕ → List ℕ
unfolding sha512_init sha512_update sha512_final
sha512_raw message = sha512_final (sha512_update sha512_init message)
