-- ===== src/Sha2/Spec/Refine256.antt =====
-- `sha256_Init`, `sha256_Update` and `sha256_Final` of ios/Classes/sha2.c implement SHA-256.
use ether_flutter_plugin.Prelude.{
  ℕ, zero, suc, ◌+◌, ◌-◌, ◌*◌, ◌/◌, ◌%◌, ◌^◌, ◌<◌, ◌≡◌, ◌∙◌, inl, inr, refl, sym, ap, ap₂, List, [],
  ◌∷◌, ◌++◌, map, bit_and, u32, ◌>>>◌, length, take, drop, replicate, arith, length-append,
  length-take, length-drop, length-replicate, append-nil, Bool-cases, ltb,
}
use mathlib.Core.List.{map-append}
use ether_flutter_plugin.Prelude.Bits.{bit_and_mask}
use ether_flutter_plugin.Prelude.Bytes.{
  IsBytes, be_value, be_bytes, be_words, AllBelow, IsBytes-take, IsBytes-drop, IsBytes-append,
  IsBytes-replicate, IsBytes-be_bytes, length-be_bytes,
}
use ether_flutter_plugin.Sha2.Constants.{sha256_initial_hash_value}
use ether_flutter_plugin.Sha2.Memory.{reverse32, load_words, store_words}
use ether_flutter_plugin.Sha2.Rounds.{sha256_transform, transform, logic256}
use ether_flutter_plugin.Sha2.Stream.Absorb.{absorb, Absorbed}
use ether_flutter_plugin.Sha2.Sha256.{
  engine256, Sha256Context, sha256_init, sha256_last, sha256_final, last_block256,
  reversed_words256,
}
use ether_flutter_plugin.Sha2.Pieces.{engine256-IsEngine, joined, feed256, feed256-sha256_init}
use ether_flutter_plugin.Sha2.Padding.{finish, PutsLength, finish_one, finish_two}
use ether_flutter_plugin.Sha2.BigEndian.{map-load_words32, store_words32, load_words_append}
use ether_flutter_plugin.Sha2.Spec.{hash_blocks, padded256, spec256}

abbrev compress : List ℕ → List ℕ → List ℕ
compress state b = sha256_transform state (be_words 4 16 b)

reversed_words : (b : List ℕ) → length b ≡ 64 → IsBytes b → reversed_words256 b ≡ be_words 4 16 b
unfolding reversed_words256
reversed_words b e h = map-load_words32 16 b e h

absorb-hash_blocks :
    (n : ℕ) (state bytes : List ℕ)
    → length bytes ≡ n * 64
    → IsBytes bytes
    → absorb engine256 n state bytes ≡ hash_blocks compress 64 n state bytes
unfolding absorb hash_blocks engine256
absorb-hash_blocks zero state bytes e h = refl
absorb-hash_blocks (suc n) state bytes e h =
    let words : reversed_words256 (take 64 bytes) ≡ be_words 4 16 (take 64 bytes) =
      reversed_words (take 64 bytes) (length-take 64 bytes ∙ omega arith)
        (IsBytes-take 64 bytes h) in
    ap (λ ws. absorb engine256 n (sha256_transform state ws) (drop 64 bytes)) words
    ∙ absorb-hash_blocks n (compress state (take 64 bytes)) (drop 64 bytes)
        (length-drop 64 bytes ∙ omega arith) (IsBytes-drop 64 bytes h)

-- The count of bits, the high word first.
length_words :
    (n : ℕ)
    → map reverse32 (load_words 4 2 (be_bytes 8 n)) ≡ u32 (n >>> 32) ∷ bit_and n 0xffffffff ∷ []
length_words n =
    let high : be_value 0 (take 4 (be_bytes 8 n)) ≡ u32 (n >>> 32) = omega arith in
    let low : be_value 0 (take 4 (drop 4 (be_bytes 8 n))) ≡ bit_and n 0xffffffff =
      omega (arith, bit_and_mask 32 n) in
    map-load_words32 2 (be_bytes 8 n) refl (IsBytes-be_bytes 8 n) ∙ ap₂ (λ a b. a ∷ b ∷ []) high low

last_block-append :
    (state : List ℕ) (n : ℕ) (bytes stale : List ℕ)
    → length bytes ≡ 56
    → last_block256 state n (bytes ++ stale)
      ≡ sha256_transform state (reversed_words256 (bytes ++ be_bytes 8 n))
unfolding last_block256 reversed_words256
last_block-append state n bytes stale e =
    let size : length bytes ≡ 14 * 4 = omega arith in
    let first : load_words 4 14 (bytes ++ stale) ≡ load_words 4 14 bytes =
      load_words_append 4 14 0 bytes stale size ∙ append-nil (load_words 4 14 bytes) in
    ap (sha256_transform state) (
      ap₂ (λ ws t. map reverse32 ws ++ t) first (sym (length_words n))
      ∙ sym (map-append reverse32 (load_words 4 14 bytes) (load_words 4 2 (be_bytes 8 n)))
      ∙ ap (map reverse32) (sym (load_words_append 4 14 2 bytes (be_bytes 8 n) size)))

abbrev Fine : ℕ → Type 0
Fine n = Unit {0}

puts : unfold engine256 in PutsLength engine256 56 last_block256 (be_bytes 8) Fine
unfolding engine256
puts = record {
  short_lem = omega arith;
  length-trailer = λ n. refl;
  last_lem = λ state n bytes stale e fine. last_block-append state n bytes stale e;
}

sha256_last-finish :
    (c : Sha256Context)
    → sha256_last c ≡ unfold engine256 in finish engine256 56 last_block256 (be_bytes 8) Fine c
unfolding sha256_last engine256
sha256_last-finish c = refl

length-padded256 :
    (input : List ℕ)
    → length (padded256 input) ≡ length input + (9 + (119 - length input % 64) % 64)
unfolding padded256
length-padded256 input =
    let pad : ℕ = (119 - length input % 64) % 64 in
    let trailer : List ℕ = be_bytes 8 (8 * length input) in
    length-append input ((0x80 ∷ replicate pad 0) ++ trailer)
    ∙ omega (
      arith,
      length-append (0x80 ∷ replicate pad 0) trailer,
      length-replicate {A = ℕ} pad 0,
      length-be_bytes 8 (8 * length input),
    )

padded256-IsBytes : (input : List ℕ) → IsBytes input → IsBytes (padded256 input)
unfolding padded256
padded256-IsBytes input h =
    let pad : ℕ = (119 - length input % 64) % 64 in
    IsBytes-append input ((0x80 ∷ replicate pad 0) ++ be_bytes 8 (8 * length input)) h (
      IsBytes-append (0x80 ∷ replicate pad 0) (be_bytes 8 (8 * length input))
        (omega arith, IsBytes-replicate pad 0 (omega arith))
        (IsBytes-be_bytes 8 (8 * length input)))

bitcount_lem :
    (input : List ℕ) (c : Sha256Context)
    → Absorbed engine256 sha256_initial_hash_value input c
    → length input < 2 ^ 61
    → unfold engine256 in c.bitcount ≡ 8 * length input
unfolding engine256
bitcount_lem input c s h = s.count_lem ∙ omega arith

-- The bytes that the finish adds are the padding.
padding_lem :
    (input : List ℕ) (count pad : ℕ)
    → count ≡ 8 * length input
    → pad ≡ (119 - length input % 64) % 64
    → input ++ (0x80 ∷ replicate pad 0 ++ be_bytes 8 count) ≡ padded256 input
unfolding padded256
padding_lem input count pad e k = ap₂ (λ n z. input ++ (0x80 ∷ replicate z 0 ++ be_bytes 8 n)) e k

-- The last state is that of the padded message.
sha256_last-padded256 :
    (input : List ℕ) (c : Sha256Context)
    → Absorbed engine256 sha256_initial_hash_value input c
    → length input < 2 ^ 61
    → sha256_last c
      ≡ absorb engine256 (length (padded256 input) / 64) sha256_initial_hash_value (padded256 input)
unfolding engine256
sha256_last-padded256 input c s h =
    let r : ℕ = length s.rest in
    let pad : ℕ = (119 - length input % 64) % 64 in
    let total : length input ≡ s.blocks * 64 + r =
      ap length s.split ∙ length-append s.full s.rest ∙ omega (arith, s.length-full) in
    let size = length-padded256 input in
    let bytes = padding_lem input c.bitcount pad (bitcount_lem input c s h) refl in
    let short : r < 64 = s.short in
    sha256_last-finish c ∙ elim (Bool-cases (ltb 56 (r + 1))) [
      | inl long ↦
          let place : 55 < r = ground arith in
          let count : suc (suc s.blocks) ≡ length (padded256 input) / 64 = omega arith in
          finish_two engine256 56 last_block256 (be_bytes 8) Fine engine256-IsEngine puts
            sha256_initial_hash_value input c s pad h tt (omega arith) (omega arith)
          ∙ ap₂ (λ n b. absorb engine256 n sha256_initial_hash_value b) count bytes
      | inr fits ↦
          let place : r < 56 = ground arith in
          let count : suc s.blocks ≡ length (padded256 input) / 64 = omega arith in
          finish_one engine256 56 last_block256 (be_bytes 8) Fine engine256-IsEngine puts
            sha256_initial_hash_value input c s pad h tt (omega arith)
          ∙ ap₂ (λ n b. absorb engine256 n sha256_initial_hash_value b) count bytes
    ]

mod32 : (n : ℕ) → n % 2 ^ 32 < 2 ^ 32
mod32 n = omega arith

sha256_transform-AllBelow : (state b : List ℕ) → AllBelow (2 ^ 32) (sha256_transform state b)
unfolding sha256_transform transform logic256
sha256_transform-AllBelow state b =
    (mod32 _, (mod32 _, (mod32 _, (mod32 _, (mod32 _, (mod32 _, (mod32 _, (mod32 _, tt))))))))

hash_blocks-AllBelow :
    (n : ℕ) (state bytes : List ℕ)
    → AllBelow (2 ^ 32) state
    → AllBelow (2 ^ 32) (hash_blocks compress 64 n state bytes)
unfolding hash_blocks
hash_blocks-AllBelow zero state bytes h = h
hash_blocks-AllBelow (suc n) state bytes h =
    hash_blocks-AllBelow n (compress state (take 64 bytes)) (drop 64 bytes)
      (sha256_transform-AllBelow state (be_words 4 16 (take 64 bytes)))

initial-AllBelow : AllBelow (2 ^ 32) sha256_initial_hash_value
initial-AllBelow = omega arith

final_digest :
    (input : List ℕ) (c : Sha256Context)
    → Absorbed engine256 sha256_initial_hash_value input c
    → length input < 2 ^ 61
    → IsBytes input
    → sha256_final c ≡ spec256 input
unfolding sha256_final spec256
final_digest input c s h bytes =
    let n : ℕ = length (padded256 input) / 64 in
    let whole : length (padded256 input) ≡ n * 64 = omega (arith, length-padded256 input) in
    let state : sha256_last c
        ≡ hash_blocks compress 64 n sha256_initial_hash_value (padded256 input) =
      sha256_last-padded256 input c s h
      ∙ absorb-hash_blocks n sha256_initial_hash_value (padded256 input) whole
          (padded256-IsBytes input bytes) in
    ap (λ ws. store_words 4 (map reverse32 ws)) state
    ∙ store_words32 (hash_blocks compress 64 n sha256_initial_hash_value (padded256 input))
        (hash_blocks-AllBelow n sha256_initial_hash_value (padded256 input) initial-AllBelow)

-- For a message of bytes, shorter than 2^61, and cut into any pieces, `sha256_final` after
-- `sha256_init` and a `sha256_update` for each piece is the SHA-256 digest of the message.
pub sha256_final-spec256 :
    (pieces : List (List ℕ))
    → length (joined pieces) < 2 ^ 61
    → IsBytes (joined pieces)
    → sha256_final (feed256 sha256_init pieces) ≡ spec256 (joined pieces)
sha256_final-spec256 pieces h bytes =
    final_digest (joined pieces) (feed256 sha256_init pieces) (feed256-sha256_init pieces h) h bytes
