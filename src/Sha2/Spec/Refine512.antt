-- ===== src/Sha2/Spec/Refine512.antt =====
-- `sha512_Init`, `sha512_Update` and `sha512_Final` of ios/Classes/sha2.c implement SHA-512.
use ether_flutter_plugin.Prelude.{
  ℕ, zero, suc, ◌+◌, ◌-◌, ◌*◌, ◌/◌, ◌%◌, ◌^◌, ◌<◌, ◌≡◌, ◌∙◌, inl, inr, refl, sym, ap, ap₂, List, [],
  ◌∷◌, ◌++◌, map, ◌<<<◌, length, take, drop, replicate, arith, length-append, length-take,
  length-drop, length-replicate, append-nil, Bool-cases, ltb,
}
use mathlib.Core.List.{map-append}
use ether_flutter_plugin.Prelude.Bytes.{
  IsBytes, be_value, be_bytes, be_words, AllBelow, IsBytes-take, IsBytes-drop, IsBytes-append,
  IsBytes-replicate, IsBytes-be_bytes, length-be_bytes,
}
use ether_flutter_plugin.Sha2.Constants.{sha512_initial_hash_value}
use ether_flutter_plugin.Sha2.Memory.{reverse64, load_words, store_words}
use ether_flutter_plugin.Sha2.Rounds.{sha512_transform, transform, logic512}
use ether_flutter_plugin.Sha2.Stream.Absorb.{absorb, Absorbed}
use ether_flutter_plugin.Sha2.Sha512.{
  BitCount128, addinc128, engine512, Sha512Context, sha512_init, sha512_last, sha512_final,
  last_block512, reversed_words512,
}
use ether_flutter_plugin.Sha2.Pieces.{engine512-IsEngine, joined, feed512, feed512-sha512_init}
use ether_flutter_plugin.Sha2.Padding.{finish, PutsLength, finish_one, finish_two}
use ether_flutter_plugin.Sha2.BigEndian.{map-load_words64, store_words64, load_words_append}
use ether_flutter_plugin.Sha2.Spec.{hash_blocks, padded512, spec512}

abbrev compress : List ℕ → List ℕ → List ℕ
compress state b = sha512_transform state (be_words 8 16 b)

reversed_words : (b : List ℕ) → length b ≡ 128 → IsBytes b → reversed_words512 b ≡ be_words 8 16 b
unfolding reversed_words512
reversed_words b e h = map-load_words64 16 b e h

absorb-hash_blocks :
    (n : ℕ) (state bytes : List ℕ)
    → length bytes ≡ n * 128
    → IsBytes bytes
    → absorb engine512 n state bytes ≡ hash_blocks compress 128 n state bytes
unfolding absorb hash_blocks engine512
absorb-hash_blocks zero state bytes e h = refl
absorb-hash_blocks (suc n) state bytes e h =
    let words : reversed_words512 (take 128 bytes) ≡ be_words 8 16 (take 128 bytes) =
      reversed_words (take 128 bytes) (length-take 128 bytes ∙ omega arith)
        (IsBytes-take 128 bytes h) in
    ap (λ ws. absorb engine512 n (sha512_transform state ws) (drop 128 bytes)) words
    ∙ absorb-hash_blocks n (compress state (take 128 bytes)) (drop 128 bytes)
        (length-drop 128 bytes ∙ omega arith) (IsBytes-drop 128 bytes h)

-- The length as 16 bytes.
abbrev trailer : BitCount128 → List ℕ
trailer n = be_bytes 8 n.high ++ be_bytes 8 n.low

-- The count has two 64-bit words.
abbrev Fine : BitCount128 → Type 0
Fine n = (n.high < 2 ^ 64) × (n.low < 2 ^ 64)

length-trailer : (n : BitCount128) → length (trailer n) ≡ 16
length-trailer n =
    length-append (be_bytes 8 n.high) (be_bytes 8 n.low)
    ∙ omega (arith, length-be_bytes 8 n.high, length-be_bytes 8 n.low)

-- The count of bits, the high word first.
length_words :
    (n : BitCount128) → Fine n → map reverse64 (load_words 8 2 (trailer n)) ≡ n.high ∷ n.low ∷ []
length_words n fine =
    let high : be_value 0 (take 8 (trailer n)) ≡ n.high = omega (arith, fine.0) in
    let low : be_value 0 (take 8 (drop 8 (trailer n))) ≡ n.low = omega (arith, fine.1) in
    map-load_words64 2 (trailer n) (length-trailer n) (
      IsBytes-append (be_bytes 8 n.high) (be_bytes 8 n.low) (IsBytes-be_bytes 8 n.high)
        (IsBytes-be_bytes 8 n.low))
    ∙ ap₂ (λ a b. a ∷ b ∷ []) high low

last_block-append :
    (state : List ℕ) (n : BitCount128) (bytes stale : List ℕ)
    → length bytes ≡ 112
    → Fine n
    → last_block512 state n (bytes ++ stale)
      ≡ sha512_transform state (reversed_words512 (bytes ++ trailer n))
unfolding last_block512 reversed_words512
last_block-append state n bytes stale e fine =
    let size : length bytes ≡ 14 * 8 = omega arith in
    let first : load_words 8 14 (bytes ++ stale) ≡ load_words 8 14 bytes =
      load_words_append 8 14 0 bytes stale size ∙ append-nil (load_words 8 14 bytes) in
    ap (sha512_transform state) (
      ap₂ (λ ws t. map reverse64 ws ++ t) first (sym (length_words n fine))
      ∙ sym (map-append reverse64 (load_words 8 14 bytes) (load_words 8 2 (trailer n)))
      ∙ ap (map reverse64) (sym (load_words_append 8 14 2 bytes (trailer n) size)))

puts : unfold engine512 in PutsLength engine512 112 last_block512 trailer Fine
unfolding engine512
puts = record {
  short_lem = omega arith;
  length-trailer = λ n. length-trailer n;
  last_lem = λ state n bytes stale e fine. last_block-append state n bytes stale e fine;
}

sha512_last-finish :
    (c : Sha512Context)
    → sha512_last c ≡ unfold engine512 in finish engine512 112 last_block512 trailer Fine c
unfolding sha512_last engine512
sha512_last-finish c = refl

addinc_small :
    (n : ℕ)
    → n < 2 ^ 61
    → ((addinc128 (record { low = 0; high = 0 }) (n <<< 3)).high ≡ 0)
      × ((addinc128 (record { low = 0; high = 0 }) (n <<< 3)).low ≡ 8 * n)
unfolding addinc128
addinc_small n h = ground arith

length-padded512 :
    (input : List ℕ)
    → length (padded512 input) ≡ length input + (17 + (239 - length input % 128) % 128)
unfolding padded512
length-padded512 input =
    let pad : ℕ = (239 - length input % 128) % 128 in
    let count : List ℕ = replicate 8 0 ++ be_bytes 8 (8 * length input) in
    length-append input ((0x80 ∷ replicate pad 0) ++ count)
    ∙ omega (
      arith,
      length-append (0x80 ∷ replicate pad 0) count,
      length-replicate {A = ℕ} pad 0,
      length-be_bytes 8 (8 * length input),
    )

padded512-IsBytes : (input : List ℕ) → IsBytes input → IsBytes (padded512 input)
unfolding padded512
padded512-IsBytes input h =
    let pad : ℕ = (239 - length input % 128) % 128 in
    let count : List ℕ = be_bytes 8 (8 * length input) in
    IsBytes-append input ((0x80 ∷ replicate pad 0) ++ (replicate 8 0 ++ count)) h (
      IsBytes-append (0x80 ∷ replicate pad 0) (replicate 8 0 ++ count)
        (omega arith, IsBytes-replicate pad 0 (omega arith))
        (IsBytes-append (replicate 8 0) count (IsBytes-replicate 8 0 (omega arith))
          (IsBytes-be_bytes 8 (8 * length input))))

bitcount_lem :
    (input : List ℕ) (c : Sha512Context)
    → Absorbed engine512 sha512_initial_hash_value input c
    → length input < 2 ^ 61
    → unfold engine512 in (c.bitcount.high ≡ 0) × (c.bitcount.low ≡ 8 * length input)
unfolding engine512
bitcount_lem input c s h =
    let start = addinc_small (length input) h in
    (ap (λ n. n.high) s.count_lem ∙ start.0, ap (λ n. n.low) s.count_lem ∙ start.1)

-- The bytes that the finish adds are the padding.
padding_lem :
    (input : List ℕ) (count : BitCount128) (pad : ℕ)
    → count.high ≡ 0
    → count.low ≡ 8 * length input
    → pad ≡ (239 - length input % 128) % 128
    → input ++ (0x80 ∷ replicate pad 0 ++ trailer count) ≡ padded512 input
unfolding padded512
padding_lem input count pad high low k =
    ap₂ (λ t z. input ++ (0x80 ∷ replicate z 0 ++ t))
      (ap₂ (λ m n. be_bytes 8 m ++ be_bytes 8 n) high low) k

-- The last state is that of the padded message.
sha512_last-padded512 :
    (input : List ℕ) (c : Sha512Context)
    → Absorbed engine512 sha512_initial_hash_value input c
    → length input < 2 ^ 61
    → sha512_last c
      ≡ absorb engine512
          (length (padded512 input) / 128)
          sha512_initial_hash_value
          (padded512 input)
unfolding engine512
sha512_last-padded512 input c s h =
    let r : ℕ = length s.rest in
    let pad : ℕ = (239 - length input % 128) % 128 in
    let total : length input ≡ s.blocks * 128 + r =
      ap length s.split ∙ length-append s.full s.rest ∙ omega (arith, s.length-full) in
    let size = length-padded512 input in
    let count_lem = bitcount_lem input c s h in
    let bytes = padding_lem input c.bitcount pad count_lem.0 count_lem.1 refl in
    let fine : Fine c.bitcount = omega (arith, count_lem) in
    let short : r < 128 = s.short in
    sha512_last-finish c ∙ elim (Bool-cases (ltb 112 (r + 1))) [
      | inl long ↦
          let place : 111 < r = ground arith in
          let count : suc (suc s.blocks) ≡ length (padded512 input) / 128 = omega arith in
          finish_two engine512 112 last_block512 trailer Fine engine512-IsEngine puts
            sha512_initial_hash_value input c s pad h fine (omega arith) (omega arith)
          ∙ ap₂ (λ n b. absorb engine512 n sha512_initial_hash_value b) count bytes
      | inr fits ↦
          let place : r < 112 = ground arith in
          let count : suc s.blocks ≡ length (padded512 input) / 128 = omega arith in
          finish_one engine512 112 last_block512 trailer Fine engine512-IsEngine puts
            sha512_initial_hash_value input c s pad h fine (omega arith)
          ∙ ap₂ (λ n b. absorb engine512 n sha512_initial_hash_value b) count bytes
    ]

mod64 : (n : ℕ) → n % 2 ^ 64 < 2 ^ 64
mod64 n = omega arith

sha512_transform-AllBelow : (state b : List ℕ) → AllBelow (2 ^ 64) (sha512_transform state b)
unfolding sha512_transform transform logic512
sha512_transform-AllBelow state b =
    (mod64 _, (mod64 _, (mod64 _, (mod64 _, (mod64 _, (mod64 _, (mod64 _, (mod64 _, tt))))))))

hash_blocks-AllBelow :
    (n : ℕ) (state bytes : List ℕ)
    → AllBelow (2 ^ 64) state
    → AllBelow (2 ^ 64) (hash_blocks compress 128 n state bytes)
unfolding hash_blocks
hash_blocks-AllBelow zero state bytes h = h
hash_blocks-AllBelow (suc n) state bytes h =
    hash_blocks-AllBelow n (compress state (take 128 bytes)) (drop 128 bytes)
      (sha512_transform-AllBelow state (be_words 8 16 (take 128 bytes)))

initial-AllBelow : AllBelow (2 ^ 64) sha512_initial_hash_value
initial-AllBelow = omega arith

final_digest :
    (input : List ℕ) (c : Sha512Context)
    → Absorbed engine512 sha512_initial_hash_value input c
    → length input < 2 ^ 61
    → IsBytes input
    → sha512_final c ≡ spec512 input
unfolding sha512_final spec512
final_digest input c s h bytes =
    let n : ℕ = length (padded512 input) / 128 in
    let whole : length (padded512 input) ≡ n * 128 = omega (arith, length-padded512 input) in
    let state : sha512_last c
        ≡ hash_blocks compress 128 n sha512_initial_hash_value (padded512 input) =
      sha512_last-padded512 input c s h
      ∙ absorb-hash_blocks n sha512_initial_hash_value (padded512 input) whole
          (padded512-IsBytes input bytes) in
    ap (λ ws. store_words 8 (map reverse64 ws)) state
    ∙ store_words64 (hash_blocks compress 128 n sha512_initial_hash_value (padded512 input))
        (hash_blocks-AllBelow n sha512_initial_hash_value (padded512 input) initial-AllBelow)

-- For a message of bytes, shorter than 2^61, and cut into any pieces, `sha512_final` after
-- `sha512_init` and a `sha512_update` for each piece is the SHA-512 digest of the message.
pub sha512_final-spec512 :
    (pieces : List (List ℕ))
    → length (joined pieces) < 2 ^ 61
    → IsBytes (joined pieces)
    → sha512_final (feed512 sha512_init pieces) ≡ spec512 (joined pieces)
sha512_final-spec512 pieces h bytes =
    final_digest (joined pieces) (feed512 sha512_init pieces) (feed512-sha512_init pieces h) h bytes
