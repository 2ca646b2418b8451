-- ===== src/Bip39/Sentence.antt =====
-- The parser reads a sentence that was written from the word list.
use ether_flutter_plugin.Prelude.{
  ℕ, zero, suc, ◌+◌, ◌*◌, ◌<◌, ◌≤◌, ◌≡◌, ◌∙◌, refl, subst, true, false, List, [], ◌∷◌, ◌++◌, some,
  map, leb, ◌==◌, get_or, length, length-append, arith,
}
use ether_flutter_plugin.Bip39.Wordlist.{wordlist}
use ether_flutter_plugin.Bip39.Encode.{index_loop, index_list, write_mnemonic}
use ether_flutter_plugin.Bip39.Decode.{read_word, find_word, put_bits, parse_words}
use ether_flutter_plugin.Bip39.Bits.{
  index_loop_digit, index_loop-lt, HoldsPrefix, put_bits-HoldsPrefix,
}
use ether_flutter_plugin.Bip39.Words.{no_spaces, plain_word, find_word-wordlist, wordlist-plain}

read_word_space :
    (w rest : List ℕ) (j : ℕ)
    → no_spaces w ≡ true
    → j + length w ≤ 9
    → read_word j (w ++ (b' ' ∷ rest)) ≡ some (w, rest)
unfolding read_word
read_word_space [] rest j h k = refl
read_word_space (c ∷ cs) rest j h k =
    let letter : (c == b' ') ≡ false = ground arith in
    let room : leb 9 j ≡ false = ground arith in
    rw (letter, read_word)
      (rw (room, read_word)
        (rw (read_word_space cs rest (j + 1) (ground arith) (omega arith), read_word) refl))

read_word_end :
    (w : List ℕ) (j : ℕ) → no_spaces w ≡ true → j + length w ≤ 9 → read_word j w ≡ some (w, [])
unfolding read_word
read_word_end [] j h k = refl
read_word_end (c ∷ cs) j h k =
    let letter : (c == b' ') ≡ false = ground arith in
    let room : leb 9 j ≡ false = ground arith in
    rw (letter, read_word)
      (rw (room, read_word)
        (rw (read_word_end cs (j + 1) (ground arith) (omega arith), read_word) refl))

-- One round of the parser.
parse_step :
    (fuel : ℕ) (s w rest : List ℕ) (k bi : ℕ) (out : List ℕ)
    → 0 < length s
    → read_word 0 s ≡ some (w, rest)
    → find_word w wordlist 0 ≡ some k
    → parse_words (suc fuel) s bi out ≡ parse_words fuel rest (bi + 11) (put_bits k 11 bi out)
unfolding parse_words
parse_step fuel [] w rest k bi out h r f = absurd (omega arith)
parse_step fuel (c ∷ cs) w rest k bi out h r f = rw (r, parse_words) (rw (f, parse_words) refl)

abbrev pub word_at : ℕ → List ℕ
word_at i = get_or wordlist i []

pub plain_parts :
    (w : List ℕ) → plain_word w ≡ true → (0 < length w) × (length w ≤ 8) × (no_spaces w ≡ true)
plain_parts w h = ground arith

-- The sentence of `left` words from word i on.
abbrev pub sentence : List ℕ → ℕ → ℕ → List ℕ
sentence bits left i = write_mnemonic (map word_at (index_list bits left i))

abbrev pub index_at : List ℕ → ℕ → ℕ
index_at bits i = index_loop bits 11 (i * 11) 0

-- What the parser makes of `s`: n bits in all.
abbrev pub Parses : List ℕ → ℕ → List ℕ → ℕ → List ℕ → ℕ → Type 0
Parses bits fuel s bi out n =
    (out' : List ℕ) × (parse_words fuel s bi out ≡ some (out', n)) × HoldsPrefix bits n out'

-- One word, and what the rest of the sentence makes of it.
parse_word :
    (bits : List ℕ) (i fuel n : ℕ) (out s rest : List ℕ)
    → HoldsPrefix bits (i * 11) out
    → i * 11 + 11 ≤ 520
    → 0 < length s
    → read_word 0 s ≡ some (word_at (index_at bits i), rest)
    → Parses bits fuel rest (i * 11 + 11) (put_bits (index_at bits i) 11 (i * 11) out) n
    → Parses bits (suc fuel) s (i * 11) out n
parse_word bits i fuel n out s rest holds room full r (out', e, h) = (
  out',
  parse_step fuel s (word_at (index_at bits i)) rest (index_at bits i) (i * 11) out full r
        (find_word-wordlist (index_at bits i) (index_loop-lt bits (i * 11)))
      ∙ e,
  h,
)

put_index :
    (bits : List ℕ) (i : ℕ) (out : List ℕ)
    → HoldsPrefix bits (i * 11) out
    → i * 11 + 11 ≤ 520
    → HoldsPrefix bits (i * 11 + 11) (put_bits (index_at bits i) 11 (i * 11) out)
put_index bits i out h room =
    put_bits-HoldsPrefix bits (index_at bits i) 11 (i * 11) out h room
      (λ j hj. index_loop_digit bits 11 (i * 11) 0 j hj)

Parses-nil :
    (bits : List ℕ) (fuel m : ℕ) (out : List ℕ)
    → HoldsPrefix bits m out
    → Parses bits fuel [] m out m
unfolding parse_words
Parses-nil bits fuel m out h = (out, refl, h)

pub one_word : (bits : List ℕ) (i : ℕ) → sentence bits 1 i ≡ word_at (index_at bits i)
unfolding index_list write_mnemonic
one_word bits i = refl

pub more_words :
    (bits : List ℕ) (left i : ℕ)
    → sentence bits (suc (suc left)) i
      ≡ word_at (index_at bits i) ++ (b' ' ∷ sentence bits (suc left) (i + 1))
unfolding index_list write_mnemonic
more_words bits left i = refl

-- For an array that holds the bits of a string before word i, and nothing else, the parser with fuel
-- for each character reads `left` words from word i on, of at most 520 bits in all, and leaves an
-- array that holds the bits before word i + left, and nothing else.
pub parse_words-sentence :
    (bits : List ℕ) (left i fuel : ℕ) (out : List ℕ)
    → HoldsPrefix bits (i * 11) out
    → i * 11 + left * 11 ≤ 520
    → length (sentence bits left i) ≤ fuel
    → Parses bits fuel (sentence bits left i) (i * 11) out (i * 11 + left * 11)
unfolding write_mnemonic index_list
parse_words-sentence bits zero i fuel out s h enough =
    subst (λ n. Parses bits fuel [] (i * 11) out n) (omega arith)
      (Parses-nil bits fuel (i * 11) out s)
parse_words-sentence bits (suc zero) i zero out s h enough =
    let parts =
      plain_parts (word_at (index_at bits i))
        (wordlist-plain (index_at bits i) (index_loop-lt bits (i * 11))) in
    absurd (omega (arith, parts))
parse_words-sentence bits (suc zero) i (suc fuel) out s h enough =
    let w : List ℕ = word_at (index_at bits i) in
    let parts = plain_parts w (wordlist-plain (index_at bits i) (index_loop-lt bits (i * 11))) in
    let next = put_index bits i out s (omega arith) in
    parse_word bits i fuel (i * 11 + 1 * 11) out w [] s (omega arith) (omega (arith, parts))
      (read_word_end w 0 parts.2 (omega (arith, parts)))
      (Parses-nil bits fuel (i * 11 + 11) (put_bits (index_at bits i) 11 (i * 11) out) next)
parse_words-sentence bits (suc (suc left)) i zero out s h enough = absurd (
    omega (
      arith,
      length-append (word_at (index_at bits i)) (b' ' ∷ sentence bits (suc left) (i + 1)),
      enough,
    ))
parse_words-sentence bits (suc (suc left)) i (suc f) out s h enough =
    let w : List ℕ = word_at (index_at bits i) in
    let later : List ℕ = sentence bits (suc left) (i + 1) in
    let put : List ℕ = put_bits (index_at bits i) 11 (i * 11) out in
    let parts = plain_parts w (wordlist-plain (index_at bits i) (index_loop-lt bits (i * 11))) in
    let size = length-append w (b' ' ∷ later) in
    let next = put_index bits i out s (omega arith) in
    let rest =
      parse_words-sentence bits (suc left) (i + 1) f put
        (subst (λ n. HoldsPrefix bits n put) (omega arith) next) (omega arith)
        (omega (arith, parts, size, enough)) in
    parse_word bits i f (i * 11 + suc (suc left) * 11) out (w ++ (b' ' ∷ later)) later s
      (omega arith) (omega (arith, parts, size))
      (read_word_space w later 0 parts.2 (omega (arith, parts)))
      (subst (λ m. Parses bits f later m put (i * 11 + suc (suc left) * 11)) {x = (i + 1) * 11}
        (omega arith)
        (subst (λ m. Parses bits f later ((i + 1) * 11) put m) {x = (i + 1) * 11 + suc left * 11}
          (omega arith) rest))
