-- ===== src/Base58/Decode/Rounds.antt =====
-- One round of the loop of `b58tobin` in ios/Classes/base58.c over the characters.
use ether_flutter_plugin.Prelude.{
  ℕ, zero, suc, ◌+◌, ◌*◌, ◌^◌, ◌<◌, ◌≤◌, ◌≡◌, ◌⊎◌, inl, inr, ◌∙◌, refl, sym, ap, List, [], ◌∷◌,
  length, Option, none, some, Bool, true, false, Bool-cases, not, ◌||◌, ◌==◌, ltb, if◌then◌else◌,
  bit_and, get_or, arith,
}
use mathlib.Core.Option
use native.Mathlib.Nat.{mul-le-mul}
use ether_flutter_plugin.Prelude.Bytes.{AllBelow}
use ether_flutter_plugin.Base58.Digits.{digit_of, b58digits_map, value58}
use ether_flutter_plugin.Base58.Decode.{scale_words, first_word, zeromask, decode_digits}
use ether_flutter_plugin.Base58.Decode.Words.{
  words_value, words_room, limit, limit-le-words_room, limit_iff, Scaled, top_of, zeromask_iff,
}

-- The digits of a string, if every character is one.
unfoldable pub digits_of : List ℕ → Option (List ℕ)
digits_of [] = some []
digits_of (ch ∷ str) = elim (digit_of ch) [
  | none ↦ none
  | some d ↦ Option.map (λ ds. d ∷ ds) (digits_of str)
]

small_digits : List (Option ℕ) → Bool
small_digits [] = true
small_digits (none ∷ ds) = small_digits ds
small_digits (some d ∷ ds) = if ltb d 58 then small_digits ds else false

get_or-small_digits :
    (ds : List (Option ℕ)) (i d : ℕ) → small_digits ds ≡ true → get_or ds i none ≡ some d → d < 58
unfolding small_digits
get_or-small_digits [] i d h e = cc
get_or-small_digits (none ∷ ds) zero d h e = cc
get_or-small_digits (none ∷ ds) (suc i) d h e = get_or-small_digits ds i d h e
get_or-small_digits (some x ∷ ds) zero d h e = ground arith
get_or-small_digits (some x ∷ ds) (suc i) d h e = ground (arith, get_or-small_digits ds i d)

map_small : small_digits b58digits_map ≡ true
unfolding small_digits b58digits_map
map_small = refl

pub digit_of-lt : (c d : ℕ) → digit_of c ≡ some d → d < 58
unfolding digit_of
digit_of-lt c d e = elim (Bool-cases (bit_and c 0x80 == 0)) [
  | inl plain ↦ get_or-small_digits b58digits_map c d map_small (rw plain at e)
  | inr high ↦ let off : none ≡ some d = rw high at e in cc
]

pub value58-ge : (acc : ℕ) (ds : List ℕ) → acc ≤ value58 acc ds
value58-ge acc [] = omega arith
value58-ge acc (d ∷ ds) = omega (arith, value58-ge (58 * acc + d) ds)

-- The loop returns words that hold the number of the digits.
pub record Reads (bytesleft : ℕ) (str ws : List ℕ) : Type 0 where
  pub digits : List ℕ
  pub are_digits : digits_of str ≡ some digits
  pub fits : value58 (words_value ws) digits < limit (top_of bytesleft) ws
  pub out : List ℕ
  pub result : decode_digits (zeromask bytesleft) str ws ≡ some out
  pub exact : words_value out ≡ value58 (words_value ws) digits
  pub words : AllBelow (2 ^ 32) out
  pub same_length : length out ≡ length ws

-- Or it fails, for a character that is no digit or a number that is too big.
pub record Fails (bytesleft : ℕ) (str ws : List ℕ) : Type 0 where
  pub result : decode_digits (zeromask bytesleft) str ws ≡ none
  pub no_fit :
      (digits : List ℕ)
      → digits_of str ≡ some digits
      → limit (top_of bytesleft) ws ≤ value58 (words_value ws) digits

both_zero : (a b : ℕ) → (not (a == 0) || not (b == 0)) ≡ false → (a ≡ 0) × (b ≡ 0)
both_zero a b e = ground arith

one_positive : (a b : ℕ) → (not (a == 0) || not (b == 0)) ≡ true → (0 < a) ⊎ (0 < b)
one_positive a b e = ground arith

pub top_of_bounds :
    (bytesleft : ℕ) → bytesleft < 4 → (0 < top_of bytesleft) × (top_of bytesleft ≤ 2 ^ 32)
top_of_bounds zero h = omega arith
top_of_bounds (suc zero) h = omega arith
top_of_bounds (suc (suc zero)) h = omega arith
top_of_bounds (suc (suc (suc zero))) h = omega arith
top_of_bounds (suc (suc (suc (suc n)))) h = absurd (omega arith)

first_word-lt : (ws : List ℕ) → AllBelow (2 ^ 32) ws → first_word ws < 2 ^ 32
unfolding first_word
first_word-lt [] h = omega arith
first_word-lt (w ∷ []) h = h.0
first_word-lt (w ∷ v ∷ ws) h = first_word-lt (v ∷ ws) h.1

-- The two tests of a round pass exactly if the number is below the limit.
pub round_fits :
    (bytesleft c : ℕ) (ws : List ℕ)
    → bytesleft < 4
    → Scaled c ws
    → (not ((scale_words c ws).1 == 0)
        || not (bit_and (first_word (scale_words c ws).0) (zeromask bytesleft) == 0))
      ≡ false
    → (58 * words_value ws + c < limit (top_of bytesleft) ws)
      × (words_value (scale_words c ws).0 ≡ 58 * words_value ws + c)
round_fits bytesleft c ws h s e =
    let out : List ℕ = (scale_words c ws).0 in
    let over : ℕ = (scale_words c ws).1 in
    let tests = both_zero over (bit_and (first_word out) (zeromask bytesleft)) e in
    let top = top_of_bounds bytesleft h in
    let below : first_word out < top_of bytesleft =
      (zeromask_iff bytesleft (first_word out) h (first_word-lt out s.words)).0 tests.1 in
    let fits = (limit_iff (top_of bytesleft) out top.0 s.words).0 below in
    let gone : over * words_room ws ≡ 0 = ap (λ (n : ℕ). n * words_room ws) tests.0 ∙ omega arith in
    (
      omega (arith, s.exact, gone, fits, s.same_limit (top_of bytesleft)),
      omega (arith, s.exact, gone),
    )

round_overflows :
    (bytesleft c : ℕ) (ws : List ℕ)
    → bytesleft < 4
    → Scaled c ws
    → (not ((scale_words c ws).1 == 0)
        || not (bit_and (first_word (scale_words c ws).0) (zeromask bytesleft) == 0))
      ≡ true
    → limit (top_of bytesleft) ws ≤ 58 * words_value ws + c
round_overflows bytesleft c ws h s e =
    let out : List ℕ = (scale_words c ws).0 in
    let over : ℕ = (scale_words c ws).1 in
    let top = top_of_bounds bytesleft h in
    let room = limit-le-words_room (top_of bytesleft) ws top.1 in
    elim (one_positive over (bit_and (first_word out) (zeromask bytesleft)) e) [
      | inl carry ↦
          let much : 1 * words_room ws ≤ over * words_room ws =
            mul-le-mul {n₂ = over} {m₂ = words_room ws} carry (omega arith) in
          omega (arith, s.exact, much, room)
      | inr first ↦
          let mask = zeromask_iff bytesleft (first_word out) h (first_word-lt out s.words) in
          let bound = limit_iff (top_of bytesleft) out top.0 s.words in
          let over_top : ¬ (words_value out < limit (top_of bytesleft) out) =
            λ small. absurd (positive first (mask.1 (bound.1 small))) in
          omega (arith, s.exact, over_top, s.same_limit (top_of bytesleft))
    ]
  where
    positive : {n : ℕ} → 0 < n → n ≡ 0 → ⊥
    positive p z = omega arith

module _ (mask ch : ℕ) (str ws : List ℕ) where
  pub decode_no_digit : digit_of ch ≡ none → decode_digits mask (ch ∷ str) ws ≡ none
  unfolding decode_digits
  decode_no_digit d = rw (d, decode_digits)

  decode_round :
      {c : ℕ}
      → digit_of ch ≡ some c
      → decode_digits mask (ch ∷ str) ws ≡ (
          if not ((scale_words c ws).1 == 0)
            || not (bit_and (first_word (scale_words c ws).0) mask == 0)
          then none
          else decode_digits mask str (scale_words c ws).0)
  unfolding decode_digits
  decode_round d = rw (d, decode_digits)

pub digits_of-no_digit : (ch : ℕ) (str : List ℕ) → digit_of ch ≡ none → digits_of (ch ∷ str) ≡ none
unfolding digits_of
digits_of-no_digit ch str d = rw (d, digits_of)

pub digits_of-digit :
    (ch : ℕ) (str : List ℕ) {c : ℕ}
    → digit_of ch ≡ some c
    → digits_of (ch ∷ str) ≡ Option.map (λ ds. c ∷ ds) (digits_of str)
unfolding digits_of
digits_of-digit ch str d = rw (d, digits_of)

map-some :
    (c : ℕ) (o : Option (List ℕ)) (digits : List ℕ)
    → Option.map (λ ds. c ∷ ds) o ≡ some digits
    → (ds : List ℕ) × (o ≡ some ds) × (c ∷ ds ≡ digits)
map-some c none digits e = cc
map-some c (some ds) digits e = (ds, refl, cc)

-- What a round adds to the result for the rest of the string.
module _ (bytesleft ch : ℕ) (str ws : List ℕ) (c : ℕ) (digit : digit_of ch ≡ some c)
    (few : bytesleft < 4) (s : Scaled c ws) where
  pub stop_round :
      (not ((scale_words c ws).1 == 0)
          || not (bit_and (first_word (scale_words c ws).0) (zeromask bytesleft) == 0))
        ≡ true
      → Fails bytesleft (ch ∷ str) ws
  stop_round e = record {
    result = decode_round (zeromask bytesleft) ch str ws digit ∙ rw e;
    no_fit = λ digits ds.
        let (rest, are, cons) =
          map-some c (digits_of str) digits (sym (digits_of-digit ch str digit) ∙ ds) in
        let total : value58 (words_value ws) (c ∷ rest) ≡ value58 (words_value ws) digits =
          ap (value58 (words_value ws)) cons in
        omega (
          arith,
          total,
          value58-ge (58 * words_value ws + c) rest,
          round_overflows bytesleft c ws few s e,
        );
  }

  module _
      (go : (not ((scale_words c ws).1 == 0)
          || not (bit_and (first_word (scale_words c ws).0) (zeromask bytesleft) == 0))
        ≡ false) where
    next :
        decode_digits (zeromask bytesleft) (ch ∷ str) ws
        ≡ decode_digits (zeromask bytesleft) str (scale_words c ws).0
    next = decode_round (zeromask bytesleft) ch str ws digit ∙ rw go

    same_value :
        (ds : List ℕ)
        → value58 (words_value (scale_words c ws).0) ds ≡ value58 (words_value ws) (c ∷ ds)
    same_value ds = ap (λ (n : ℕ). value58 n ds) (round_fits bytesleft c ws few s go).1

    pub read_round : Reads bytesleft str (scale_words c ws).0 → Reads bytesleft (ch ∷ str) ws
    read_round r = record {
      digits = c ∷ r.digits;
      are_digits = digits_of-digit ch str digit ∙ ap (Option.map (λ ds. c ∷ ds)) r.are_digits;
      fits = omega (arith, r.fits, same_value r.digits, s.same_limit (top_of bytesleft));
      out = r.out;
      result = next ∙ r.result;
      exact = r.exact ∙ same_value r.digits;
      words = r.words;
      same_length = r.same_length ∙ s.same_length;
    }

    pub fail_round : Fails bytesleft str (scale_words c ws).0 → Fails bytesleft (ch ∷ str) ws
    fail_round f = record {
      result = next ∙ f.result;
      no_fit = λ digits ds.
          let (rest, are, cons) =
            map-some c (digits_of str) digits (sym (digits_of-digit ch str digit) ∙ ds) in
          let total : value58 (words_value ws) (c ∷ rest) ≡ value58 (words_value ws) digits =
            ap (value58 (words_value ws)) cons in
          omega (arith, total, f.no_fit rest are, same_value rest, s.same_limit (top_of bytesleft));
    }
