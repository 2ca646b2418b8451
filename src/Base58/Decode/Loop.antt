-- ===== src/Base58/Decode/Loop.antt =====
-- The loop of `b58tobin` in ios/Classes/base58.c reads the digits of a number.
use ether_flutter_plugin.Prelude.{
  ℕ, ◌^◌, ◌<◌, ◌≡◌, ◌⊎◌, inl, inr, refl, List, [], ◌∷◌, Option, none, some, Bool-cases, not, ◌||◌,
  ◌==◌, bit_and, arith,
}
use ether_flutter_plugin.Prelude.Bytes.{AllBelow}
use ether_flutter_plugin.Base58.Digits.{digit_of}
use ether_flutter_plugin.Base58.Decode.{scale_words, first_word, zeromask, decode_digits}
use ether_flutter_plugin.Base58.Decode.Words.{words_value, limit, scale_words-Scaled, top_of}
use ether_flutter_plugin.Base58.Decode.Rounds.{
  digits_of, digit_of-lt, Reads, Fails, digits_of-no_digit, decode_no_digit, round_fits, stop_round,
  read_round, fail_round,
}

Option-cases : (o : Option ℕ) → ((c : ℕ) × (o ≡ some c)) ⊎ (o ≡ none)
Option-cases none = inr refl
Option-cases (some c) = inl (c, refl)

pub decode_digits-Reads :
    (bytesleft : ℕ) (str ws : List ℕ)
    → bytesleft < 4
    → AllBelow (2 ^ 32) ws
    → words_value ws < limit (top_of bytesleft) ws
    → Reads bytesleft str ws ⊎ Fails bytesleft str ws
unfolding decode_digits digits_of
decode_digits-Reads bytesleft [] ws h hw low = inl record {
  digits = [];
  are_digits = refl;
  fits = low;
  out = ws;
  result = refl;
  exact = refl;
  words = hw;
  same_length = refl;
}
decode_digits-Reads bytesleft (ch ∷ str) ws h hw low = elim (Option-cases (digit_of ch)) [
  | inr d ↦ inr record {
    result = decode_no_digit (zeromask bytesleft) ch str ws d;
    no_fit = λ digits e. absurd (no_digits d e);
  }
  | inl (c, d) ↦
      let s = scale_words-Scaled c ws (digit_of-lt ch c d) hw in
      elim (Bool-cases (
        not ((scale_words c ws).1 == 0)
        || not (bit_and (first_word (scale_words c ws).0) (zeromask bytesleft) == 0))) [
          | inl stop ↦ inr (stop_round bytesleft ch str ws c d h s stop)
          | inr go ↦
              let fits = round_fits bytesleft c ws h s go in
              elim (decode_digits-Reads bytesleft str (scale_words c ws).0 h s.words
                (omega (arith, fits, s.same_limit (top_of bytesleft)))) [
                  | inl r ↦ inl (read_round bytesleft ch str ws c d h s go r)
                  | inr f ↦ inr (fail_round bytesleft ch str ws c d h s go f)
                ]
        ]
]
  where
    no_digits : {digits : List ℕ} → digit_of ch ≡ none → digits_of (ch ∷ str) ≡ some digits → ⊥
    no_digits d e = cc (digits_of-no_digit ch str d)
