-- ===== src/Base58/Check/Text.antt =====
-- The strings that `b58enc` of ios/Classes/base58.c writes, and their digits.
use ether_flutter_plugin.Prelude.{
  ℕ, zero, suc, ◌+◌, ◌<◌, ◌≡◌, ◌≢◌, ◌∙◌, refl, sym, ap, subst, List, [], ◌∷◌, ◌++◌, map, inl, inr,
  Option, none, some, Bool, true, false, Bool-cases, ◌&&◌, ◌==◌, ==_iff, length, length-append,
  length-map, length-replicate, replicate, arith,
}
use mathlib.Core.Option
use ether_flutter_plugin.Prelude.Bytes.{AllBelow}
use ether_flutter_plugin.Base58.Digits.{digit_of, char_of, count_front, value58}
use ether_flutter_plugin.Base58.Decode.Rounds.{digits_of, digits_of-digit}
use ether_flutter_plugin.Base58.Decode.Spec.{digit_of_one}

-- The 58 characters and the map of their digits.
is_digit : ℕ → Option ℕ → Bool
is_digit n none = false
is_digit n (some d) = d == n

is_digit-some : (n : ℕ) (o : Option ℕ) → is_digit n o ≡ true → o ≡ some n
unfolding is_digit
is_digit-some n none e = cc
is_digit-some n (some d) e = ap some ((==_iff d n).0 e)

reads_back : ℕ → Bool
unfolding is_digit
reads_back zero = true
reads_back (suc n) = is_digit n (digit_of (char_of n)) && reads_back n

all_read_back : reads_back 58 ≡ true
unfolding reads_back digit_of char_of
all_read_back = refl

reads_back-digit_of : (n d : ℕ) → reads_back n ≡ true → d < n → digit_of (char_of d) ≡ some d
unfolding reads_back
reads_back-digit_of zero d h lt = absurd (omega arith)
reads_back-digit_of (suc n) d h lt =
    let parts = both (is_digit n (digit_of (char_of n))) (reads_back n) h in
    elim (Bool-cases (d == n)) [
      | inl last ↦
          subst (λ k. digit_of (char_of k) ≡ some k) (sym ((==_iff d n).0 last))
            (is_digit-some n (digit_of (char_of n)) parts.0)
      | inr before ↦ reads_back-digit_of n d parts.1 (smaller before)
    ]
  where
    both : (a b : Bool) → (a && b) ≡ true → (a ≡ true) × (b ≡ true)
    both a b e = ground arith

    smaller : (d == n) ≡ false → d < n
    smaller e = ground arith

digit_of-char_of : (d : ℕ) → d < 58 → digit_of (char_of d) ≡ some d
digit_of-char_of d h = reads_back-digit_of 58 d all_read_back h

digits_of-map : (ds : List ℕ) → AllBelow 58 ds → digits_of (map char_of ds) ≡ some ds
unfolding digits_of
digits_of-map [] h = refl
digits_of-map (d ∷ ds) h =
    digits_of-digit (char_of d) (map char_of ds) (digit_of-char_of d h.0)
    ∙ ap (Option.map (λ t. d ∷ t)) (digits_of-map ds h.1)

-- The string of the encoder.
abbrev pub text58 : ℕ → List ℕ → List ℕ
text58 z ds = replicate z b'1' ++ map char_of ds

pub digits_of-text58 :
    (z : ℕ) (ds : List ℕ) → AllBelow 58 ds → digits_of (text58 z ds) ≡ some (replicate z 0 ++ ds)
digits_of-text58 zero ds h = digits_of-map ds h
digits_of-text58 (suc z) ds h =
    digits_of-digit b'1' (text58 z ds) digit_of_one
    ∙ ap (Option.map (λ t. 0 ∷ t)) (digits_of-text58 z ds h)

pub value58-zeros : (z : ℕ) (ds : List ℕ) → value58 0 (replicate z 0 ++ ds) ≡ value58 0 ds
value58-zeros zero ds = refl
value58-zeros (suc z) ds = value58-zeros z ds

char_of-one : (d : ℕ) → d < 58 → d ≢ 0 → (char_of d == b'1') ≡ false
char_of-one d h ne = elim (Bool-cases (char_of d == b'1')) [
  | inr other ↦ other
  | inl one ↦ absurd (
      ne (
        zero_digit (
          sym (digit_of-char_of d h)
          ∙ ap digit_of ((==_iff (char_of d) b'1').0 one)
          ∙ digit_of_one)))
]
  where
    zero_digit : {a b : ℕ} → some a ≡ some b → a ≡ b
    zero_digit e = cc

pub count_front-text58 :
    (z : ℕ) (ds : List ℕ)
    → AllBelow 58 ds
    → count_front 0 ds ≡ 0
    → count_front b'1' (text58 z ds) ≡ z
unfolding count_front
count_front-text58 zero [] h c = refl
count_front-text58 zero (d ∷ ds) h c = rw (char_of-one d h.0 (not_zero d ds c))
  where
    not_zero : (d : ℕ) (ds : List ℕ) → count_front 0 (d ∷ ds) ≡ 0 → d ≢ 0
    not_zero d ds e = λ z. ground arith
count_front-text58 (suc z) ds h c = ap suc (count_front-text58 z ds h c)

pub length-text58 : (z : ℕ) (ds : List ℕ) → length (text58 z ds) ≡ z + length ds
length-text58 z ds =
    length-append (replicate z b'1') (map char_of ds)
    ∙ omega (arith, length-replicate {A = ℕ} z b'1', length-map ds char_of)
