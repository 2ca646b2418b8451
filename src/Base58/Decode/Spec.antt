-- ===== src/Base58/Decode/Spec.antt =====
-- `b58tobin` of ios/Classes/base58.c against the number of its digits.
use ether_flutter_plugin.Prelude.{
  ℕ, zero, suc, ◌+◌, ◌-◌, ◌*◌, ◌/◌, ◌%◌, ◌^◌, ◌<◌, ◌≤◌, ◌≡◌, ◌⊎◌, inl, inr, ◌∙◌, refl, sym, ap,
  List, [], ◌∷◌, length, replicate, length-replicate, Option, none, some, false, Bool-cases, ◌==◌,
  ==_iff, ltb, ltb_iff, if◌then◌else◌, arith, u64,
}
use mathlib.Core.List.{reverse}
use mathlib.Core.Option
use native.Mathlib.Nat.{one-le-pow}
use ether_flutter_plugin.Prelude.Powers.{pow_add}
use ether_flutter_plugin.Prelude.Bytes.{AllBelow, be_bytes}
use ether_flutter_plugin.Prelude.BigEndian.{be_bytes_unique}
use ether_flutter_plugin.Base58.Digits.{digit_of, count_front, skip_front, value58}
use ether_flutter_plugin.Base58.Decode.{out_bytes, decode_digits, zeromask, b58tobin}
use ether_flutter_plugin.Base58.Decode.Words.{words_value, limit, limit-length, limit_iff, top_of}
use ether_flutter_plugin.Base58.Decode.Rounds.{digits_of, digits_of-digit, top_of_bounds}
use ether_flutter_plugin.Base58.Decode.Loop.{decode_digits-Reads}
use ether_flutter_plugin.Base58.Decode.Bytes.{
  array_value-reverse, AllBelow-reverse, length-reverse, head_word, head_word-reverse, bytes_of,
  out_bytes-value,
}

-- The bytes of the number v in an array of n, and the size that is stored for them.
unfoldable pub as_bytes : ℕ → ℕ → ℕ → Option (List ℕ × ℕ)
as_bytes n zerocount v =
    if ltb v (256 ^ n)
    then some (be_bytes n v, n - count_front 0 (be_bytes n v) + zerocount)
    else none

-- What `b58tobin` is to compute: the number of the digits, in n bytes if it fits there. The leading
-- `1`s are counted modulo 2^32.
unfoldable pub decode_spec : ℕ → List ℕ → Option (List ℕ × ℕ)
unfolding as_bytes digits_of
decode_spec n str = elim (digits_of str) [
  | none ↦ none
  | some digits ↦ as_bytes n (count_front b'1' str % 2 ^ 32) (value58 0 digits)
]

limit_words : (k : ℕ) → limit (2 ^ 32) (replicate k 0) ≡ 256 ^ (4 * k)
limit_words zero = refl
limit_words (suc zero) = refl
limit_words (suc (suc k)) = omega (
  arith,
  limit_words (suc k),
  pow_add 256 (4 * suc k) 4,
  ap (λ (t : ℕ). 256 ^ t) {x = 4 * suc (suc k)} {y = 4 * suc k + 4} (omega arith),
)

limit_more : (r k : ℕ) → limit (256 ^ r) (replicate (suc k) 0) ≡ 256 ^ (r + 4 * k)
limit_more r zero = ap (λ (t : ℕ). 256 ^ t) {x = r} {y = r + 4 * 0} (omega arith)
limit_more r (suc k) = omega (
  arith,
  limit_more r k,
  pow_add 256 (r + 4 * k) 4,
  ap (λ (t : ℕ). 256 ^ t) {x = r + 4 * suc k} {y = r + 4 * k + 4} (omega arith),
)

-- The words hold what n bytes hold.
limit_at : (n r : ℕ) → n % 4 ≡ r → limit (top_of r) (replicate ((n + 3) / 4) 0) ≡ 256 ^ n
limit_at n zero e =
    ap (λ k. limit (2 ^ 32) (replicate k 0)) {y = n / 4} (omega arith)
    ∙ limit_words (n / 4)
    ∙ ap (λ (t : ℕ). 256 ^ t) {x = 4 * (n / 4)} {y = n} (omega arith)
limit_at n (suc r) e =
    ap (λ k. limit (256 ^ suc r) (replicate k 0)) {y = suc (n / 4)} (omega arith)
    ∙ limit_more (suc r) (n / 4)
    ∙ ap (λ (t : ℕ). 256 ^ t) {x = suc r + 4 * (n / 4)} {y = n} (omega arith)

bytes_of_at : (n r : ℕ) → n % 4 ≡ r → bytes_of r ((n + 3) / 4) ≡ n
bytes_of_at n zero e = omega arith
bytes_of_at n (suc r) e =
    ap (bytes_of (suc r)) {x = (n + 3) / 4} {y = suc (n / 4)} (omega arith) ∙ omega arith

-- The leading `1`s are zero digits.
pub digit_of_one : digit_of b'1' ≡ some 0
unfolding digit_of
digit_of_one = refl

record SameDigits (skipped str : List ℕ) : Type 0 where
  fewer : List ℕ
  digits : List ℕ
  of_skipped : digits_of skipped ≡ some fewer
  of_all : digits_of str ≡ some digits
  same : value58 0 fewer ≡ value58 0 digits

with_zero : {skipped str : List ℕ} → SameDigits skipped str → SameDigits skipped (b'1' ∷ str)
with_zero {str = str} s = record {
  fewer = s.fewer;
  digits = 0 ∷ s.digits;
  of_skipped = s.of_skipped;
  of_all = digits_of-digit b'1' str digit_of_one ∙ ap (Option.map (λ ds. 0 ∷ ds)) s.of_all;
  same = s.same;
}

all_digits :
    (str : List ℕ) (o : Option (List ℕ))
    → digits_of str ≡ o
    → SameDigits str str ⊎ ((digits_of str ≡ none) × (digits_of str ≡ none))
all_digits str none e = inr (e, e)
all_digits str (some ds) e =
    inl record { fewer = ds; digits = ds; of_skipped = e; of_all = e; same = refl }

skip_ones :
    (str : List ℕ)
    → SameDigits (skip_front b'1' str) str
      ⊎ ((digits_of (skip_front b'1' str) ≡ none) × (digits_of str ≡ none))
unfolding skip_front
skip_ones [] = all_digits [] _ refl
skip_ones (c ∷ str) = elim (Bool-cases (c == b'1')) [
  | inr other ↦ rw other (all_digits (c ∷ str) _ refl)
  | inl one ↦ rw ((==_iff c b'1').0 one) (elim (skip_ones str) [
    | inl s ↦ inl (with_zero s)
    | inr e ↦ inr (e.0, digits_of-digit b'1' str digit_of_one ∙ ap (Option.map (λ ds. 0 ∷ ds)) e.1)
  ])
]

zero_words : (k : ℕ) → words_value (replicate k 0) ≡ 0
zero_words zero = refl
zero_words (suc k) = omega (arith, zero_words k)

zero_words-AllBelow : (k : ℕ) → AllBelow (2 ^ 32) (replicate k 0)
zero_words-AllBelow zero = tt
zero_words-AllBelow (suc k) = (omega arith, zero_words-AllBelow k)

-- The bytes of words that hold a number below 256^n.
words_bytes :
    (n v : ℕ) (ws : List ℕ)
    → AllBelow (2 ^ 32) ws
    → length ws ≡ (n + 3) / 4
    → words_value ws ≡ v
    → words_value ws < limit (top_of (n % 4)) ws
    → out_bytes (n % 4) (reverse ws) ≡ be_bytes n v
words_bytes n v ws h len e low =
    let few : n % 4 < 4 = omega arith in
    let first : head_word (reverse ws) < top_of (n % 4) =
      rw (head_word-reverse ws)
        ((limit_iff (top_of (n % 4)) ws (top_of_bounds (n % 4) few).0 h).1 low) in
    let out = out_bytes-value (n % 4) (reverse ws) few (AllBelow-reverse ws h) first in
    sym (
      be_bytes_unique n v (out_bytes (n % 4) (reverse ws)) out.1
        (out.2 ∙ ap (bytes_of (n % 4)) (length-reverse ws ∙ len) ∙ bytes_of_at n (n % 4) refl)
        (out.0 ∙ array_value-reverse ws ∙ e))

module _ (n : ℕ) (str : List ℕ) where
  spec-no_digits : digits_of str ≡ none → decode_spec n str ≡ none
  unfolding decode_spec
  spec-no_digits e = rw (e, decode_spec)

  pub spec-digits :
      {ds : List ℕ}
      → digits_of str ≡ some ds
      → decode_spec n str ≡ as_bytes n (count_front b'1' str % 2 ^ 32) (value58 0 ds)
  unfolding decode_spec
  spec-digits e = rw (e, decode_spec)

pub as_bytes-fits :
    (n z v : ℕ)
    → v < 256 ^ n
    → as_bytes n z v ≡ some (be_bytes n v, n - count_front 0 (be_bytes n v) + z)
unfolding as_bytes
as_bytes-fits n z v h = rw ((ltb_iff v (256 ^ n)).1 h)

as_bytes-too_big : (n z v : ℕ) → 256 ^ n ≤ v → as_bytes n z v ≡ none
unfolding as_bytes
as_bytes-too_big n z v h = rw (not_less v (256 ^ n) h)
  where
    not_less : (a b : ℕ) → b ≤ a → ltb a b ≡ false
    not_less a b e = ground arith

some_eq : {xs ys : List ℕ} {o : Option (List ℕ)} → o ≡ some xs → o ≡ some ys → xs ≡ ys
some_eq e f = cc

some-ne-none : {xs : List ℕ} {o : Option (List ℕ)} → o ≡ some xs → o ≡ none → ⊥
some-ne-none e f = cc

module _ (n : ℕ) (str : List ℕ) where
  abbrev with_size : List ℕ → List ℕ × ℕ
  with_size ws =
      let bin = out_bytes (n % 4) (reverse ws) in
      (bin, n - count_front 0 bin + count_front b'1' str % 2 ^ 32)

  -- No size wraps.
  b58tobin-sizes :
      n ≤ 2 ^ 63
      → b58tobin n str
        ≡ Option.map with_size
            (decode_digits (zeromask (n % 4)) (skip_front b'1' str) (replicate ((n + 3) / 4) 0))
  unfolding b58tobin
  b58tobin-sizes h =
      let size : u64 (n + 3) / 4 ≡ (n + 3) / 4 = omega arith in
      let stored : (z : ℕ)
          → u64 (n - z + count_front b'1' str % 2 ^ 32) ≡ n - z + count_front b'1' str % 2 ^ 32 =
        λ z. omega arith in
      λ t.
        Option.map
          (λ ws. (
            out_bytes (n % 4) (reverse ws),
            stored (count_front 0 (out_bytes (n % 4) (reverse ws))) t,
          ))
          (decode_digits (zeromask (n % 4)) (skip_front b'1' str) (replicate (size t) 0))

-- `b58tobin` of any string and any size up to 2^63 is its specification: it fails exactly if a
-- character is no digit or the number does not fit, and otherwise gives the bytes of the number,
-- highest first, and the count of those behind the leading zeros and of the leading `1`s, which are
-- counted modulo 2^32.
pub b58tobin-decode_spec : (n : ℕ) (str : List ℕ) → n ≤ 2 ^ 63 → b58tobin n str ≡ decode_spec n str
b58tobin-decode_spec n str wide =
    let k : ℕ = (n + 3) / 4 in
    let start : List ℕ = replicate k 0 in
    let ones : ℕ = count_front b'1' str % 2 ^ 32 in
    let finish : List ℕ → List ℕ × ℕ = with_size n str in
    let few : n % 4 < 4 = omega arith in
    let lim = limit_at n (n % 4) refl in
    let from : (ds : List ℕ) → value58 (words_value start) ds ≡ value58 0 ds =
      λ ds. ap (λ (m : ℕ). value58 m ds) (zero_words k) in
    let loop =
      decode_digits-Reads (n % 4) (skip_front b'1' str) start few (zero_words-AllBelow k)
        (omega (arith, lim, zero_words k, one-le-pow n 256 (omega arith))) in
    b58tobin-sizes n str wide ∙ elim loop [
      | inl r ↦ (elim (skip_ones str) [
        | inr bad ↦ absurd (some-ne-none r.are_digits bad.0)
        | inl s ↦
            let same : r.digits ≡ s.fewer = some_eq r.are_digits s.of_skipped in
            let v : ℕ = value58 0 s.digits in
            let total : words_value r.out ≡ v =
              r.exact ∙ from r.digits ∙ ap (value58 0) same ∙ s.same in
            let limit_same : limit (top_of (n % 4)) r.out ≡ 256 ^ n =
              limit-length (top_of (n % 4)) r.out start r.same_length ∙ lim in
            let small : v < 256 ^ n = omega (arith, r.fits, lim, r.exact, total) in
            let out =
              words_bytes n v r.out r.words (r.same_length ∙ length-replicate {A = ℕ} k 0) total
                (omega (arith, limit_same, small, total)) in
            ap (Option.map finish) r.result
            ∙ ap (λ bin. some (bin, n - count_front 0 bin + ones)) out
            ∙ sym (spec-digits n str s.of_all ∙ as_bytes-fits n ones v small)
      ])
      | inr f ↦
          ap (Option.map finish) f.result
          ∙ sym (elim (skip_ones str) [
            | inr bad ↦ spec-no_digits n str bad.1
            | inl s ↦
                spec-digits n str s.of_all
                ∙ as_bytes-too_big n ones (value58 0 s.digits)
                    (omega (arith, f.no_fit s.fewer s.of_skipped, lim, from s.fewer, s.same))
          ])
    ]
