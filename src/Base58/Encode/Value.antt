-- ===== src/Base58/Encode/Value.antt =====
-- `b58enc` of ios/Classes/base58.c writes the digits of the number of its bytes.
use ether_flutter_plugin.Prelude.{
  ℕ, ◌+◌, ◌-◌, ◌*◌, ◌/◌, ◌^◌, ◌<◌, ◌≤◌, ◌≡◌, ◌∙◌, refl, sym, ap, subst, List, [], ◌∷◌, ◌++◌, map,
  inl, inr, length, drop, replicate, length-append, length-drop, length-replicate, some, Bool-cases,
  ◌==◌, ==_iff, leb, if◌then◌else◌, u64, arith,
}
use mathlib.Core.List.{reverse, reverse-cons}
use mathlib.Core.Option
use ether_flutter_plugin.Prelude.Bytes.{AllBelow, IsBytes, IsBytes-drop, be_value}
use ether_flutter_plugin.Base58.Digits.{char_of, count_front, skip_front, value58}
use ether_flutter_plugin.Base58.Encode.Carry.{
  low_value, low_value-zeros, room, encode_bytes-Encodes,
}
use ether_flutter_plugin.Base58.Encode.Room.{
  room-replicate, zeros-AllBelow, zeros-ZeroFrom, digits_for, be_value-lt_digits,
}
use ether_flutter_plugin.Base58.Encode.{b58enc, place, written, too_small}

pub value58-append :
    (acc : ℕ) (xs ys : List ℕ) → value58 acc (xs ++ ys) ≡ value58 (value58 acc xs) ys
value58-append acc [] ys = refl
value58-append acc (x ∷ xs) ys = value58-append (58 * acc + x) xs ys

-- The first digit stands last in the buffer's list.
value58-reverse : (ds : List ℕ) → value58 0 (reverse ds) ≡ low_value ds
value58-reverse [] = refl
value58-reverse (d ∷ ds) =
    ap (value58 0) (reverse-cons d ds)
    ∙ value58-append 0 (reverse ds) (d ∷ [])
    ∙ omega (arith, value58-reverse ds)

pub value58-skip_front : (ds : List ℕ) → value58 0 (skip_front 0 ds) ≡ value58 0 ds
unfolding skip_front
value58-skip_front [] = refl
value58-skip_front (d ∷ ds) = elim (Bool-cases (d == 0)) [
  | inl none ↦
      rw none
        (value58-skip_front ds ∙ ap (λ (n : ℕ). value58 n ds) (omega (arith, (==_iff d 0).0 none)))
  | inr some_digit ↦ rw some_digit
]

pub count_front-skip_front : (ds : List ℕ) → count_front 0 (skip_front 0 ds) ≡ 0
unfolding skip_front count_front
count_front-skip_front [] = refl
count_front-skip_front (d ∷ ds) = ground (arith, count_front-skip_front ds)

skip_front-AllBelow : (ds : List ℕ) → AllBelow 58 ds → AllBelow 58 (skip_front 0 ds)
unfolding skip_front
skip_front-AllBelow [] h = tt
skip_front-AllBelow (d ∷ ds) h = elim (Bool-cases (d == 0)) [
  | inl none ↦ rw none (skip_front-AllBelow ds h.1)
  | inr some_digit ↦ rw some_digit h
]

length-skip_front : (ds : List ℕ) → length (skip_front 0 ds) ≤ length ds
unfolding skip_front
length-skip_front [] = omega arith
length-skip_front (d ∷ ds) = ground (arith, length-skip_front ds)

AllBelow-append : (xs ys : List ℕ) → AllBelow 58 xs → AllBelow 58 ys → AllBelow 58 (xs ++ ys)
AllBelow-append [] ys h k = k
AllBelow-append (x ∷ xs) ys h k = (h.0, AllBelow-append xs ys h.1 k)

reverse-AllBelow : (ds : List ℕ) → AllBelow 58 ds → AllBelow 58 (reverse ds)
reverse-AllBelow [] h = tt
reverse-AllBelow (d ∷ ds) h =
    subst (AllBelow 58) (sym (reverse-cons d ds))
      (AllBelow-append (reverse ds) (d ∷ []) (reverse-AllBelow ds h.1) (h.0, tt))

length-reverse : (ds : List ℕ) → length (reverse ds) ≡ length ds
length-reverse [] = refl
length-reverse (d ∷ ds) =
    ap length (reverse-cons d ds)
    ∙ length-append (reverse ds) (d ∷ [])
    ∙ omega (arith, length-reverse ds)

pub be_value-drop_zeros :
    (bytes : List ℕ) → be_value 0 (drop (count_front 0 bytes) bytes) ≡ be_value 0 bytes
unfolding count_front
be_value-drop_zeros [] = refl
be_value-drop_zeros (b ∷ bytes) = elim (Bool-cases (b == 0)) [
  | inl none ↦ rw none (
      be_value-drop_zeros bytes
      ∙ ap (λ (n : ℕ). be_value n bytes) (omega (arith, (==_iff b 0).0 none)))
  | inr some_byte ↦ rw some_byte
]

pub count_front-le : (a : ℕ) (xs : List ℕ) → count_front a xs ≤ length xs
unfolding count_front
count_front-le a [] = omega arith
count_front-le a (x ∷ xs) = ground (arith, count_front-le a xs)

-- Digits of a number with no zero at the front.
pub record Digits58 (ds : List ℕ) (v : ℕ) : Type 0 where
  pub below : AllBelow 58 ds
  pub canonical : count_front 0 ds ≡ 0
  pub exact : value58 0 ds ≡ v

-- For bytes, fewer than 2^56, `b58enc` stays in its buffer, and its digits are those of their
-- number: it writes a `1` for each zero byte at the front and then the digits, or asks for the size
-- that this takes. There are no more digits than 138 / 100 of the other bytes, and one.
pub b58enc-Digits58 :
    (b58sz : ℕ) (bin : List ℕ)
    → IsBytes bin
    → length bin < 2 ^ 56
    → (digits : List ℕ) × Digits58 digits (be_value 0 bin)
      × (length digits ≤ (length bin - count_front 0 bin) * 138 / 100 + 1)
      × (b58enc b58sz bin
          ≡ some (
              if leb b58sz (count_front 0 bin + length digits)
              then too_small (count_front 0 bin + length digits + 1)
              else written
                  (replicate (count_front 0 bin) b'1' ++ map char_of digits)
                  (count_front 0 bin + length digits + 1)))
unfolding b58enc place
b58enc-Digits58 b58sz bin h short =
    let z : ℕ = count_front 0 bin in
    let rest : List ℕ = drop z bin in
    let size : ℕ = u64 ((length bin - z) * 138) / 100 + 1 in
    let size_exact : size ≡ digits_for (length rest) = omega (arith, length-drop z bin) in
    let none_yet : low_value (replicate size 0) ≡ 0 =
      low_value-zeros (replicate size 0) (zeros-ZeroFrom size) in
    let start : be_value (low_value (replicate size 0)) rest ≡ be_value 0 rest =
      ap (λ (n : ℕ). be_value n rest) none_yet in
    let wide : room (replicate size 0) ≡ 58 ^ digits_for (length rest) =
      room-replicate size ∙ ap (λ (n : ℕ). 58 ^ n) size_exact in
    let out =
      encode_bytes-Encodes rest 0 (replicate size 0) (zeros-AllBelow size) (zeros-ZeroFrom size)
        (omega (arith, start, wide, be_value-lt_digits rest (IsBytes-drop z bin h))) in
    (
      skip_front 0 (reverse out.digits),
      record {
        below = skip_front-AllBelow (reverse out.digits) (reverse-AllBelow out.digits out.below);
        canonical = count_front-skip_front (reverse out.digits);
        exact =
            value58-skip_front (reverse out.digits)
            ∙ value58-reverse out.digits
            ∙ out.exact
            ∙ start
            ∙ be_value-drop_zeros bin;
      },
      omega (
        arith,
        length-skip_front (reverse out.digits),
        length-reverse out.digits,
        out.same_length,
        length-replicate {A = ℕ} size 0,
        length-drop z bin,
        size_exact,
      ),
      ap (Option.map (λ buf. place b58sz z (skip_front 0 (reverse buf)))) out.result,
    )
