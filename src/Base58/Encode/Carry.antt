-- ===== src/Base58/Encode/Carry.antt =====
-- A round of `b58enc` of ios/Classes/base58.c multiplies the number in the buffer by 256 and adds a
-- byte.
use ether_flutter_plugin.Prelude.{
  ℕ, zero, suc, ◌+◌, ◌-◌, ◌*◌, ◌/◌, ◌%◌, ◌<◌, ◌≡◌, ◌∙◌, refl, ap, subst, List, [], ◌∷◌, inl, inr,
  length, Option, some, true, false, ◌==◌, ltb, not, ◌||◌, Bool-cases, arith,
}
use native.Mathlib.Numerals.{sub-one}
use ether_flutter_plugin.Prelude.Bytes.{AllBelow, be_value}
use ether_flutter_plugin.Prelude.BigEndian.{be_value-ge}
use ether_flutter_plugin.Base58.Encode.{push_digit, carry_digits, encode_bytes}

-- The number in the buffer, whose list begins with the last digit.
abbrev pub low_value : List ℕ → ℕ
low_value [] = 0
low_value (d ∷ ds) = d + 58 * low_value ds

-- 58 to the number of digits.
abbrev pub room : List ℕ → ℕ
room [] = 1
room (d ∷ ds) = 58 * room ds

-- The digits that the loops have not passed are 0.
abbrev pub ZeroFrom : ℕ → List ℕ → Type 0
ZeroFrom zero [] = Unit {0}
ZeroFrom (suc used) [] = ⊥
ZeroFrom zero (d ∷ ds) = (d ≡ 0) × ZeroFrom zero ds
ZeroFrom (suc used) (d ∷ ds) = ZeroFrom used ds

pub low_value-zeros : (ds : List ℕ) → ZeroFrom 0 ds → low_value ds ≡ 0
low_value-zeros [] h = refl
low_value-zeros (d ∷ ds) h = omega (arith, low_value-zeros ds h.1, h.0)

-- What a buffer of the same size holds afterwards.
pub record Holds (buf : List ℕ) (out : Option (List ℕ × ℕ)) (v : ℕ) : Type 0 where
  pub digits : List ℕ
  pub passed : ℕ
  pub result : out ≡ some (digits, passed)
  pub exact : low_value digits ≡ v
  pub below : AllBelow 58 digits
  pub zeros : ZeroFrom passed digits
  pub same_room : room digits ≡ room buf
  pub same_length : length digits ≡ length buf

ZeroFrom-pred : (used d : ℕ) (ds : List ℕ) → ZeroFrom used (d ∷ ds) → ZeroFrom (used - 1) ds
ZeroFrom-pred zero d ds h = h.1
ZeroFrom-pred (suc used) d ds h = rw sub-one h

round_on :
    (used carry d : ℕ) (ds : List ℕ)
    → (ltb 0 used || not (carry == 0)) ≡ true
    → carry_digits used carry (d ∷ ds)
      ≡ push_digit ((carry + 256 * d) % 58) (carry_digits (used - 1) ((carry + 256 * d) / 58) ds)
unfolding carry_digits
round_on used carry d ds go = rw (go, carry_digits)

round_off :
    (used carry d : ℕ) (ds : List ℕ)
    → (ltb 0 used || not (carry == 0)) ≡ false
    → (carry_digits used carry (d ∷ ds) ≡ some (d ∷ ds, 0)) × (used ≡ 0) × (carry ≡ 0)
unfolding carry_digits
round_off used carry d ds stop = (rw (stop, carry_digits), ground arith, ground arith)

-- The loop over j, with room for the result, does not leave the buffer.
carry_digits-Holds :
    (used carry : ℕ) (ds : List ℕ)
    → AllBelow 58 ds
    → ZeroFrom used ds
    → carry + 256 * low_value ds < room ds
    → Holds ds (carry_digits used carry ds) (carry + 256 * low_value ds)
carry_digits-Holds zero carry [] h z fit = record {
  digits = [];
  passed = 0;
  result = at_end carry (omega arith);
  exact = omega arith;
  below = tt;
  zeros = tt;
  same_room = refl;
  same_length = refl;
}
  where
    at_end : (c : ℕ) → c ≡ 0 → carry_digits 0 c [] ≡ some ([], 0)
    at_end c e = unfold carry_digits in rw e
carry_digits-Holds (suc used) carry [] h z fit = absurd z
carry_digits-Holds used carry (d ∷ ds) h z fit =
    elim (Bool-cases (ltb 0 used || not (carry == 0))) [
      | inl go ↦
          let total : ℕ = carry + 256 * d in
          let rest =
            carry_digits-Holds (used - 1) (total / 58) ds h.1 (ZeroFrom-pred used d ds z)
              (omega arith) in
          record {
            digits = total % 58 ∷ rest.digits;
            passed = suc rest.passed;
            result = round_on used carry d ds go ∙ pushed (total % 58) rest.result;
            exact = omega (arith, rest.exact);
            below = (omega arith, rest.below);
            zeros = rest.zeros;
            same_room = omega (arith, rest.same_room);
            same_length = omega (arith, rest.same_length);
          }
      | inr stop ↦
          let off = round_off used carry d ds stop in
          let zeros : ZeroFrom 0 (d ∷ ds) = subst (λ n. ZeroFrom n (d ∷ ds)) off.1 z in
          record {
            digits = d ∷ ds;
            passed = 0;
            result = off.0;
            exact = omega (arith, off.2, low_value-zeros (d ∷ ds) zeros);
            below = h;
            zeros = zeros;
            same_room = refl;
            same_length = refl;
          }
    ]
  where
    pushed :
        {ds : List ℕ} {n : ℕ} {out : Option (List ℕ × ℕ)} (t : ℕ)
        → out ≡ some (ds, n)
        → push_digit t out ≡ some (t ∷ ds, suc n)
    pushed t e = unfold push_digit in rw e

-- What is in the buffer after the bytes, if there is room for their number.
pub record Encodes (buf : List ℕ) (out : Option (List ℕ)) (v : ℕ) : Type 0 where
  pub digits : List ℕ
  pub result : out ≡ some digits
  pub exact : low_value digits ≡ v
  pub below : AllBelow 58 digits
  pub same_length : length digits ≡ length buf

pub encode_bytes-Encodes :
    (bytes : List ℕ) (used : ℕ) (buf : List ℕ)
    → AllBelow 58 buf
    → ZeroFrom used buf
    → be_value (low_value buf) bytes < room buf
    → Encodes buf (encode_bytes bytes used buf) (be_value (low_value buf) bytes)
unfolding encode_bytes
encode_bytes-Encodes [] used buf h z fit = record {
  digits = buf;
  result = refl;
  exact = refl;
  below = h;
  same_length = refl;
}
encode_bytes-Encodes (b ∷ bytes) used buf h z fit =
    let first =
      carry_digits-Holds used b buf h z
        (omega (arith, be_value-ge (256 * low_value buf + b) bytes)) in
    let same : low_value first.digits ≡ 256 * low_value buf + b = omega (arith, first.exact) in
    let total : be_value (low_value first.digits) bytes ≡ be_value (256 * low_value buf + b) bytes =
      ap (λ (n : ℕ). be_value n bytes) same in
    let rest =
      encode_bytes-Encodes bytes first.passed first.digits first.below first.zeros
        (omega (arith, total, first.same_room)) in
    record {
      digits = rest.digits;
      result = rw (first.result, encode_bytes) rest.result;
      exact = rest.exact ∙ total;
      below = rest.below;
      same_length = rest.same_length ∙ first.same_length;
    }
