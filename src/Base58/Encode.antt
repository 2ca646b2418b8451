-- ===== src/Base58/Encode.antt =====
-- `b58enc` of ios/Classes/base58.c. The buffer is the list of its digits from the last one down.
use ether_flutter_plugin.Prelude.{
  ℕ, zero, suc, ◌+◌, ◌-◌, ◌*◌, ◌/◌, ◌%◌, List, [], ◌∷◌, ◌++◌, map, Option, none, some, true, false,
  ◌==◌, ltb, leb, not, ◌||◌, if◌then◌else◌, length, drop, replicate, u64,
}
use mathlib.Core.List.{reverse}
use mathlib.Core.Option
use ether_flutter_plugin.Base58.Digits.{char_of, count_front, skip_front}
pub mod Carry
pub mod Room
pub mod Value

unfoldable pub push_digit : ℕ → Option (List ℕ × ℕ) → Option (List ℕ × ℕ)
push_digit d none = none
push_digit d (some (ds, passed)) = some (d ∷ ds, suc passed)

-- The loop over j with `used` = j - high, from the digits at j down: the new digits, and how many
-- the loop has passed. A write below the buffer is `none`.
unfoldable pub carry_digits : ℕ → ℕ → List ℕ → Option (List ℕ × ℕ)
unfolding push_digit
carry_digits used carry [] = if ltb 0 used || not (carry == 0) then none else some ([], 0)
carry_digits used carry (d ∷ ds) =
    let total = carry + 256 * d in
    elim (ltb 0 used || not (carry == 0)) [
      | true ↦ push_digit (total % 58) (carry_digits (used - 1) (total / 58) ds)
      | false ↦ some (d ∷ ds, 0)
    ]

-- The loop over i: the bytes go in one by one.
unfoldable pub encode_bytes : List ℕ → ℕ → List ℕ → Option (List ℕ)
unfolding carry_digits
encode_bytes [] used buf = some buf
encode_bytes (b ∷ bytes) used buf = elim (carry_digits used b buf) [
  | none ↦ none
  | some (buf', used') ↦ encode_bytes bytes used' buf'
]

-- The string with the size that is stored, or the size that it wants.
pub data Encoded : Type 0 where
  written : List ℕ → ℕ → Encoded
  too_small : ℕ → Encoded

-- The characters behind the leading `1`s, if the string has room for them and the final 0.
unfoldable pub place : ℕ → ℕ → List ℕ → Encoded
place b58sz zcount digits =
    let n = zcount + length digits in
    if leb b58sz n
    then too_small (n + 1)
    else written (replicate zcount b'1' ++ map char_of digits) (n + 1)

unfoldable pub b58enc : ℕ → List ℕ → Option Encoded
unfolding encode_bytes count_front skip_front place
b58enc b58sz bin =
    let zcount = count_front 0 bin in
    let size = u64 ((length bin - zcount) * 138) / 100 + 1 in
    Option.map (λ buf. place b58sz zcount (skip_front 0 (reverse buf)))
      (encode_bytes (drop zcount bin) 0 (replicate size 0))
