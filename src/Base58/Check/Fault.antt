-- ===== src/Base58/Check/Fault.antt =====
-- `base58_decode_check` of ios/Classes/base58.c on strings with too many leading `1`s.
use ether_flutter_plugin.Prelude.{
  ℕ, ◌+◌, ◌-◌, ◌%◌, ◌^◌, ◌<◌, ◌≤◌, ◌≡◌, ◌∙◌, refl, sym, ap, ap₂, List, [], ◌++◌, some, true, ltb,
  replicate, append-nil, arith,
}
use native.Mathlib.Nat.{one-le-pow}
use ether_flutter_plugin.Prelude.Bytes.{be_bytes}
use ether_flutter_plugin.Base58.Digits.{count_front, value58}
use ether_flutter_plugin.Base58.Encode.Value.{count_front-le}
use ether_flutter_plugin.Base58.Decode.{b58tobin}
use ether_flutter_plugin.Base58.Decode.Spec.{spec-digits, as_bytes-fits, b58tobin-decode_spec}
use ether_flutter_plugin.Base58.Check.Text.{
  text58, digits_of-text58, value58-zeros, count_front-text58,
}
use ether_flutter_plugin.Base58.Check.RoundTrip.{decode_allowed, not_above_128}
use ether_flutter_plugin.Base58.Check.{fault, decoded, base58_decode_check}

b58tobin-ones :
    (n k : ℕ)
    → n ≤ 2 ^ 63
    → k < 2 ^ 32
    → b58tobin n (text58 k []) ≡ some (be_bytes n 0, n - count_front 0 (be_bytes n 0) + k)
unfolding count_front
b58tobin-ones n k wide narrow =
    let v : ℕ = value58 0 (replicate k 0 ++ []) in
    let zero_value : v ≡ 0 = value58-zeros k [] in
    let ones : count_front b'1' (text58 k []) ≡ k = count_front-text58 k [] tt refl in
    b58tobin-decode_spec n (text58 k []) wide
    ∙ spec-digits n (text58 k []) (digits_of-text58 k [] tt)
    ∙ as_bytes-fits n (count_front b'1' (text58 k []) % 2 ^ 32) v
        (omega (arith, zero_value, one-le-pow n 256 (omega arith)))
    ∙ ap₂ (λ (w z : ℕ). some (be_bytes n w, n - count_front 0 (be_bytes n w) + z)) zero_value
        (omega (arith, ones))

decoded_before : (n res : ℕ) (str d : List ℕ) → n < res → decoded n str (some (d, res)) ≡ fault
unfolding decoded
decoded_before n res str d h = rw (less n res h)
  where
    less : (a b : ℕ) → a < b → ltb a b ≡ true
    less a b e = ground arith

-- For a string of fewer than 2^32 `1`s and nothing else, more than the data and the checksum have
-- bytes, and at most 128 bytes of data, `base58_decode_check` reads before its array.
pub base58_decode_check-fault :
    (k datalen : ℕ)
    → datalen ≤ 128
    → datalen + 4 < k
    → k < 2 ^ 32
    → base58_decode_check (replicate k b'1') datalen ≡ fault
base58_decode_check-fault k datalen h more narrow =
    let n : ℕ = datalen + 4 in
    let zeros = count_front-le 0 (be_bytes n 0) in
    ap (λ t. base58_decode_check t datalen) (sym (append-nil (replicate k b'1')))
    ∙ decode_allowed (text58 k []) datalen (not_above_128 datalen h)
        (b58tobin-ones n k (omega arith) narrow)
    ∙ decoded_before n (n - count_front 0 (be_bytes n 0) + k) (text58 k []) (be_bytes n 0)
        (omega arith)
