-- ===== src/Base58/Check/RoundTrip.antt =====
-- `base58_decode_check` of ios/Classes/base58.c takes back what `base58_encode_check` writes.
use ether_flutter_plugin.Prelude.{
  ℕ, ◌+◌, ◌-◌, ◌*◌, ◌%◌, ◌^◌, ◌<◌, ◌≤◌, ◌≡◌, ◌≢◌, ◌∙◌, sym, ap, ap₂, List, ◌++◌, Option, none, some,
  false, ltb, leb, if◌then◌else◌, length, length-append, length-take, take, take-append,
  drop-append, replicate, arith,
}
use ether_flutter_plugin.Prelude.Bytes.{IsBytes, IsBytes-take, IsBytes-append, be_value, be_bytes}
use ether_flutter_plugin.Prelude.BigEndian.{be_value-lt_pow, be_bytes_unique}
use ether_flutter_plugin.Sha2.Sha256.{sha256_raw}
use ether_flutter_plugin.Sha2.Digest.{sha256_raw-bytes}
use ether_flutter_plugin.Base58.Digits.{count_front, value58}
use ether_flutter_plugin.Base58.Encode.{b58enc, Encoded, written, too_small}
use ether_flutter_plugin.Base58.Encode.Value.{Digits58, b58enc-Digits58, count_front-le}
use ether_flutter_plugin.Base58.Decode.{b58tobin}
use ether_flutter_plugin.Base58.Decode.Spec.{spec-digits, as_bytes-fits, b58tobin-decode_spec}
use ether_flutter_plugin.Base58.Check.{
  returned, first_byte, b58check, base58_encode_check, base58_decode_check, decoded, version,
  encoded_size,
}
use ether_flutter_plugin.Base58.Check.Text.{
  text58, digits_of-text58, value58-zeros, count_front-text58, length-text58,
}
use ether_flutter_plugin.Base58.Check.Passes.{
  check_zeros-returned, IsBytes-each, b58check_passes, decoded_whole,
}

-- The data with the four bytes of checksum behind them.
abbrev pub with_checksum : List ℕ → List ℕ
with_checksum bytes = bytes ++ take 4 (sha256_raw (sha256_raw bytes))

module _ (bytes : List ℕ) where
  length-checksum : length (take 4 (sha256_raw (sha256_raw bytes))) ≡ 4
  length-checksum =
      length-take 4 (sha256_raw (sha256_raw bytes))
      ∙ omega (arith, (sha256_raw-bytes (sha256_raw bytes)).0)

  length-with_checksum : length (with_checksum bytes) ≡ length bytes + 4
  length-with_checksum =
      length-append bytes (take 4 (sha256_raw (sha256_raw bytes))) ∙ omega (arith, length-checksum)

  with_checksum-IsBytes : IsBytes bytes → IsBytes (with_checksum bytes)
  with_checksum-IsBytes h = IsBytes-append bytes (take 4 (sha256_raw (sha256_raw bytes))) h (
      IsBytes-take 4 (sha256_raw (sha256_raw bytes))
        (IsBytes-each (sha256_raw (sha256_raw bytes)) (sha256_raw-bytes (sha256_raw bytes)).1))

  -- `b58check` passes the data with their checksum and the string with as many `1`s as zeros.
  b58check-version :
      (str : List ℕ)
      → count_front 0 (with_checksum bytes) ≡ count_front b'1' str
      → be_value 0 (with_checksum bytes) ≢ 0
      → b58check (with_checksum bytes) str ≡ returned (version (first_byte (with_checksum bytes)))
  b58check-version str e ne =
      let bin : List ℕ = with_checksum bytes in
      let tail : List ℕ = take 4 (sha256_raw (sha256_raw bytes)) in
      b58check_passes bin str bytes (at_least_four (length bin) length-with_checksum)
        (take-append (length bin - 4) bytes tail (omega (arith, length-with_checksum)))
        (drop-append (length bin - 4) bytes tail 0 (omega (arith, length-with_checksum)))
        (check_zeros-returned bin str e ne)
    where
      at_least_four : (n : ℕ) → n ≡ length bytes + 4 → ltb n 4 ≡ false
      at_least_four n e = ground arith

  -- The bytes that the decoder reads from the encoder's string.
  b58tobin-text58 :
      (ds : List ℕ)
      → IsBytes bytes
      → length bytes ≤ 128
      → Digits58 ds (be_value 0 (with_checksum bytes))
      → b58tobin (length bytes + 4) (text58 (count_front 0 (with_checksum bytes)) ds)
        ≡ some (with_checksum bytes, length bytes + 4)
  b58tobin-text58 ds h short d =
      let n : ℕ = length bytes + 4 in
      let bin : List ℕ = with_checksum bytes in
      let z : ℕ = count_front 0 bin in
      let str : List ℕ = text58 z ds in
      let v : ℕ = value58 0 (replicate z 0 ++ ds) in
      let total : v ≡ be_value 0 bin = value58-zeros z ds ∙ d.exact in
      let all_bytes = with_checksum-IsBytes h in
      let small : v < 256 ^ n = omega (
        arith,
        total,
        be_value-lt_pow 0 bin all_bytes,
        ap (λ (t : ℕ). 256 ^ t) length-with_checksum,
      ) in
      let same : be_bytes n v ≡ bin =
        be_bytes_unique n v bin all_bytes length-with_checksum (sym total) in
      let ones = count_front-text58 z ds d.below d.canonical in
      let size : n - z + z ≡ n = omega (arith, count_front-le 0 bin, length-with_checksum) in
      b58tobin-decode_spec n str (omega arith)
      ∙ spec-digits n str (digits_of-text58 z ds d.below)
      ∙ as_bytes-fits n (count_front b'1' str % 2 ^ 32) v small
      ∙ ap₂ (λ b ones. some (b, n - count_front 0 b + ones)) same
          (omega (arith, ones, count_front-le 0 bin, length-with_checksum))
      ∙ ap (λ (t : ℕ). some (bin, t)) size

encode_allowed :
    (bytes : List ℕ) (strsize : ℕ) {e : Encoded}
    → ltb 128 (length bytes) ≡ false
    → b58enc strsize (with_checksum bytes) ≡ some e
    → base58_encode_check bytes strsize ≡ encoded_size (some e)
unfolding base58_encode_check
encode_allowed bytes strsize allowed enc =
    ap (λ b. if b then returned none else encoded_size (b58enc strsize (with_checksum bytes)))
      allowed
    ∙ ap encoded_size enc

pub decode_allowed :
    (str : List ℕ) (datalen : ℕ) {o : Option (List ℕ × ℕ)}
    → ltb 128 datalen ≡ false
    → b58tobin (datalen + 4) str ≡ o
    → base58_decode_check str datalen ≡ decoded (datalen + 4) str o
unfolding base58_decode_check
decode_allowed str datalen allowed dec =
    ap (λ b. if b then returned none else decoded (datalen + 4) str (b58tobin (datalen + 4) str))
      allowed
    ∙ ap (decoded (datalen + 4) str) dec

pub not_above_128 : (n : ℕ) → n ≤ 128 → ltb 128 n ≡ false
not_above_128 n h = ground arith

-- For at most 128 bytes of data that are not all zeros with their checksum, and room for twice as
-- many characters and ten, `base58_encode_check` writes a string, and `base58_decode_check` takes
-- the data back from it.
pub base58_decode_check-base58_encode_check :
    (bytes : List ℕ) (strsize : ℕ)
    → IsBytes bytes
    → length bytes ≤ 128
    → be_value 0 (with_checksum bytes) ≢ 0
    → 2 * length bytes + 10 ≤ strsize
    → (str : List ℕ) × (base58_encode_check bytes strsize ≡ returned (some (str, length str + 1)))
      × (base58_decode_check str (length bytes) ≡ returned (some bytes))
unfolding encoded_size
base58_decode_check-base58_encode_check bytes strsize h short ne roomy =
    let bin : List ℕ = with_checksum bytes in
    let z : ℕ = count_front 0 bin in
    let n : ℕ = length bytes + 4 in
    let len = length-with_checksum bytes in
    let (ds, d, few, enc) =
      b58enc-Digits58 strsize bin (with_checksum-IsBytes bytes h) (omega arith) in
    let str : List ℕ = text58 z ds in
    let fits : leb strsize (z + length ds) ≡ false =
      above strsize (z + length ds) (omega (arith, few, len, count_front-le 0 bin)) in
    let allowed = not_above_128 (length bytes) short in
    let out : Encoded = written str (z + length ds + 1) in
    let placed : (if leb strsize (z + length ds) then too_small (z + length ds + 1) else out)
        ≡ out =
      ap (λ b. if b then too_small (z + length ds + 1) else out) fits in
    let ok = b58check-version bytes str (sym (count_front-text58 z ds d.below d.canonical)) ne in
    let front : take (n - 4) bin ≡ bytes =
      take-append (n - 4) bytes (take 4 (sha256_raw (sha256_raw bytes))) (omega arith) in
    (
      str,
      encode_allowed bytes strsize allowed (enc ∙ ap some placed)
          ∙ ap (λ (m : ℕ). returned (some (str, m + 1))) (sym (length-text58 z ds)),
      decode_allowed str (length bytes) allowed (b58tobin-text58 bytes ds h short d)
          ∙ decoded_whole n (first_byte bin) str bin len ok
          ∙ ap (λ t. returned (some t)) front,
    )
  where
    above : (a b : ℕ) → b < a → leb a b ≡ false
    above a b e = ground arith
