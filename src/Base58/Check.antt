-- ===== src/Base58/Check.antt =====
-- The forms with a checksum of ios/Classes/base58.c: `b58check`, `base58_encode_check` and
-- `base58_decode_check`.
use ether_flutter_plugin.Prelude.{
  ℕ, zero, suc, ◌+◌, ◌-◌, List, [], ◌∷◌, ◌++◌, Option, none, some, true, false, Bool, ◌==◌, not,
  ◌||◌, ◌&&◌, ltb, if◌then◌else◌, length, take, drop,
}
use ether_flutter_plugin.Sha2.Sha256.{sha256_raw}
use ether_flutter_plugin.Base58.Encode.{b58enc, Encoded, written, too_small}
use ether_flutter_plugin.Base58.Decode.{b58tobin}
pub mod Text
pub mod Passes
pub mod RoundTrip
pub mod Fault

-- A call that returns, or that reads or writes outside an array.
pub data Outcome {ℓ} (A : Type ℓ) : Type ℓ where
  returned : A → Outcome A
  fault : Outcome A

-- What `b58check` returns: -4, -1, -3, or the first byte.
pub data Checked : Type 0 where
  too_short bad_checksum bad_zeros : Checked
  version : ℕ → Checked

-- `memcmp` on four bytes: whether they are the same.
unfoldable pub same_bytes : ℕ → List ℕ → List ℕ → Bool
same_bytes zero xs ys = true
same_bytes (suc n) [] ys = false
same_bytes (suc n) (x ∷ xs) [] = false
same_bytes (suc n) (x ∷ xs) (y ∷ ys) = x == y && same_bytes n xs ys

-- The loop over the zeros and the test behind it. The string ends with a 0; a read behind the bytes
-- is a fault.
unfoldable pub check_zeros : List ℕ → List ℕ → Outcome Bool
check_zeros [] str = fault
check_zeros (b ∷ bin) [] = returned (not (b == 0))
check_zeros (b ∷ bin) (c ∷ str) =
    if b == 0 && c == b'1' then check_zeros bin str else returned (not (b == 0 || c == b'1'))

unfoldable pub first_byte : List ℕ → ℕ
first_byte [] = 0
first_byte (b ∷ bin) = b

unfoldable pub checked_zeros : ℕ → Outcome Bool → Outcome Checked
checked_zeros b fault = fault
checked_zeros b (returned true) = returned (version b)
checked_zeros b (returned false) = returned bad_zeros

unfoldable pub b58check : List ℕ → List ℕ → Outcome Checked
unfolding same_bytes check_zeros first_byte checked_zeros
b58check bin base58str =
    let binsz = length bin in
    let buf = sha256_raw (sha256_raw (take (binsz - 4) bin)) in
    if ltb binsz 4
    then returned too_short
    else if not (same_bytes 4 (drop (binsz - 4) bin) buf)
    then returned bad_checksum
    else checked_zeros (first_byte bin) (check_zeros bin base58str)

-- The string and its size, or `none` for the result 0. The array `buf` takes the data and 32 bytes
-- of hash.
unfoldable pub encoded_size : Option Encoded → Outcome (Option (List ℕ × ℕ))
encoded_size none = fault
encoded_size (some (written str res)) = returned (some (str, res))
encoded_size (some (too_small res)) = returned none

unfoldable pub base58_encode_check : List ℕ → ℕ → Outcome (Option (List ℕ × ℕ))
unfolding b58enc encoded_size
base58_encode_check bytes strsize =
    let hash = sha256_raw (sha256_raw bytes) in
    if ltb 128 (length bytes)
    then returned none
    else encoded_size (b58enc strsize (bytes ++ take 4 hash))

-- The bytes without their checksum if that is right.
unfoldable pub accept : List ℕ → Outcome Checked → Outcome (Option (List ℕ))
accept nd fault = fault
accept nd (returned (version b)) = returned (some (take (length nd - 4) nd))
accept nd (returned too_short) = returned none
accept nd (returned bad_checksum) = returned none
accept nd (returned bad_zeros) = returned none

-- `nd` lies before `d` if there are more leading `1`s than bytes.
unfoldable pub decoded : ℕ → List ℕ → Option (List ℕ × ℕ) → Outcome (Option (List ℕ))
unfolding b58check accept
decoded size str none = returned none
decoded size str (some (d, res)) =
    let nd = drop (size - res) d in if ltb size res then fault else accept nd (b58check nd str)

-- The data that are copied, or `none` for the result 0.
unfoldable pub base58_decode_check : List ℕ → ℕ → Outcome (Option (List ℕ))
unfolding b58tobin decoded
base58_decode_check str datalen =
    if ltb 128 datalen
    then returned none
    else decoded (datalen + 4) str (b58tobin (datalen + 4) str)
