-- ===== src/Base58/Examples.antt =====
-- The functions of ios/Classes/base58.c at concrete data.
use ether_flutter_plugin.Prelude.{
  ℕ, ◌+◌, ◌-◌, ◌*◌, ◌/◌, ◌≤◌, ◌≡◌, ◌≢◌, refl, List, [], ◌∷◌, ◌++◌, map, some, take, length, leb,
  if◌then◌else◌, replicate, arith,
}
use ether_flutter_plugin.Prelude.Bytes.{be_value}
use ether_flutter_plugin.Prelude.BigEndian.{be_value-ge}
use ether_flutter_plugin.Sha2.Sha256.{sha256_raw}
use ether_flutter_plugin.Base58.Digits.{count_front, char_of, digit_of}
use ether_flutter_plugin.Base58.Encode.{b58enc, written, too_small}
use ether_flutter_plugin.Base58.Encode.Value.{Digits58, b58enc-Digits58}
use ether_flutter_plugin.Base58.Decode.{b58tobin}
use ether_flutter_plugin.Base58.Decode.Spec.{decode_spec, b58tobin-decode_spec}
use ether_flutter_plugin.Base58.Check.{returned, fault, base58_encode_check, base58_decode_check}
use ether_flutter_plugin.Base58.Check.RoundTrip.{
  with_checksum, base58_decode_check-base58_encode_check,
}
use ether_flutter_plugin.Base58.Check.Fault.{base58_decode_check-fault}

-- "Hello World!" without the quotes.
abbrev hello : List ℕ
hello = b'H' ∷ b'e' ∷ b'l' ∷ b'l' ∷ b'o' ∷ b' ' ∷ b'W' ∷ b'o' ∷ b'r' ∷ b'l' ∷ b'd' ∷ b'!' ∷ []

-- Its digits, "2NEpo7TZRRrLZSi2U".
abbrev hello58 : List ℕ
hello58 =
    b'2' ∷ b'N' ∷ b'E' ∷ b'p' ∷ b'o' ∷ b'7' ∷ b'T' ∷ b'Z' ∷ b'R' ∷ b'R' ∷ b'r' ∷ b'L' ∷ b'Z' ∷ b'S'
    ∷ b'i' ∷ b'2' ∷ b'U' ∷ []

hello_encoded : b58enc 40 hello ≡ some (written hello58 18)
unfolding b58enc char_of
hello_encoded = refl

no_room : b58enc 17 hello ≡ some (too_small 18)
unfolding b58enc
no_room = refl

hello_decoded : b58tobin 12 hello58 ≡ some (hello, 12)
unfolding b58tobin digit_of
hello_decoded = refl

b58enc-Digits58_example :
    (digits : List ℕ) × Digits58 digits (be_value 0 hello)
    × (length digits ≤ (length hello - count_front 0 hello) * 138 / 100 + 1)
    × (b58enc 40 hello
        ≡ some (
            if leb 40 (count_front 0 hello + length digits)
            then too_small (count_front 0 hello + length digits + 1)
            else written
                (replicate (count_front 0 hello) b'1' ++ map char_of digits)
                (count_front 0 hello + length digits + 1)))
b58enc-Digits58_example = b58enc-Digits58 40 hello (omega arith) (omega arith)

b58tobin-decode_spec_example : b58tobin 12 hello58 ≡ decode_spec 12 hello58
b58tobin-decode_spec_example = b58tobin-decode_spec 12 hello58 (omega arith)

hello-ne-zero : be_value 0 (with_checksum hello) ≢ 0
hello-ne-zero e =
    absurd
      (omega (arith, e, be_value-ge (be_value 0 hello) (take 4 (sha256_raw (sha256_raw hello)))))

base58_decode_check-base58_encode_check_example :
    (str : List ℕ) × (base58_encode_check hello 40 ≡ returned (some (str, length str + 1)))
    × (base58_decode_check str (length hello) ≡ returned (some hello))
base58_decode_check-base58_encode_check_example =
    base58_decode_check-base58_encode_check hello 40 (omega arith) (omega arith) hello-ne-zero
      (omega arith)

base58_decode_check-fault_example : base58_decode_check (replicate 10 b'1') 5 ≡ fault
base58_decode_check-fault_example =
    base58_decode_check-fault 10 5 (omega arith) (omega arith) (omega arith)
