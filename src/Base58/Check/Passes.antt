-- ===== src/Base58/Check/Passes.antt =====
-- What `b58check` of ios/Classes/base58.c lets pass.
use ether_flutter_plugin.Prelude.{
  ℕ, zero, suc, ◌+◌, ◌-◌, ◌*◌, ◌<◌, ◌≤◌, ◌≡◌, ◌≢◌, ◌∙◌, refl, ap, List, [], ◌∷◌, inl, inr, some,
  true, false, Bool-cases, ◌==◌, ltb, if◌then◌else◌, length, take, drop, get_or, arith,
}
use ether_flutter_plugin.Prelude.Bytes.{IsBytes, be_value}
use ether_flutter_plugin.Sha2.Sha256.{sha256_raw}
use ether_flutter_plugin.Sha2.Digest.{sha256_raw-bytes}
use ether_flutter_plugin.Base58.Digits.{count_front}
use ether_flutter_plugin.Base58.Check.{
  returned, same_bytes, check_zeros, first_byte, b58check, decoded, accept, version, checked_zeros,
}

same_bytes-take : (n : ℕ) (xs : List ℕ) → n ≤ length xs → same_bytes n (take n xs) xs ≡ true
unfolding same_bytes
same_bytes-take zero xs h = refl
same_bytes-take (suc n) [] h = absurd (omega arith)
same_bytes-take (suc n) (x ∷ xs) h = ground (arith, same_bytes-take n xs)

-- The loop over the zeros passes if there are as many leading `1`s as zeros, and another byte.
pub check_zeros-returned :
    (bin str : List ℕ)
    → count_front 0 bin ≡ count_front b'1' str
    → be_value 0 bin ≢ 0
    → check_zeros bin str ≡ returned true
unfolding check_zeros count_front
check_zeros-returned [] str e ne = absurd (ne refl)
check_zeros-returned (b ∷ bin) [] e ne = ground arith
check_zeros-returned (b ∷ bin) (c ∷ str) e ne = elim (Bool-cases (b == 0)) [
  | inl zero_byte ↦ elim (Bool-cases (c == b'1')) [
    | inl one ↦
        rw (zero_byte, one)
          (check_zeros-returned bin str (behind b c _ _ zero_byte one e)
            (λ z. ne (ap (λ (n : ℕ). be_value n bin) (zero_start b zero_byte) ∙ z)))
    | inr other ↦ absurd (fewer b c _ _ zero_byte other e)
  ]
  | inr some_byte ↦ rw (some_byte, no_one b c _ _ some_byte e)
]
  where
    behind :
        (b c m n : ℕ)
        → (b == 0) ≡ true
        → (c == b'1') ≡ true
        → (if b == 0 then suc m else 0) ≡ (if c == b'1' then suc n else 0)
        → m ≡ n
    behind b c m n h k e = ground arith

    fewer :
        (b c m n : ℕ)
        → (b == 0) ≡ true
        → (c == b'1') ≡ false
        → (if b == 0 then suc m else 0) ≡ (if c == b'1' then suc n else 0)
        → ⊥
    fewer b c m n h k e = ground arith

    no_one :
        (b c m n : ℕ)
        → (b == 0) ≡ false
        → (if b == 0 then suc m else 0) ≡ (if c == b'1' then suc n else 0)
        → (c == b'1') ≡ false
    no_one b c m n h e = ground arith

    zero_start : (b : ℕ) → (b == 0) ≡ true → 256 * 0 + b ≡ 0
    zero_start b e = ground arith

pub IsBytes-each : (xs : List ℕ) → ((t : ℕ) → get_or xs t 0 < 256) → IsBytes xs
IsBytes-each [] h = tt
IsBytes-each (x ∷ xs) h = (h 0, IsBytes-each xs (λ t. h (suc t)))

pub b58check_passes :
    (bin str payload : List ℕ)
    → ltb (length bin) 4 ≡ false
    → take (length bin - 4) bin ≡ payload
    → drop (length bin - 4) bin ≡ take 4 (sha256_raw (sha256_raw payload))
    → check_zeros bin str ≡ returned true
    → b58check bin str ≡ returned (version (first_byte bin))
unfolding b58check checked_zeros
b58check_passes bin str payload long front back zeros =
    let buf : List ℕ = sha256_raw (sha256_raw payload) in
    let size : length buf ≡ 32 = (sha256_raw-bytes (sha256_raw payload)).0 in
    rw (long, front, back, same_bytes-take 4 buf (omega (arith, size)), zeros)

-- A call of the decoder whose bytes have the size of the array.
pub decoded_whole :
    (n b : ℕ) (str bin : List ℕ)
    → length bin ≡ n
    → b58check bin str ≡ returned (version b)
    → decoded n str (some (bin, n)) ≡ returned (some (take (n - 4) bin))
unfolding decoded accept
decoded_whole n b str bin len ok =
    let none_before : n - n ≡ 0 = omega arith in
    let inside : ltb n n ≡ false = ground arith in rw (inside, none_before, ok, len)
