-- ===== src/Bip39/Recover.antt =====
-- What `mnemonic_from_data` of ios/Classes/bip39.c writes, `data_from_mnemonic` and `mnemonic_check`
-- read; the hash is `sha256_Raw`.
use ether_flutter_plugin.Prelude.{
  ℕ, ◌+◌, ◌-◌, ◌*◌, ◌/◌, ◌%◌, ◌^◌, ◌<◌, ◌≤◌, ◌≡◌, ◌∙◌, ◌⊎◌, inl, inr, refl, ap, true, false, List,
  some, get_or, length, take, arith,
}
use ether_flutter_plugin.Sha2.Sha256.{sha256_raw}
use ether_flutter_plugin.Sha2.Digest.{sha256_raw-bytes}
use ether_flutter_plugin.Bip39.Encode.{bad_length, checked_bits, mnemonic_from_data}
use ether_flutter_plugin.Bip39.Decode.{
  count_spaces, data_from_mnemonic, mnemonic_check, checksum_mask,
}
use ether_flutter_plugin.Bip39.Sentence.{sentence}
use ether_flutter_plugin.Bip39.Checksum.{mask-off4, mask-off6}
use ether_flutter_plugin.Bip39.RoundTrip.{rejected, Restores, restores, count_spaces-sentence}

mnemonic_from_data_lem :
    (input : List ℕ) (n : ℕ)
    → bad_length (length input) ≡ false
    → length input * 3 / 4 ≡ n
    → mnemonic_from_data sha256_raw input ≡ some (sentence (checked_bits sha256_raw input) n 0)
unfolding mnemonic_from_data
mnemonic_from_data_lem input n ok words =
    rw (ok, mnemonic_from_data)
      (ap (λ (m : ℕ). some (sentence (checked_bits sha256_raw input) m 0)) words)

recover :
    (input : List ℕ) (k : ℕ)
    → length input ≡ 4 * k
    → bad_length (length input) ≡ false
    → 1 ≤ k
    → k ≤ 8
    → rejected (3 * k) ≡ false
    → ((s : ℕ) → k ≤ s → s < 8 → checksum_mask k / 2 ^ (7 - s) % 2 ≡ 0)
    → ((t : ℕ) → get_or input t 0 < 256)
    → (mnemonic : List ℕ) × (mnemonic_from_data sha256_raw input ≡ some mnemonic)
      × Restores sha256_raw input k mnemonic
recover input k len ok low high count off bytes =
    let (size, hash_bytes) = sha256_raw-bytes input in
    (
      sentence (checked_bits sha256_raw input) (3 * k) 0,
      mnemonic_from_data_lem input (3 * k) ok (omega arith),
      restores sha256_raw input k len (omega arith) (hash_bytes 0) bytes low high count off,
    )

check-data_from_mnemonic :
    (m out : List ℕ) (len : ℕ)
    → 0 < len
    → data_from_mnemonic sha256_raw m ≡ some (len, out)
    → mnemonic_check sha256_raw m ≡ true
unfolding mnemonic_check
check-data_from_mnemonic m out len h e = rw (e, mnemonic_check) (ground arith)

recover_lengths :
    (input : List ℕ)
    → (length input ≡ 16) ⊎ ((length input ≡ 24) ⊎ (length input ≡ 32))
    → ((t : ℕ) → get_or input t 0 < 256)
    → (mnemonic : List ℕ) × (mnemonic_from_data sha256_raw input ≡ some mnemonic)
      × ((out : List ℕ) × (data_from_mnemonic sha256_raw mnemonic ≡ some (length input, out))
          × (take (length input) out ≡ input))
unfolding bad_length
recover_lengths input (inl e) bytes =
    recover input 4 e (rw e refl) (omega arith) (omega arith) refl mask-off4 bytes
recover_lengths input (inr (inl e)) bytes =
    recover input 6 e (rw e refl) (omega arith) (omega arith) refl mask-off6 bytes
recover_lengths input (inr (inr e)) bytes =
    recover input 8 e (rw e refl) (omega arith) (omega arith) refl (λ s h k. absurd (omega arith))
      bytes

-- For data of 16, 24 or 32 elements, each a byte, `mnemonic_from_data` gives a sentence;
-- `data_from_mnemonic` reads from it the length of the data and an array that begins with the data,
-- and `mnemonic_check` accepts it.
pub data_from_mnemonic-mnemonic_from_data :
    (input : List ℕ)
    → (length input ≡ 16) ⊎ ((length input ≡ 24) ⊎ (length input ≡ 32))
    → ((t : ℕ) → get_or input t 0 < 256)
    → (mnemonic : List ℕ) × (out : List ℕ) × (mnemonic_from_data sha256_raw input ≡ some mnemonic)
      × (data_from_mnemonic sha256_raw mnemonic ≡ some (length input, out))
      × (take (length input) out ≡ input)
      × (mnemonic_check sha256_raw mnemonic ≡ true)
data_from_mnemonic-mnemonic_from_data input lengths bytes =
    let (mnemonic, written, (out, read, same)) = recover_lengths input lengths bytes in
    (
      mnemonic,
      out,
      written,
      read,
      same,
      check-data_from_mnemonic mnemonic out (length input) (ground arith) read,
    )

reject-words :
    (m : List ℕ) (n : ℕ)
    → count_spaces m + 1 ≡ n
    → rejected n ≡ true
    → mnemonic_check sha256_raw m ≡ false
unfolding mnemonic_check data_from_mnemonic
reject-words m n words test =
    let test' : rejected (count_spaces m + 1) ≡ true = ap rejected words ∙ test in
    rw (test', mnemonic_check, data_from_mnemonic) refl

-- For data of 20 or 28 elements `mnemonic_from_data` gives a sentence, and `mnemonic_check` rejects
-- it.
pub mnemonic_check-mnemonic_from_data :
    (input : List ℕ)
    → (length input ≡ 20) ⊎ (length input ≡ 28)
    → (mnemonic : List ℕ) × (mnemonic_from_data sha256_raw input ≡ some mnemonic)
      × (mnemonic_check sha256_raw mnemonic ≡ false)
unfolding bad_length
mnemonic_check-mnemonic_from_data input (inl e) =
    let bits : List ℕ = checked_bits sha256_raw input in
    (
      sentence bits 15 0,
      mnemonic_from_data_lem input 15 (rw e refl) (omega arith),
      reject-words (sentence bits 15 0) 15 (omega (arith, count_spaces-sentence bits 14 0)) refl,
    )
mnemonic_check-mnemonic_from_data input (inr e) =
    let bits : List ℕ = checked_bits sha256_raw input in
    (
      sentence bits 21 0,
      mnemonic_from_data_lem input 21 (rw e refl) (omega arith),
      reject-words (sentence bits 21 0) 21 (omega (arith, count_spaces-sentence bits 20 0)) refl,
    )
