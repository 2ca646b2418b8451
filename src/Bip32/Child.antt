-- ===== src/Bip32/Child.antt =====
-- `hdnode_private_ckd` of ios/Classes/bip32.c derives the child keys of BIP 32, with numbers modulo
-- the order of the group.
use ether_flutter_plugin.Prelude.{
  ℕ, zero, suc, ◌+◌, ◌/◌, ◌%◌, ◌^◌, ◌<◌, ◌≤◌, ◌≡◌, ◌≢◌, ◌⊎◌, inl, inr, ◌∙◌, refl, sym, ap, ap₂, not,
  ◌==◌, List, [], ◌∷◌, ◌++◌, Option, none, some, length, take, drop, arith, u8, u32, ◌>>>◌, leb,
  if◌then◌else◌, bit_and, replicate,
}
use ether_flutter_plugin.Prelude.Bits.{bit_and_single}
use ether_flutter_plugin.Prelude.Bytes.{IsBytes, be_value, be_bytes}
use ether_flutter_plugin.Hmac.{hmac_sha512}
use ether_flutter_plugin.Bignum.Value.{value}
use ether_flutter_plugin.Bignum.Bytes.{bn_read_be, write_be}
use ether_flutter_plugin.Bignum.Bytes.Read.{bn_read_be-value}
use ether_flutter_plugin.Bignum.Bytes.Write.{length-bn_read_be}
use ether_flutter_plugin.Bignum.Reduce.FastMod.{IsModulus}
use ether_flutter_plugin.Bip32.{
  EcdsaCurve, secp256k1, CurveInfo, secp256k1_info, params, child_key, child_digest, child_node,
  child_result, ckd_from, next_data, HdNode, derived, hdnode_fill_public_key, parent_data,
  hdnode_private_ckd,
}
use ether_flutter_plugin.Bip32.Key.{
  length-hmac_sha512, hmac_sha512-IsBytes, secp256k1-IsModulus, child_key-some, child_key-none,
  half_lem,
}

-- The halves of a digest: a number, and a chain code.
abbrev pub left : List ℕ → ℕ
left digest = be_value 0 (take 32 digest)

abbrev pub right : List ℕ → List ℕ
right digest = take 32 (drop 32 digest)

-- The digest of round k: each round hashes the right half of the digest before it.
abbrev pub round_digest : List ℕ → ℕ → List ℕ → ℕ → List ℕ
round_digest chain_code i digest zero = digest
round_digest chain_code i digest (suc k) =
    round_digest chain_code i (hmac_sha512 chain_code (1 ∷ right digest ++ be_bytes 4 i)) k

-- n is the order of the group, and `key` the parent's key.
abbrev pub Accepts : ℕ → ℕ → List ℕ → Type 0
Accepts n key digest = (left digest < n) × ((left digest + key) % n ≢ 0)

abbrev pub Rejects : ℕ → ℕ → List ℕ → Type 0
Rejects n key digest = (n ≤ left digest) ⊎ ((left digest + key) % n ≡ 0)

write_be-be_bytes : (i : ℕ) → write_be i ≡ be_bytes 4 i
unfolding write_be
write_be-be_bytes i =
    let lowest : i % 256 ≡ i / 256 ^ 0 % 256 = omega arith in
    ap (λ b. u8 (i >>> 24) ∷ u8 (i >>> 16) ∷ u8 (i >>> 8) ∷ b ∷ []) lowest

next_digest :
    (chain_code digest : List ℕ) (i : ℕ)
    → hmac_sha512 chain_code (next_data digest i)
      ≡ hmac_sha512 chain_code (1 ∷ right digest ++ be_bytes 4 i)
unfolding next_data
next_digest chain_code digest i =
    ap (λ b. hmac_sha512 chain_code (1 ∷ right digest ++ b)) (write_be-be_bytes i)

params-secp256k1 : (info : CurveInfo) → params info ≡ some secp256k1
unfolding params
params-secp256k1 secp256k1_info = refl

module _ (p : EcdsaCurve) (hp : IsModulus p.order) (private_key : List ℕ)
    (len : length private_key ≡ 32) (bytes : IsBytes private_key) where
  abbrev key : ℕ
  key = be_value 0 private_key

  abbrev n : ℕ
  n = value p.order

  accepted :
      (digest : List ℕ)
      → length digest ≡ 64
      → IsBytes digest
      → Accepts n key digest
      → child_key p (bn_read_be private_key) (bn_read_be (take 32 digest))
        ≡ some (be_bytes 32 ((left digest + key) % n))
  accepted digest e h good =
      let half = half_lem digest e h in
      let read = bn_read_be-value private_key len bytes in
      let same : value (bn_read_be (take 32 digest)) + value (bn_read_be private_key)
          ≡ left digest + key =
        omega (arith, half.exact, read.0) in
      child_key-some p (bn_read_be private_key) (bn_read_be (take 32 digest)) hp
        (length-bn_read_be private_key) half.limbs read.1 half.normal
        (omega (arith, half.exact, good.0)) (λ z. good.1 (ap (λ (s : ℕ). s % n) (sym same) ∙ z))
      ∙ ap (λ (s : ℕ). some (be_bytes 32 (s % n))) same

  rejected :
      (digest : List ℕ)
      → length digest ≡ 64
      → IsBytes digest
      → Rejects n key digest
      → child_key p (bn_read_be private_key) (bn_read_be (take 32 digest)) ≡ none
  rejected digest e h bad =
      let half = half_lem digest e h in
      let read = bn_read_be-value private_key len bytes in
      let same : value (bn_read_be (take 32 digest)) + value (bn_read_be private_key)
          ≡ left digest + key =
        omega (arith, half.exact, read.0) in
      child_key-none p (bn_read_be private_key) (bn_read_be (take 32 digest)) hp
        (length-bn_read_be private_key) half.limbs read.1 half.normal
        (elim bad [
          | inl above ↦ inl (omega (arith, half.exact))
          | inr zero_sum ↦ inr (ap (λ (s : ℕ). s % n) same ∙ zero_sum)
        ])

  child_digest_lem :
      (chain_code : List ℕ) (i fuel k : ℕ) (digest : List ℕ)
      → length digest ≡ 64
      → IsBytes digest
      → k < fuel
      → ((j : ℕ) → j < k → Rejects n key (round_digest chain_code i digest j))
      → Accepts n key (round_digest chain_code i digest k)
      → child_digest fuel p chain_code i (bn_read_be private_key) digest
        ≡ some (
          be_bytes 32 ((left (round_digest chain_code i digest k) + key) % n),
          round_digest chain_code i digest k,
        )
  unfolding child_digest
  child_digest_lem chain_code i zero k digest e h enough bad good = absurd (omega arith)
  child_digest_lem chain_code i (suc fuel) zero digest e h enough bad good =
      rw (accepted digest e h good, child_digest) refl
  child_digest_lem chain_code i (suc fuel) (suc k) digest e h enough bad good =
      let next : List ℕ = hmac_sha512 chain_code (1 ∷ right digest ++ be_bytes 4 i) in
      rw (rejected digest e h (bad 0 (omega arith)), child_digest)
        (ap (child_digest fuel p chain_code i (bn_read_be private_key))
            (next_digest chain_code digest i)
          ∙ child_digest_lem chain_code i fuel k next
              (length-hmac_sha512 chain_code (1 ∷ right digest ++ be_bytes 4 i))
              (hmac_sha512-IsBytes chain_code (1 ∷ right digest ++ be_bytes 4 i)) (omega arith)
              (λ j hj. bad (suc j) (omega arith)) good)

-- The highest bit of a number of 32 bits.
hardened : (i : ℕ) → i < 2 ^ 32 → not (bit_and i 0x80000000 == 0) ≡ leb (2 ^ 31) i
hardened i h = ground (arith, bit_and_single 31 i)

module _ (ecdsa_get_public_key33 : Option EcdsaCurve → List ℕ → List ℕ) where
  -- The digest of the first round, as BIP 32 gives it.
  abbrev pub first_digest : HdNode → ℕ → List ℕ
  first_digest node i = hmac_sha512 node.chain_code (
      (if leb (2 ^ 31) i
        then 0 ∷ node.private_key
        else take 33 (hdnode_fill_public_key ecdsa_get_public_key33 node).public_key)
      ++ be_bytes 4 i)

  abbrev pub ckd_digest : HdNode → ℕ → ℕ → List ℕ
  ckd_digest node i k = round_digest node.chain_code i (first_digest node i) k

  first_lem :
      (node : HdNode) (i : ℕ)
      → i < 2 ^ 32
      → hmac_sha512 node.chain_code (parent_data ecdsa_get_public_key33 node i ++ write_be i)
        ≡ first_digest node i
  unfolding parent_data
  first_lem node i h = rw (hardened i h, write_be-be_bytes i) refl

  -- If the digest of a round is the first one whose left half is below the order of the group and not
  -- the opposite of the parent's key, and the fuel reaches that round, `hdnode_private_ckd` gives
  -- the node with the sum of the two modulo the order as its key, in 32 bytes, the right half as its
  -- chain code, one level deeper. The parent's key has 32 bytes, and the index 32 bits.
  pub hdnode_private_ckd-child :
      (node : HdNode) (fuel k i : ℕ)
      → length node.private_key ≡ 32
      → IsBytes node.private_key
      → i < 2 ^ 32
      → k < fuel
      → ((j : ℕ)
          → j < k
          → Rejects (value secp256k1.order) (be_value 0 node.private_key) (ckd_digest node i j))
      → Accepts (value secp256k1.order) (be_value 0 node.private_key) (ckd_digest node i k)
      → hdnode_private_ckd ecdsa_get_public_key33 fuel node i
        ≡ derived record {
          depth = u32 (node.depth + 1);
          child_num = i;
          chain_code = right (ckd_digest node i k);
          private_key =
              be_bytes 32 (
                (left (ckd_digest node i k) + be_value 0 node.private_key) % value secp256k1.order);
          public_key = replicate 33 0;
          curve = node.curve;
        }
  unfolding hdnode_private_ckd ckd_from child_result child_node
  hdnode_private_ckd-child node fuel k i len bytes small enough bad good =
      let loop =
        child_digest_lem secp256k1 secp256k1-IsModulus node.private_key len bytes node.chain_code i
          fuel k (first_digest node i) (length-hmac_sha512 node.chain_code _)
          (hmac_sha512-IsBytes node.chain_code _) enough bad good in
      ap₂ (ckd_from fuel node i) (params-secp256k1 node.curve) (first_lem node i small)
      ∙ ap (child_result node i) loop
