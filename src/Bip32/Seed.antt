-- ===== src/Bip32/Seed.antt =====
-- `hdnode_from_seed` of ios/Classes/bip32.c gives the master key of BIP 32.
use ether_flutter_plugin.Prelude.{
  ℕ, zero, suc, ◌<◌, ◌≡◌, ◌≢◌, ◌↔◌, ◌∙◌, refl, sym, ap, Bool, true, false, ◌&&◌, not, List, some,
  length, take, arith, replicate,
}
use ether_flutter_plugin.Prelude.Bytes.{IsBytes}
use ether_flutter_plugin.Hmac.{hmac_sha512}
use ether_flutter_plugin.Bignum.Value.{value}
use ether_flutter_plugin.Bignum.Bytes.{bn_read_be}
use ether_flutter_plugin.Bignum.Compare.{bn_is_zero, bn_is_less}
use ether_flutter_plugin.Bignum.Compare.Order.{bn_is_less_iff}
use ether_flutter_plugin.Bignum.Compare.Select.{bn_is_zero_iff}
use ether_flutter_plugin.Bignum.Reduce.FastMod.{IsModulus}
use ether_flutter_plugin.Bip32.{
  EcdsaCurve, secp256k1, secp256k1_info, secp256k1_name, bip32_name, params, same_elements,
  get_curve_by_name, valid_key, master_digest, master_from, master_result, master_node, derived,
  hdnode_from_seed,
}
use ether_flutter_plugin.Bip32.Key.{
  length-hmac_sha512, hmac_sha512-IsBytes, secp256k1-IsModulus, half_lem, not_true,
}
use ether_flutter_plugin.Bip32.Child.{left, right}

-- The left half is a private key: not 0, and below the order n.
abbrev pub IsMaster : ℕ → List ℕ → Type 0
IsMaster n digest = (left digest ≢ 0) × (left digest < n)

-- The digest of round k: each round hashes the whole digest before it.
abbrev pub master_round : List ℕ → List ℕ → ℕ → List ℕ
master_round name digest zero = digest
master_round name digest (suc k) = master_round name (hmac_sha512 name digest) k

both_true : {a b : Bool} → a ≡ false → b ≡ true → not a && b ≡ true
both_true {a = false} {b = true} h k = refl
both_true {a = true} h k = cc
both_true {a = false} {b = false} h k = cc

both_parts : {a b : Bool} → not a && b ≡ true → (a ≡ false) × (b ≡ true)
both_parts {a = false} h = (refl, h)
both_parts {a = true} h = cc

valid_key_iff :
    (p : EcdsaCurve) (digest : List ℕ)
    → IsModulus p.order
    → length digest ≡ 64
    → IsBytes digest
    → (valid_key p (bn_read_be (take 32 digest)) ≡ true) ↔ IsMaster (value p.order) digest
unfolding valid_key
valid_key_iff p digest hp e h =
    let half = half_lem digest e h in
    let a = bn_read_be (take 32 digest) in
    let nothing = bn_is_zero_iff a in
    let less =
      bn_is_less_iff a p.order (omega (arith, half.limbs, hp.limbs)) (omega (arith, half.limbs))
        half.normal hp.normal in
    (
      λ valid.
          let parts = both_parts {a = bn_is_zero a} {b = bn_is_less a p.order} valid in
          (
            λ z. cc (nothing.1 (half.exact ∙ z), parts.0),
            omega (arith, half.exact, less.0 parts.1),
          ),
      λ fits.
          both_true (not_true nothing.0 (λ z. fits.0 (sym half.exact ∙ z)))
            (less.1 (omega (arith, half.exact, fits.1))),
    )

master_digest_lem :
    (p : EcdsaCurve) (name : List ℕ) (fuel k : ℕ) (digest : List ℕ)
    → IsModulus p.order
    → length digest ≡ 64
    → IsBytes digest
    → k < fuel
    → ((j : ℕ) → j < k → ¬ IsMaster (value p.order) (master_round name digest j))
    → IsMaster (value p.order) (master_round name digest k)
    → master_digest fuel p name digest ≡ some (master_round name digest k)
unfolding master_digest
master_digest_lem p name zero k digest hp e h enough bad good = absurd (omega arith)
master_digest_lem p name (suc fuel) zero digest hp e h enough bad good =
    rw ((valid_key_iff p digest hp e h).1 good, master_digest) refl
master_digest_lem p name (suc fuel) (suc k) digest hp e h enough bad good =
    rw (not_true (valid_key_iff p digest hp e h).0 (bad 0 (omega arith)), master_digest)
      (master_digest_lem p name fuel k (hmac_sha512 name digest) hp (length-hmac_sha512 name digest)
        (hmac_sha512-IsBytes name digest) (omega arith) (λ j hj. bad (suc j) (omega arith)) good)

-- If the digest of a round is the first one whose left half is not 0 and below the order of the
-- group, and the fuel reaches that round, `hdnode_from_seed` for the curve "secp256k1" gives the
-- node of depth 0 with the halves of that digest as its private key and its chain code.
pub hdnode_from_seed-master :
    (seed : List ℕ) (fuel k : ℕ)
    → k < fuel
    → ((j : ℕ)
        → j < k
        → ¬ IsMaster (value secp256k1.order) (
            master_round
              (bip32_name secp256k1_info)
              (hmac_sha512 (bip32_name secp256k1_info) seed)
              j))
    → IsMaster
        (value secp256k1.order)
        (master_round (bip32_name secp256k1_info) (hmac_sha512 (bip32_name secp256k1_info) seed) k)
    → hdnode_from_seed fuel seed (some secp256k1_name)
      ≡ derived record {
        depth = 0;
        child_num = 0;
        chain_code = right (
            master_round
              (bip32_name secp256k1_info)
              (hmac_sha512 (bip32_name secp256k1_info) seed)
              k);
        private_key = take 32 (
            master_round
              (bip32_name secp256k1_info)
              (hmac_sha512 (bip32_name secp256k1_info) seed)
              k);
        public_key = replicate 33 0;
        curve = secp256k1_info;
      }
unfolding hdnode_from_seed get_curve_by_name same_elements params master_from master_result
    master_node
hdnode_from_seed-master seed fuel k enough bad good =
    let name : List ℕ = bip32_name secp256k1_info in
    ap (master_result secp256k1_info) (
      master_digest_lem secp256k1 name fuel k (hmac_sha512 name seed) secp256k1-IsModulus
        (length-hmac_sha512 name seed) (hmac_sha512-IsBytes name seed) enough bad good)
