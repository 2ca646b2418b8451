-- ===== src/Bip32/Examples.antt =====
-- The theorems on ios/Classes/bip32.c at the first test vector of BIP 32, whose seed is the bytes from
-- 0 to 15. The public key function is one that only copies the private key.
use ether_flutter_plugin.Prelude.{
  ℕ, ◌+◌, ◌%◌, ◌≡◌, refl, ap₂, List, [], ◌∷◌, Option, some, arith, length, take, replicate, u32,
}
use ether_flutter_plugin.Prelude.Bytes.{be_value, be_bytes}
use ether_flutter_plugin.Hmac.{hmac_sha512}
use ether_flutter_plugin.Bignum.Value.{value}
use ether_flutter_plugin.Bip32.{
  EcdsaCurve, secp256k1, secp256k1_info, secp256k1_name, bip32_name, HdNode, derived,
  hdnode_from_seed, hdnode_private_ckd,
}
use ether_flutter_plugin.Bip32.Cache.{empty_ckd_cache}
use ether_flutter_plugin.Bip32.Cache.Transparent.{run_paths, derive_paths, run_paths-derive_paths}
use ether_flutter_plugin.Bip32.Seed.{IsMaster, hdnode_from_seed-master}
use ether_flutter_plugin.Base58.Check.{returned}
use ether_flutter_plugin.Bip32.Serialize.{
  hdnode_serialize_private, hdnode_serialize_public, hdnode_deserialize, parsed,
}
use ether_flutter_plugin.Bip32.Serialize.Fields.{IsNode}
use ether_flutter_plugin.Bip32.Serialize.RoundTrip.{hdnode_deserialize-hdnode_serialize}
use ether_flutter_plugin.Bip32.Child.{left, right, ckd_digest, Accepts, hdnode_private_ckd-child}

abbrev seed : List ℕ
seed = 0 ∷ 1 ∷ 2 ∷ 3 ∷ 4 ∷ 5 ∷ 6 ∷ 7 ∷ 8 ∷ 9 ∷ 10 ∷ 11 ∷ 12 ∷ 13 ∷ 14 ∷ 15 ∷ []

abbrev copy_key : Option EcdsaCurve → List ℕ → List ℕ
copy_key p private_key = 2 ∷ private_key

abbrev parent : HdNode
parent = record {
  depth = 0;
  child_num = 0;
  chain_code = replicate 32 7;
  private_key = replicate 32 1;
  public_key = replicate 33 0;
  curve = secp256k1_info;
}

abbrev seed_digest : List ℕ
seed_digest = hmac_sha512 (bip32_name secp256k1_info) seed

-- The left halves of the digests, as numbers.
seed_left :
    left seed_digest
    ≡ 105366245268346348601399826821003822098691517983742654654633135381666943167285
unfolding hmac_sha512 bip32_name
seed_left = refl

child_left :
    left (ckd_digest copy_key parent 0x8000002C 0)
    ≡ 38237895488763889511198028452323213123205054664233696879623159592721174806872
unfolding hmac_sha512
child_left = refl

order_lem :
    value secp256k1.order
    ≡ 115792089237316195423570985008687907852837564279074904382605163141518161494337
unfolding secp256k1
order_lem = omega arith

seed_digest-IsMaster : IsMaster (value secp256k1.order) seed_digest
seed_digest-IsMaster = (λ z. absurd (omega (arith, seed_left)), omega (arith, seed_left, order_lem))

child-Accepts :
    Accepts
      (value secp256k1.order)
      (be_value 0 parent.private_key)
      (ckd_digest copy_key parent 0x8000002C 0)
child-Accepts =
    let sum = ap₂ (λ (a n : ℕ). (a + be_value 0 parent.private_key) % n) child_left order_lem in
    (omega (arith, child_left, order_lem), λ z. absurd (omega (arith, sum)))

hdnode_from_seed-master_example :
    hdnode_from_seed 1 seed (some secp256k1_name)
    ≡ derived record {
      depth = 0;
      child_num = 0;
      chain_code = right seed_digest;
      private_key = take 32 seed_digest;
      public_key = replicate 33 0;
      curve = secp256k1_info;
    }
hdnode_from_seed-master_example =
    hdnode_from_seed-master seed 1 0 (omega arith) (λ j h. absurd (omega arith))
      seed_digest-IsMaster

hdnode_private_ckd-child_example :
    hdnode_private_ckd copy_key 1 parent 0x8000002C
    ≡ derived record {
      depth = u32 (parent.depth + 1);
      child_num = 0x8000002C;
      chain_code = right (ckd_digest copy_key parent 0x8000002C 0);
      private_key = be_bytes 32 (
          (left (ckd_digest copy_key parent 0x8000002C 0) + be_value 0 parent.private_key)
          % value secp256k1.order);
      public_key = replicate 33 0;
      curve = parent.curve;
    }
hdnode_private_ckd-child_example =
    hdnode_private_ckd-child copy_key parent 1 0 0x8000002C refl (omega arith) (omega arith)
      (omega arith) (λ j h. absurd (omega arith)) child-Accepts

-- The accounts 0 and 1, the second from the cached parent.
abbrev calls : List (HdNode × List ℕ)
calls =
    (parent, 0x8000002C ∷ 0x8000003C ∷ 0x80000000 ∷ [])
    ∷ (parent, 0x8000002C ∷ 0x8000003C ∷ 0x80000001 ∷ [])
    ∷ []

run_paths-derive_paths_example :
    run_paths copy_key 1 empty_ckd_cache calls ≡ derive_paths copy_key 1 calls
run_paths-derive_paths_example = run_paths-derive_paths copy_key 1 calls (omega arith)

parent-IsNode : IsNode parent
parent-IsNode = record {
  depth_small = omega arith;
  child_small = omega arith;
  length-chain_code = refl;
  length-private_key = refl;
  length-public_key = refl;
  chain_code-IsBytes = omega arith;
  private_key-IsBytes = omega arith;
  public_key-IsBytes = omega arith;
}

hdnode_deserialize-hdnode_serialize_example :
    ((str : List ℕ) × (hdnode_serialize_private parent 0 166
        ≡ returned (some (str, length str + 1)))
      × (hdnode_deserialize str
          ≡ returned (parsed (record parent { public_key = replicate 33 0 }) 0)))
    × ((str : List ℕ) × (hdnode_serialize_public parent 0 166
          ≡ returned (some (str, length str + 1)))
        × (hdnode_deserialize str
            ≡ returned (parsed (record parent { private_key = replicate 32 0 }) 0)))
hdnode_deserialize-hdnode_serialize_example =
    hdnode_deserialize-hdnode_serialize parent 0 166 parent-IsNode (omega arith) (omega arith)
