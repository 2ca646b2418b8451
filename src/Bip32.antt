-- ===== src/Bip32.antt =====
-- The derivation of private keys in ios/Classes/bip32.c on the curve secp256k1, the only one that is
-- compiled, with its cache. The public key of a private key is an argument, the function
-- `ecdsa_get_public_key33` of ios/Classes/ecdsa.c.
use ether_flutter_plugin.Prelude.{
  ℕ, zero, suc, ◌+◌, Bool, true, false, ◌&&◌, not, ◌==◌, List, [], ◌∷◌, ◌++◌, Option, none, some,
  bit_and, u32, leb, if◌then◌else◌, length, take, drop, set, replicate, get_or,
}
use ether_flutter_plugin.Hmac.{hmac_sha512}
use ether_flutter_plugin.Bignum.Value.{Bignum256}
use ether_flutter_plugin.Bignum.Bytes.{bn_read_be, bn_write_be, write_be}
use ether_flutter_plugin.Bignum.Compare.{bn_is_zero, bn_is_less}
use ether_flutter_plugin.Bignum.Reduce.{bn_mod, bn_addmod}
pub mod Key
pub mod Child
pub mod Seed
pub mod Cache
pub mod Serialize
mod Examples

-- `ecdsa_curve`: the fields that bip32.c reads itself.
pub record EcdsaCurve : Type 0 where
  pub order : Bignum256

unfoldable pub secp256k1 : EcdsaCurve
secp256k1 = record {
  order =
      0x10364141 ∷ 0x3f497a33 ∷ 0x348a03bb ∷ 0x2bb739ab ∷ 0x3ffffeba ∷ 0x3fffffff ∷ 0x3fffffff
      ∷ 0x3fffffff ∷ 0xffff ∷ [];
}

-- A pointer to a `curve_info` that is not null.
pub data CurveInfo : Type 0 where
  secp256k1_info : CurveInfo

-- The field `params`, null for curves of another kind.
unfoldable pub params : CurveInfo → Option EcdsaCurve
params secp256k1_info = some secp256k1

-- "Bitcoin seed".
unfoldable pub bip32_name : CurveInfo → List ℕ
bip32_name secp256k1_info =
    b'B' ∷ b'i' ∷ b't' ∷ b'c' ∷ b'o' ∷ b'i' ∷ b'n' ∷ b' ' ∷ b's' ∷ b'e' ∷ b'e' ∷ b'd' ∷ []

-- `memcmp` and `strcmp`: whether two lists are the same.
unfoldable pub same_elements : List ℕ → List ℕ → Bool
same_elements [] [] = true
same_elements [] (y ∷ ys) = false
same_elements (x ∷ xs) [] = false
same_elements (x ∷ xs) (y ∷ ys) = x == y && same_elements xs ys

-- "secp256k1".
abbrev pub secp256k1_name : List ℕ
secp256k1_name = b's' ∷ b'e' ∷ b'c' ∷ b'p' ∷ b'2' ∷ b'5' ∷ b'6' ∷ b'k' ∷ b'1' ∷ []

-- A null pointer is `none`, for the name and for the curve.
unfoldable pub get_curve_by_name : Option (List ℕ) → Option CurveInfo
unfolding same_elements
get_curve_by_name none = none
get_curve_by_name (some curve_name) =
    if same_elements curve_name secp256k1_name then some secp256k1_info else none

pub record HdNode : Type 0 where
  pub depth : ℕ
  pub child_num : ℕ
  pub chain_code : List ℕ
  pub private_key : List ℕ
  pub public_key : List ℕ
  pub curve : CurveInfo

-- What a call returns: 1 with the node, 0, or nothing before the fuel is used up. `overrun` is a
-- write behind an array.
pub data Derivation : Type 0 where
  derived : HdNode → Derivation
  refused unfinished overrun : Derivation

unfoldable pub parity_byte : List ℕ → ℕ
parity_byte [] = 0
parity_byte (b ∷ bytes) = b

unfoldable pub hdnode_from_xpub : ℕ → ℕ → List ℕ → List ℕ → Option (List ℕ) → Option HdNode
unfolding get_curve_by_name parity_byte
hdnode_from_xpub depth child_num chain_code public_key curve = elim (get_curve_by_name curve) [
  | none ↦ none
  | some info ↦
      if not (parity_byte public_key == 0x02) && not (parity_byte public_key == 0x03)
      then none
      else some record {
        depth = depth;
        child_num = child_num;
        chain_code = chain_code;
        private_key = replicate 32 0;
        public_key = public_key;
        curve = info;
      }
]

-- A number that is not 0 and below the order.
unfoldable pub valid_key : EcdsaCurve → Bignum256 → Bool
unfolding bn_is_zero bn_is_less
valid_key p a = not (bn_is_zero a) && bn_is_less a p.order

unfoldable pub hdnode_from_xprv : ℕ → ℕ → List ℕ → List ℕ → Option (List ℕ) → Option HdNode
unfolding get_curve_by_name params bn_read_be valid_key
hdnode_from_xprv depth child_num chain_code private_key curve = elim (get_curve_by_name curve) [
  | none ↦ none
  | some info ↦ elim (params info) [
    | none ↦ none
    | some p ↦
        if valid_key p (bn_read_be private_key)
        then some record {
          depth = depth;
          child_num = child_num;
          chain_code = chain_code;
          private_key = private_key;
          public_key = replicate 33 0;
          curve = info;
        }
        else none
  ]
]

-- The loop of `hdnode_from_seed`: `digest` is hashed again until its first half is a key.
unfoldable pub master_digest : ℕ → EcdsaCurve → List ℕ → List ℕ → Option (List ℕ)
unfolding bn_read_be valid_key hmac_sha512
master_digest zero p name digest = none
master_digest (suc fuel) p name digest = elim (valid_key p (bn_read_be (take 32 digest))) [
  | true ↦ some digest
  | false ↦ master_digest fuel p name (hmac_sha512 name digest)
]

unfoldable pub master_node : CurveInfo → List ℕ → HdNode
master_node info digest = record {
  depth = 0;
  child_num = 0;
  chain_code = take 32 (drop 32 digest);
  private_key = take 32 digest;
  public_key = replicate 33 0;
  curve = info;
}

unfoldable pub master_result : CurveInfo → Option (List ℕ) → Derivation
unfolding master_node
master_result info none = unfinished
master_result info (some digest) = derived (master_node info digest)

-- `hdnode_from_seed` from the first digest on.
unfoldable pub master_from : ℕ → CurveInfo → Option EcdsaCurve → List ℕ → Derivation
unfolding master_node master_digest master_result bip32_name
master_from fuel info none digest = derived (master_node info digest)
master_from fuel info (some p) digest =
    master_result info (master_digest fuel p (bip32_name info) digest)

unfoldable pub hdnode_from_seed : ℕ → List ℕ → Option (List ℕ) → Derivation
unfolding get_curve_by_name params bip32_name hmac_sha512 master_from
hdnode_from_seed fuel seed curve = elim (get_curve_by_name curve) [
  | none ↦ refused
  | some info ↦ master_from fuel info (params info) (hmac_sha512 (bip32_name info) seed)
]

-- The key of a round of `hdnode_private_ckd`, or `none` where it is `failed`: `b` is the first half of
-- the digest and `a` the key of the parent.
unfoldable pub child_key : EcdsaCurve → Bignum256 → Bignum256 → Option (List ℕ)
unfolding bn_is_less bn_addmod bn_mod bn_is_zero bn_write_be
child_key p a b =
    let sum = bn_mod (bn_addmod b a p.order) p.order in
    if not (bn_is_less b p.order)
    then none
    else if bn_is_zero sum
    then none
    else some (bn_write_be sum)

-- The array `data` of the rounds after the first.
unfoldable pub next_data : List ℕ → ℕ → List ℕ
unfolding write_be
next_data digest i = 1 ∷ take 32 (drop 32 digest) ++ write_be i

-- The loop: the key and the digest of the first round that does not fail.
unfoldable pub child_digest :
    ℕ → EcdsaCurve → List ℕ → ℕ → Bignum256 → List ℕ → Option (List ℕ × List ℕ)
unfolding child_key bn_read_be hmac_sha512 next_data
child_digest zero p chain_code i a digest = none
child_digest (suc fuel) p chain_code i a digest =
    elim (child_key p a (bn_read_be (take 32 digest))) [
      | some key ↦ some (key, digest)
      | none ↦ child_digest fuel p chain_code i a (hmac_sha512 chain_code (next_data digest i))
    ]

-- The node with the key and the chain code of a child.
unfoldable pub child_node : HdNode → ℕ → List ℕ → List ℕ → HdNode
child_node node i key digest = record {
  depth = u32 (node.depth + 1);
  child_num = i;
  chain_code = take 32 (drop 32 digest);
  private_key = key;
  public_key = replicate 33 0;
  curve = node.curve;
}

unfoldable pub child_result : HdNode → ℕ → Option (List ℕ × List ℕ) → Derivation
unfolding child_node
child_result node i none = unfinished
child_result node i (some (key, digest)) = derived (child_node node i key digest)

-- `hdnode_private_ckd` from the first digest on.
unfoldable pub ckd_from : ℕ → HdNode → ℕ → Option EcdsaCurve → List ℕ → Derivation
unfolding child_node bn_read_be child_digest child_result
ckd_from fuel node i none digest =
    if bit_and i 0x80000000 == 0
    then refused
    else derived (child_node node i (take 32 digest) digest)
ckd_from fuel node i (some p) digest =
    child_result node i (child_digest fuel p node.chain_code i (bn_read_be node.private_key) digest)

module _ (ecdsa_get_public_key33 : Option EcdsaCurve → List ℕ → List ℕ) where
  unfoldable pub hdnode_fill_public_key : HdNode → HdNode
  unfolding parity_byte params
  hdnode_fill_public_key node =
      if not (parity_byte node.public_key == 0)
      then node
      else record node { public_key = ecdsa_get_public_key33 (params node.curve) node.private_key }

  -- The first 33 bytes of `data`.
  unfoldable pub parent_data : HdNode → ℕ → List ℕ
  unfolding hdnode_fill_public_key
  parent_data node i =
      if not (bit_and i 0x80000000 == 0)
      then 0 ∷ node.private_key
      else take 33 (hdnode_fill_public_key node).public_key

  -- `fuel` is the count of rounds that the loop may take.
  unfoldable pub hdnode_private_ckd : ℕ → HdNode → ℕ → Derivation
  unfolding params parent_data write_be hmac_sha512 ckd_from
  hdnode_private_ckd fuel node i =
      ckd_from fuel node i (params node.curve)
        (hmac_sha512 node.chain_code (parent_data node i ++ write_be i))

  -- The loop over a path.
  unfoldable pub derive_path : ℕ → HdNode → List ℕ → Derivation
  unfolding hdnode_private_ckd
  derive_path fuel node [] = derived node
  derive_path fuel node (i ∷ path) = elim (hdnode_private_ckd fuel node i) [
    | derived child ↦ derive_path fuel child path
    | refused ↦ refused
    | unfinished ↦ unfinished
    | overrun ↦ overrun
  ]
