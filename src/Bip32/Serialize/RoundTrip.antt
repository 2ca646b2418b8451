-- ===== src/Bip32/Serialize/RoundTrip.antt =====
-- `hdnode_deserialize` of ios/Classes/bip32.c reads back what `hdnode_serialize` writes.
use ether_flutter_plugin.Prelude.{
  ℕ, ◌+◌, ◌^◌, ◌<◌, ◌≤◌, ◌≡◌, ◌∙◌, refl, ap, ap₂, true, false, List, ◌∷◌, ◌++◌, some, arith, length,
  take, drop, get_or, replicate, drop-append, take_all, get_or-append_right,
}
use ether_flutter_plugin.Bignum.Bytes.{write_be}
use ether_flutter_plugin.Base58.Check.{returned}
use ether_flutter_plugin.Bip32.{HdNode, CurveInfo, secp256k1_info}
use ether_flutter_plugin.Bip32.Serialize.{
  node_data, hdnode_serialize_public, hdnode_serialize_private, parsed, parse_data, parse_outcome,
  hdnode_deserialize,
}
use ether_flutter_plugin.Bip32.Serialize.Fields.{
  IsNode, version_lem, read_node_lem, key_lem, serialized, outcome_lem,
}

curve_lem : (info : CurveInfo) → secp256k1_info ≡ info
curve_lem secp256k1_info = refl

private_mark :
    (node : HdNode) (fingerprint version : ℕ)
    → IsNode node
    → get_or (node_data node fingerprint version false) 45 0 ≡ 0
unfolding node_data write_be
private_mark node fingerprint version h =
    ap (λ n. get_or (node.chain_code ++ (0 ∷ node.private_key)) n 0) {x = 32}
      (omega (arith, h.length-chain_code))
    ∙ get_or-append_right node.chain_code (0 ∷ node.private_key) 0 0

private_bytes :
    (node : HdNode) (fingerprint version : ℕ)
    → IsNode node
    → take 32 (drop 46 (node_data node fingerprint version false)) ≡ node.private_key
unfolding node_data write_be
private_bytes node fingerprint version h =
    ap (take 32)
      (drop-append 33 node.chain_code (0 ∷ node.private_key) 1 (omega (arith, h.length-chain_code)))
    ∙ take_all 32 node.private_key (omega (arith, h.length-private_key))

parse_private :
    (node : HdNode) (fingerprint : ℕ)
    → IsNode node
    → fingerprint < 2 ^ 32
    → parse_data secp256k1_info (node_data node fingerprint 0x0488ADE4 false)
      ≡ parsed (record node { public_key = replicate 33 0 }) fingerprint
unfolding parse_data
parse_private node fingerprint h small =
    let fits : 0x0488ADE4 < 2 ^ 32 = omega arith in
    rw (version_lem node fingerprint 0x0488ADE4 false h small fits, parse_data)
      (rw (private_mark node fingerprint 0x0488ADE4 h, parse_data)
        (read_node_lem node fingerprint 0x0488ADE4 false h small fits
            (take 32 (drop 46 (node_data node fingerprint 0x0488ADE4 false))) (replicate 33 0)
          ∙ ap₂
              (λ key info.
                parsed record node { private_key = key; public_key = replicate 33 0; curve = info }
                  fingerprint)
              (private_bytes node fingerprint 0x0488ADE4 h) (curve_lem node.curve)))

parse_public :
    (node : HdNode) (fingerprint : ℕ)
    → IsNode node
    → fingerprint < 2 ^ 32
    → parse_data secp256k1_info (node_data node fingerprint 0x0488B21E true)
      ≡ parsed (record node { private_key = replicate 32 0 }) fingerprint
unfolding parse_data
parse_public node fingerprint h small =
    let fits : 0x0488B21E < 2 ^ 32 = omega arith in
    let data_bytes : List ℕ = node_data node fingerprint 0x0488B21E true in
    let public_bytes : take 33 (drop 45 data_bytes) ≡ node.public_key =
      ap (take 33) (key_lem node fingerprint 0x0488B21E true h small fits)
      ∙ take_all 33 node.public_key (omega (arith, h.length-public_key)) in
    rw (version_lem node fingerprint 0x0488B21E true h small fits, parse_data)
      (read_node_lem node fingerprint 0x0488B21E true h small fits (replicate 32 0)
          (take 33 (drop 45 data_bytes))
        ∙ ap₂
            (λ key info.
              parsed record node { private_key = replicate 32 0; public_key = key; curve = info }
                fingerprint)
            public_bytes (curve_lem node.curve))

-- For a node whose fields have the sizes of their types, of a depth below 256, a fingerprint of 32
-- bits and room for 166 characters, `hdnode_serialize_private` writes a string, and
-- `hdnode_deserialize` reads the node from it, without its public key, and the fingerprint; and
-- likewise `hdnode_serialize_public`, without the private key.
pub hdnode_deserialize-hdnode_serialize :
    (node : HdNode) (fingerprint strsize : ℕ)
    → IsNode node
    → fingerprint < 2 ^ 32
    → 166 ≤ strsize
    → ((str : List ℕ) × (hdnode_serialize_private node fingerprint strsize
          ≡ returned (some (str, length str + 1)))
        × (hdnode_deserialize str
            ≡ returned (parsed (record node { public_key = replicate 33 0 }) fingerprint)))
      × ((str : List ℕ) × (hdnode_serialize_public node fingerprint strsize
            ≡ returned (some (str, length str + 1)))
          × (hdnode_deserialize str
              ≡ returned (parsed (record node { private_key = replicate 32 0 }) fingerprint)))
unfolding hdnode_deserialize hdnode_serialize_private hdnode_serialize_public
hdnode_deserialize-hdnode_serialize node fingerprint strsize h small room =
    let fits : 0x0488ADE4 < 2 ^ 32 = omega arith in
    let fits_public : 0x0488B21E < 2 ^ 32 = omega arith in
    let (str, written, read) =
      serialized node fingerprint 0x0488ADE4 false h small fits strsize (omega arith) room in
    let (str', written', read') =
      serialized node fingerprint 0x0488B21E true h small fits_public strsize (omega arith) room in
    (
      (
        str,
        written,
        ap parse_outcome read
            ∙ outcome_lem node fingerprint 0x0488ADE4 false h small fits
            ∙ ap returned (parse_private node fingerprint h small),
      ),
      (
        str',
        written',
        ap parse_outcome read'
            ∙ outcome_lem node fingerprint 0x0488B21E true h small fits_public
            ∙ ap returned (parse_public node fingerprint h small),
      ),
    )
