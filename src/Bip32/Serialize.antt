-- ===== src/Bip32/Serialize.antt =====
-- `hdnode_serialize` and `hdnode_deserialize` of ios/Classes/bip32.c.
use ether_flutter_plugin.Prelude.{
  ℕ, Bool, true, false, not, ◌==◌, List, [], ◌∷◌, ◌++◌, Option, none, some, u8, get_or, length,
  take, drop, replicate, if◌then◌else◌,
}
use ether_flutter_plugin.Bignum.Bytes.{read_be, write_be}
use ether_flutter_plugin.Base58.Check.{
  Outcome, returned, fault, base58_encode_check, base58_decode_check,
}
use ether_flutter_plugin.Bip32.{CurveInfo, HdNode, get_curve_by_name, secp256k1_name}
pub mod Fields
pub mod RoundTrip

-- The array `node_data`.
unfoldable pub node_data : HdNode → ℕ → ℕ → Bool → List ℕ
unfolding write_be
node_data node fingerprint version use_public =
    write_be version
    ++ (u8 node.depth
        ∷ (write_be fingerprint
            ++ (write_be node.child_num
                ++ (node.chain_code
                    ++ (if use_public then node.public_key else 0 ∷ node.private_key)))))

-- The string and its size, or `none` for the result 0.
unfoldable pub hdnode_serialize : HdNode → ℕ → ℕ → Bool → ℕ → Outcome (Option (List ℕ × ℕ))
unfolding node_data base58_encode_check
hdnode_serialize node fingerprint version use_public strsize =
    base58_encode_check (node_data node fingerprint version use_public) strsize

unfoldable pub hdnode_serialize_public : HdNode → ℕ → ℕ → Outcome (Option (List ℕ × ℕ))
unfolding hdnode_serialize
hdnode_serialize_public node fingerprint strsize =
    hdnode_serialize node fingerprint 0x0488B21E true strsize

unfoldable pub hdnode_serialize_private : HdNode → ℕ → ℕ → Outcome (Option (List ℕ × ℕ))
unfolding hdnode_serialize
hdnode_serialize_private node fingerprint strsize =
    hdnode_serialize node fingerprint 0x0488ADE4 false strsize

-- What `hdnode_deserialize` returns: 0 with the node and the fingerprint, -1, -2 or -3. `no_curve`
-- is a null pointer to the curve.
pub data Deserialized : Type 0 where
  parsed : HdNode → ℕ → Deserialized
  bad_string invalid_data invalid_version no_curve : Deserialized

unfoldable pub read_node : CurveInfo → List ℕ → List ℕ → List ℕ → Deserialized
unfolding read_be
read_node info bytes private_key public_key =
    parsed
      record {
        depth = get_or bytes 4 0;
        child_num = read_be (drop 9 bytes);
        chain_code = take 32 (drop 13 bytes);
        private_key = private_key;
        public_key = public_key;
        curve = info;
      }
      (read_be (drop 5 bytes))

-- `hdnode_deserialize` from the decoded bytes on.
unfoldable pub parse_data : CurveInfo → List ℕ → Deserialized
unfolding read_be read_node
parse_data info bytes =
    if read_be bytes == 0x0488B21E
    then read_node info bytes (replicate 32 0) (take 33 (drop 45 bytes))
    else if read_be bytes == 0x0488ADE4
    then (if not (get_or bytes 45 0 == 0)
        then invalid_data
        else read_node info bytes (take 32 (drop 46 bytes)) (replicate 33 0))
    else invalid_version

unfoldable pub parse_outcome : Outcome (Option (List ℕ)) → Outcome Deserialized
unfolding get_curve_by_name parse_data
parse_outcome fault = fault
parse_outcome (returned none) = returned bad_string
parse_outcome (returned (some bytes)) =
    if not (length bytes == 78)
    then returned bad_string
    else elim (get_curve_by_name (some secp256k1_name)) [
      | none ↦ returned no_curve
      | some info ↦ returned (parse_data info bytes)
    ]

unfoldable pub hdnode_deserialize : List ℕ → Outcome Deserialized
unfolding base58_decode_check parse_outcome
hdnode_deserialize str = parse_outcome (base58_decode_check str 78)
