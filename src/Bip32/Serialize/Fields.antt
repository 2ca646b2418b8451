-- ===== src/Bip32/Serialize/Fields.antt =====
-- The fields of a node in the array that `hdnode_serialize` of ios/Classes/bip32.c fills.
use ether_flutter_plugin.Prelude.{
  ℕ, ◌+◌, ◌*◌, ◌/◌, ◌^◌, ◌<◌, ◌≤◌, ◌≡◌, ◌≢◌, ◌∙◌, refl, sym, ap, Bool, true, false, List, ◌∷◌, ◌++◌,
  some, arith, length, take, drop, get_or, u8, ◌>>>◌, if◌then◌else◌, length-append, take-append,
  drop-append,
}
use ether_flutter_plugin.Prelude.Bytes.{IsBytes, be_value, IsBytes-append}
use ether_flutter_plugin.Prelude.BigEndian.{be_value-ge}
use ether_flutter_plugin.Bignum.Bytes.{read_be, write_be}
use ether_flutter_plugin.Bignum.Bytes.Words.{read_be-write_be}
use ether_flutter_plugin.Base58.Check.{returned, base58_decode_check}
use ether_flutter_plugin.Base58.Check.RoundTrip.{
  with_checksum, base58_decode_check-base58_encode_check,
}
use ether_flutter_plugin.Bip32.{HdNode, secp256k1_info, get_curve_by_name, same_elements}
use ether_flutter_plugin.Bip32.Serialize.{
  node_data, hdnode_serialize, parsed, read_node, parse_data, parse_outcome,
}

-- The fields have the sizes of their types, and the depth fits a byte, as the format has it.
pub record IsNode (node : HdNode) : Type 0 where
  pub depth_small : node.depth < 2 ^ 8
  pub child_small : node.child_num < 2 ^ 32
  pub length-chain_code : length node.chain_code ≡ 32
  pub length-private_key : length node.private_key ≡ 32
  pub length-public_key : length node.public_key ≡ 33
  pub chain_code-IsBytes : IsBytes node.chain_code
  pub private_key-IsBytes : IsBytes node.private_key
  pub public_key-IsBytes : IsBytes node.public_key

write_be-IsBytes : (w : ℕ) → IsBytes (write_be w)
unfolding write_be
write_be-IsBytes w = (omega arith, (omega arith, (omega arith, (omega arith, tt))))

length-write_be : (w : ℕ) → length (write_be w) ≡ 4
unfolding write_be
length-write_be w = refl

-- The 33 bytes at the end.
abbrev tail_key : HdNode → Bool → List ℕ
tail_key node use_public = if use_public then node.public_key else 0 ∷ node.private_key

tail_key-lem :
    (node : HdNode) (use_public : Bool)
    → IsNode node
    → (length (tail_key node use_public) ≡ 33) × IsBytes (tail_key node use_public)
tail_key-lem node true h = (h.length-public_key, h.public_key-IsBytes)
tail_key-lem node false h =
    (omega (arith, h.length-private_key), (omega arith, h.private_key-IsBytes))

module _ (node : HdNode) (fingerprint version : ℕ) (use_public : Bool) (h : IsNode node)
    (small : fingerprint < 2 ^ 32) (small_version : version < 2 ^ 32) where
  abbrev bytes : List ℕ
  bytes = node_data node fingerprint version use_public

  length-node_data : length bytes ≡ 78
  unfolding node_data write_be
  length-node_data = omega (
    arith,
    length-append node.chain_code (tail_key node use_public),
    h.length-chain_code,
    (tail_key-lem node use_public h).0,
  )

  abbrev behind_fingerprint : List ℕ
  behind_fingerprint = write_be node.child_num ++ (node.chain_code ++ tail_key node use_public)

  node_data-IsBytes : IsBytes bytes
  unfolding node_data
  node_data-IsBytes =
      let keys : IsBytes (node.chain_code ++ tail_key node use_public) =
        IsBytes-append node.chain_code (tail_key node use_public) h.chain_code-IsBytes
          (tail_key-lem node use_public h).1 in
      let fields : IsBytes (write_be fingerprint ++ behind_fingerprint) =
        IsBytes-append (write_be fingerprint) behind_fingerprint (write_be-IsBytes fingerprint) (
          IsBytes-append (write_be node.child_num) (node.chain_code ++ tail_key node use_public)
            (write_be-IsBytes node.child_num) keys) in
      IsBytes-append (write_be version)
        (u8 node.depth ∷ (write_be fingerprint ++ behind_fingerprint)) (write_be-IsBytes version)
        (omega arith, fields)

  pub version_lem : read_be bytes ≡ version
  unfolding node_data
  version_lem =
      read_be-write_be version (u8 node.depth ∷ (write_be fingerprint ++ behind_fingerprint))
        small_version

  depth_lem : get_or bytes 4 0 ≡ node.depth
  unfolding node_data write_be
  depth_lem = omega (arith, h.depth_small)

  at_fingerprint : drop 5 bytes ≡ write_be fingerprint ++ behind_fingerprint
  unfolding node_data write_be
  at_fingerprint = refl

  at_child_num : drop 9 bytes ≡ behind_fingerprint
  unfolding node_data write_be
  at_child_num = refl

  fingerprint_lem : read_be (drop 5 bytes) ≡ fingerprint
  fingerprint_lem =
      ap read_be at_fingerprint ∙ read_be-write_be fingerprint behind_fingerprint small

  child_num_lem : read_be (drop 9 bytes) ≡ node.child_num
  child_num_lem =
      ap read_be at_child_num
      ∙ read_be-write_be node.child_num (node.chain_code ++ tail_key node use_public) h.child_small

  chain_code_lem : take 32 (drop 13 bytes) ≡ node.chain_code
  unfolding node_data write_be
  chain_code_lem =
      take-append 32 node.chain_code (tail_key node use_public) (omega (arith, h.length-chain_code))

  pub key_lem : drop 45 bytes ≡ tail_key node use_public
  unfolding node_data write_be
  key_lem =
      drop-append 32 node.chain_code (tail_key node use_public) 0
        (omega (arith, h.length-chain_code))

  pub read_node_lem :
      (private_key public_key : List ℕ)
      → read_node secp256k1_info bytes private_key public_key
        ≡ parsed
            record {
              depth = node.depth;
              child_num = node.child_num;
              chain_code = node.chain_code;
              private_key = private_key;
              public_key = public_key;
              curve = secp256k1_info;
            }
            fingerprint
  unfolding read_node
  read_node_lem private_key public_key = λ t.
      parsed
        record {
          depth = depth_lem t;
          child_num = child_num_lem t;
          chain_code = chain_code_lem t;
          private_key = private_key;
          public_key = public_key;
          curve = secp256k1_info;
        }
        (fingerprint_lem t)

  checksum_lem : 0 < version / 2 ^ 24 → be_value 0 (with_checksum bytes) ≢ 0
  unfolding node_data write_be
  checksum_lem high z =
      let first : ℕ = 256 * 0 + u8 (version >>> 24) in
      let all : be_value first (drop 1 (with_checksum bytes)) ≡ 0 = z in
      omega (arith, all, be_value-ge first (drop 1 (with_checksum bytes)))

  -- The string that is written, and the bytes that are read from it.
  pub serialized :
      (strsize : ℕ)
      → 0 < version / 2 ^ 24
      → 166 ≤ strsize
      → (str : List ℕ) × (hdnode_serialize node fingerprint version use_public strsize
          ≡ returned (some (str, length str + 1)))
        × (base58_decode_check str 78 ≡ returned (some bytes))
  unfolding hdnode_serialize
  serialized strsize high room =
      let (str, written, read) =
        base58_decode_check-base58_encode_check bytes strsize node_data-IsBytes
          (omega (arith, length-node_data)) (checksum_lem high) (omega (arith, length-node_data)) in
      (str, written, ap (base58_decode_check str) (sym length-node_data) ∙ read)

  pub outcome_lem :
      parse_outcome (returned (some bytes)) ≡ returned (parse_data secp256k1_info bytes)
  unfolding parse_outcome get_curve_by_name same_elements
  outcome_lem = rw length-node_data refl
