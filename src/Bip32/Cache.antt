-- ===== src/Bip32/Cache.antt =====
-- `hdnode_private_ckd_cached` of ios/Classes/bip32.c: the cache of parents below the last root. The
-- static variables are a record that goes in and out.
use ether_flutter_plugin.Prelude.{
  ℕ, zero, suc, ◌+◌, ◌-◌, ◌%◌, Bool, true, false, ◌&&◌, ◌==◌, List, [], ◌∷◌, Option, none, some,
  leb, length, take, set, get_or, replicate, if◌then◌else◌,
}
use ether_flutter_plugin.Bip32.{
  EcdsaCurve, CurveInfo, secp256k1_info, HdNode, Derivation, derived, refused, unfinished, overrun,
  same_elements, hdnode_private_ckd, derive_path,
}
pub mod Same
pub mod Path
pub mod Entries
pub mod Transparent

-- An entry of `private_ckd_cache` that is set: its field `i` has the path of its node.
pub record CkdEntry : Type 0 where
  pub depth : ℕ
  pub path : List ℕ
  pub node : HdNode

-- `none` where `set`, and for the root `private_ckd_cache_root_set`, is false.
pub record CkdCache : Type 0 where
  pub root : Option HdNode
  pub index : ℕ
  pub entries : List (Option CkdEntry)

-- After `memset`, and at the start of the program; BIP32_CACHE_SIZE is 10.
unfoldable pub empty_ckd_cache : CkdCache
empty_ckd_cache = record { root = none; index = 0; entries = replicate 10 none }

-- Whether two pointers to curves are the same.
unfoldable pub same_curve : CurveInfo → CurveInfo → Bool
same_curve secp256k1_info secp256k1_info = true

-- `memcmp` on two nodes, less the padding of the struct: where only that differs, the code clears the
-- cache and derives the same nodes again.
unfoldable pub same_node : HdNode → HdNode → Bool
unfolding same_elements same_curve
same_node a b =
    a.depth == b.depth
    && (a.child_num == b.child_num
        && (same_elements a.chain_code b.chain_code
            && (same_elements a.private_key b.private_key
                && (same_elements a.public_key b.public_key && same_curve a.curve b.curve))))

unfoldable pub same_root : Option HdNode → HdNode → Bool
unfolding same_node
same_root none node = false
same_root (some root) node = same_node root node

-- The test of an entry against the path of the parent.
unfoldable pub entry_matches : CkdEntry → HdNode → List ℕ → Bool
unfolding same_elements same_curve
entry_matches e node parent =
    e.depth == length parent
    && (same_elements (take (length parent) e.path) parent && same_curve e.node.curve node.curve)

-- The loop over the entries.
unfoldable pub find_parent : List (Option CkdEntry) → HdNode → List ℕ → Option HdNode
unfolding entry_matches
find_parent [] node parent = none
find_parent (none ∷ es) node parent = find_parent es node parent
find_parent (some e ∷ es) node parent = elim (entry_matches e node parent) [
  | true ↦ some e.node
  | false ↦ find_parent es node parent
]

-- The search, if the root is the node.
unfoldable pub lookup_parent : CkdCache → HdNode → List ℕ → Option HdNode
unfolding same_root find_parent
lookup_parent cache node parent = elim (same_root cache.root node) [
  | true ↦ find_parent cache.entries node parent
  | false ↦ none
]

-- The cache with a new root, if that is not the node.
unfoldable pub rooted : CkdCache → HdNode → CkdCache
unfolding same_root empty_ckd_cache
rooted cache node =
    if same_root cache.root node then cache else record empty_ckd_cache { root = some node }

unfoldable pub store_parent : CkdCache → List ℕ → HdNode → CkdCache
store_parent cache parent node = record cache {
  index = (cache.index + 1) % 10;
  entries =
      set cache.entries cache.index
        (some record { depth = length parent; path = parent; node = node });
}

module _ (ecdsa_get_public_key33 : Option EcdsaCurve → List ℕ → List ℕ) (fuel : ℕ) where
  -- What is done with the derived parent: it is saved, and the last index derived from it. The path
  -- of an entry has room for BIP32_CACHE_MAXDEPTH = 8 indexes.
  unfoldable pub save_parent : CkdCache → List ℕ → ℕ → Derivation → Derivation × CkdCache
  unfolding store_parent hdnode_private_ckd
  save_parent cache parent last (derived node) =
      if leb (length parent) 8
      then (
        hdnode_private_ckd ecdsa_get_public_key33 fuel node last,
        store_parent cache parent node,
      )
      else (overrun, cache)
  save_parent cache parent last refused = (refused, cache)
  save_parent cache parent last unfinished = (unfinished, cache)
  save_parent cache parent last overrun = (overrun, cache)

  -- The part behind the test of the root and the search.
  unfoldable pub ckd_below : CkdCache → HdNode → List ℕ → ℕ → Option HdNode → Derivation × CkdCache
  unfolding save_parent hdnode_private_ckd derive_path
  ckd_below cache node parent last (some found) =
      (hdnode_private_ckd ecdsa_get_public_key33 fuel found last, cache)
  ckd_below cache node parent last none =
      save_parent cache parent last (derive_path ecdsa_get_public_key33 fuel node parent)

  unfoldable pub hdnode_private_ckd_cached : CkdCache → HdNode → List ℕ → Derivation × CkdCache
  unfolding hdnode_private_ckd rooted lookup_parent ckd_below
  hdnode_private_ckd_cached cache node [] = (derived node, cache)
  hdnode_private_ckd_cached cache node (i ∷ []) =
      (hdnode_private_ckd ecdsa_get_public_key33 fuel node i, cache)
  hdnode_private_ckd_cached cache node (i ∷ j ∷ path) =
      let count = length (i ∷ j ∷ path) in
      let parent = take (count - 1) (i ∷ j ∷ path) in
      ckd_below (rooted cache node) node parent (get_or (i ∷ j ∷ path) (count - 1) 0)
        (lookup_parent cache node parent)
