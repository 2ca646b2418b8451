-- ===== src/Bip32/Cache/Transparent.antt =====
-- The cache of `hdnode_private_ckd_cached` of ios/Classes/bip32.c changes no derived node.
use ether_flutter_plugin.Prelude.{
  ℕ, ◌-◌, ◌≤◌, ◌≡◌, ◌∙◌, refl, sym, ap, ap₂, List, [], ◌∷◌, Option, none, some, length, take,
  get_or, arith, leb_iff, length-take,
}
use ether_flutter_plugin.Bip32.{
  EcdsaCurve, HdNode, Derivation, derived, refused, unfinished, overrun, derive_path,
}
use ether_flutter_plugin.Bip32.Cache.{
  CkdCache, empty_ckd_cache, lookup_parent, rooted, store_parent, save_parent, ckd_below,
  hdnode_private_ckd_cached,
}
use ether_flutter_plugin.Bip32.Cache.Path.{along, continue, along_last, one_more}
use ether_flutter_plugin.Bip32.Cache.Entries.{
  RightCache, RootedAt, RootedAt-RightCache, set-RightEntries, rooted-RootedAt, lookup_parent-along,
}

module _ (ecdsa_get_public_key33 : Option EcdsaCurve → List ℕ → List ℕ) (fuel : ℕ) where
  -- What a call promises: the node at the path, and a right cache.
  abbrev Promised : Derivation → Derivation × CkdCache → Type 0
  Promised d result = (result.0 ≡ d) × RightCache ecdsa_get_public_key33 fuel result.1

  save_parent-Promised :
      (cache : CkdCache) (node : HdNode) (parent : List ℕ) (last : ℕ) (d : Derivation)
      → RootedAt ecdsa_get_public_key33 fuel node cache
      → length parent ≤ 8
      → along ecdsa_get_public_key33 fuel node parent ≡ d
      → Promised
          (continue ecdsa_get_public_key33 fuel d (last ∷ []))
          (save_parent ecdsa_get_public_key33 fuel cache parent last d)
  unfolding save_parent store_parent
  save_parent-Promised cache node parent last (derived child) right fits e =
      rw ((leb_iff (length parent) 8).1 fits) (
        one_more ecdsa_get_public_key33 fuel child last,
        RootedAt-RightCache ecdsa_get_public_key33 fuel node (store_parent cache parent child)
            record {
              at_root = right.at_root;
              entries_lem =
                  set-RightEntries ecdsa_get_public_key33 fuel node cache.entries cache.index
                    (some record { depth = length parent; path = parent; node = child })
                    right.entries_lem (e, refl);
            },
      )
  save_parent-Promised cache node parent last refused right fits e =
      (refl, RootedAt-RightCache ecdsa_get_public_key33 fuel node cache right)
  save_parent-Promised cache node parent last unfinished right fits e =
      (refl, RootedAt-RightCache ecdsa_get_public_key33 fuel node cache right)
  save_parent-Promised cache node parent last overrun right fits e =
      (refl, RootedAt-RightCache ecdsa_get_public_key33 fuel node cache right)

  ckd_below-Promised :
      (cache : CkdCache) (node : HdNode) (parent : List ℕ) (last : ℕ) (o : Option HdNode)
      → RootedAt ecdsa_get_public_key33 fuel node cache
      → length parent ≤ 8
      → ((found : HdNode)
          → o ≡ some found
          → along ecdsa_get_public_key33 fuel node parent ≡ derived found)
      → Promised
          (continue ecdsa_get_public_key33 fuel
            (along ecdsa_get_public_key33 fuel node parent)
            (last ∷ []))
          (ckd_below ecdsa_get_public_key33 fuel cache node parent last o)
  unfolding ckd_below
  ckd_below-Promised cache node parent last none right fits f =
      save_parent-Promised cache node parent last (along ecdsa_get_public_key33 fuel node parent)
        right fits refl
  ckd_below-Promised cache node parent last (some found) right fits f = (
    one_more ecdsa_get_public_key33 fuel found last
        ∙ ap (λ d. continue ecdsa_get_public_key33 fuel d (last ∷ [])) (sym (f found refl)),
    RootedAt-RightCache ecdsa_get_public_key33 fuel node cache right,
  )

  -- From a cache whose entries are right, and for a path of at most nine indexes,
  -- `hdnode_private_ckd_cached` gives what the derivations along ecdsa_get_public_key33 fuel the path give without the cache, and
  -- leaves such a cache.
  pub hdnode_private_ckd_cached-derive_path :
      (cache : CkdCache) (node : HdNode) (path : List ℕ)
      → RightCache ecdsa_get_public_key33 fuel cache
      → length path ≤ 9
      → ((hdnode_private_ckd_cached ecdsa_get_public_key33 fuel cache node path).0
          ≡ derive_path ecdsa_get_public_key33 fuel node path)
        × RightCache ecdsa_get_public_key33 fuel
            (hdnode_private_ckd_cached ecdsa_get_public_key33 fuel cache node path).1
  unfolding hdnode_private_ckd_cached derive_path
  hdnode_private_ckd_cached-derive_path cache node [] right fits = (refl, right)
  hdnode_private_ckd_cached-derive_path cache node (i ∷ []) right fits =
      (one_more ecdsa_get_public_key33 fuel node i, right)
  hdnode_private_ckd_cached-derive_path cache node (i ∷ j ∷ path) right fits =
      let parent : List ℕ = take (length (i ∷ j ∷ path) - 1) (i ∷ j ∷ path) in
      let below =
        ckd_below-Promised (rooted cache node) node parent
          (get_or (i ∷ j ∷ path) (length (i ∷ j ∷ path) - 1) 0) (lookup_parent cache node parent)
          (rooted-RootedAt ecdsa_get_public_key33 fuel cache node right)
          (omega (arith, length-take (length (i ∷ j ∷ path) - 1) (i ∷ j ∷ path)))
          (λ found.
            lookup_parent-along ecdsa_get_public_key33 fuel cache node parent found right) in
      (below.0 ∙ sym (along_last ecdsa_get_public_key33 fuel node i j path), below.1)

  -- A sequence of calls, each with a node and a path.
  abbrev pub run_paths : CkdCache → List (HdNode × List ℕ) → List Derivation
  run_paths cache [] = []
  run_paths cache ((node, path) ∷ calls) =
      let (result, cache') =
        hdnode_private_ckd_cached ecdsa_get_public_key33 fuel cache node path in
      result ∷ run_paths cache' calls

  abbrev pub derive_paths : List (HdNode × List ℕ) → List Derivation
  derive_paths [] = []
  derive_paths ((node, path) ∷ calls) =
      derive_path ecdsa_get_public_key33 fuel node path ∷ derive_paths calls

  abbrev pub ShortPaths : List (HdNode × List ℕ) → Type 0
  ShortPaths [] = Unit {0}
  ShortPaths ((node, path) ∷ calls) = (length path ≤ 9) × ShortPaths calls

  run_paths_right :
      (cache : CkdCache) (calls : List (HdNode × List ℕ))
      → RightCache ecdsa_get_public_key33 fuel cache
      → ShortPaths calls
      → run_paths cache calls ≡ derive_paths calls
  run_paths_right cache [] right fits = refl
  run_paths_right cache ((node, path) ∷ calls) right fits =
      let next = hdnode_private_ckd_cached-derive_path cache node path right fits.0 in
      ap₂ (λ r t. r ∷ t) next.0
        (run_paths_right (hdnode_private_ckd_cached ecdsa_get_public_key33 fuel cache node path).1
          calls next.1 fits.1)

  empty-RightCache : RightCache ecdsa_get_public_key33 fuel empty_ckd_cache
  unfolding empty_ckd_cache
  empty-RightCache = tt

  -- Over every sequence of calls that starts with the empty cache, with paths of at most nine
  -- indexes below any nodes, `hdnode_private_ckd_cached` gives the nodes that are derived without the
  -- cache.
  pub run_paths-derive_paths :
      (calls : List (HdNode × List ℕ))
      → ShortPaths calls
      → run_paths empty_ckd_cache calls ≡ derive_paths calls
  run_paths-derive_paths calls fits = run_paths_right empty_ckd_cache calls empty-RightCache fits
