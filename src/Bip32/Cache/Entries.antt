-- ===== src/Bip32/Cache/Entries.antt =====
-- The entries of the cache of ios/Classes/bip32.c have the nodes of their paths.
use ether_flutter_plugin.Prelude.{
  ℕ, zero, suc, ◌≡◌, ◌≢◌, ◌∙◌, refl, sym, ap, subst, true, false, List, [], ◌∷◌, Option, none, some,
  Bool-cases, inl, inr, length, set,
}
use ether_flutter_plugin.Bip32.{EcdsaCurve, HdNode, derived}
use ether_flutter_plugin.Bip32.Cache.{
  CkdEntry, CkdCache, empty_ckd_cache, same_root, entry_matches, find_parent, lookup_parent, rooted,
}
use ether_flutter_plugin.Bip32.Cache.Same.{same_node_sound, entry_path}
use ether_flutter_plugin.Bip32.Cache.Path.{along}

module _ (ecdsa_get_public_key33 : Option EcdsaCurve → List ℕ → List ℕ) (fuel : ℕ) where
  -- An entry that is set has the node at its path below the root.
  abbrev pub RightEntry : HdNode → Option CkdEntry → Type 0
  RightEntry root none = Unit {0}
  RightEntry root (some e) =
      (along ecdsa_get_public_key33 fuel root e.path ≡ derived e.node) × (length e.path ≡ e.depth)

  abbrev pub RightEntries : HdNode → List (Option CkdEntry) → Type 0
  RightEntries root [] = Unit {0}
  RightEntries root (e ∷ es) = RightEntry root e × RightEntries root es

  abbrev pub RightBelow : Option HdNode → List (Option CkdEntry) → Type 0
  RightBelow none es = Unit {0}
  RightBelow (some root) es = RightEntries root es

  abbrev pub RightCache : CkdCache → Type 0
  RightCache cache = RightBelow cache.root cache.entries

  find_parent_hit :
      (e : CkdEntry) (es : List (Option CkdEntry)) (node : HdNode) (parent : List ℕ)
      → entry_matches e node parent ≡ true
      → find_parent (some e ∷ es) node parent ≡ some e.node
  unfolding find_parent
  find_parent_hit e es node parent t = rw (t, find_parent) refl

  find_parent_miss :
      (e : CkdEntry) (es : List (Option CkdEntry)) (node : HdNode) (parent : List ℕ)
      → entry_matches e node parent ≡ false
      → find_parent (some e ∷ es) node parent ≡ find_parent es node parent
  unfolding find_parent
  find_parent_miss e es node parent t = rw (t, find_parent) refl

  some_injective : (a b : HdNode) → some a ≡ some b → a ≡ b
  some_injective a b h = cc

  nothing_found :
      (node : HdNode) (parent : List ℕ) (found : HdNode) → find_parent [] node parent ≢ some found
  unfolding find_parent
  nothing_found node parent found h = cc

  skip_unset :
      (es : List (Option CkdEntry)) (node : HdNode) (parent : List ℕ)
      → find_parent (none ∷ es) node parent ≡ find_parent es node parent
  unfolding find_parent
  skip_unset es node parent = refl

  find_parent-along :
      (root : HdNode) (es : List (Option CkdEntry)) (node : HdNode) (parent : List ℕ)
      (found : HdNode)
      → RightEntries root es
      → find_parent es node parent ≡ some found
      → along ecdsa_get_public_key33 fuel root parent ≡ derived found
  find_parent-along root [] node parent found right h = absurd (nothing_found node parent found h)
  find_parent-along root (none ∷ es) node parent found right h =
      find_parent-along root es node parent found right.1 (sym (skip_unset es node parent) ∙ h)
  find_parent-along root (some e ∷ es) node parent found right h =
      elim (Bool-cases (entry_matches e node parent)) [
        | inl t ↦
            ap (along ecdsa_get_public_key33 fuel root) (sym (entry_path e node parent right.0.1 t))
            ∙ right.0.0
            ∙ ap derived
                (some_injective e.node found (sym (find_parent_hit e es node parent t) ∙ h))
        | inr t ↦
            find_parent-along root es node parent found right.1
              (sym (find_parent_miss e es node parent t) ∙ h)
      ]

  pub set-RightEntries :
      (root : HdNode) (es : List (Option CkdEntry)) (i : ℕ) (e : Option CkdEntry)
      → RightEntries root es
      → RightEntry root e
      → RightEntries root (set es i e)
  set-RightEntries root [] i e right here = tt
  set-RightEntries root (x ∷ es) zero e right here = (here, right.1)
  set-RightEntries root (x ∷ es) (suc i) e right here =
      (right.0, set-RightEntries root es i e right.1 here)

  -- A cache whose root is the node.
  pub record RootedAt (node : HdNode) (cache : CkdCache) : Type 0 where
    pub at_root : cache.root ≡ some node
    pub entries_lem : RightEntries node cache.entries

  pub RootedAt-RightCache :
      (node : HdNode) (cache : CkdCache) → RootedAt node cache → RightCache cache
  RootedAt-RightCache node cache h =
      subst (λ r. RightBelow r cache.entries) (sym h.at_root) h.entries_lem

  same_root_sound : (r : Option HdNode) (node : HdNode) → same_root r node ≡ true → r ≡ some node
  unfolding same_root
  same_root_sound none node h = cc
  same_root_sound (some root) node h = ap some (same_node_sound root node h)

  pub kept :
      (cache : CkdCache) (node : HdNode)
      → RightCache cache
      → cache.root ≡ some node
      → RootedAt node cache
  kept cache node right e = record {
    at_root = e;
    entries_lem = subst (λ r. RightBelow r cache.entries) e right;
  }

  pub rooted-RootedAt :
      (cache : CkdCache) (node : HdNode) → RightCache cache → RootedAt node (rooted cache node)
  unfolding rooted empty_ckd_cache
  rooted-RootedAt cache node right = elim (Bool-cases (same_root cache.root node)) [
    | inl t ↦ rw t (kept cache node right (same_root_sound cache.root node t))
    | inr t ↦ rw t record {
      at_root = refl;
      entries_lem = (tt, (tt, (tt, (tt, (tt, (tt, (tt, (tt, (tt, (tt, tt))))))))));
    }
  ]

  lookup_same :
      (cache : CkdCache) (node : HdNode) (parent : List ℕ)
      → same_root cache.root node ≡ true
      → lookup_parent cache node parent ≡ find_parent cache.entries node parent
  unfolding lookup_parent
  lookup_same cache node parent t = rw (t, lookup_parent) refl

  lookup_other :
      (cache : CkdCache) (node : HdNode) (parent : List ℕ)
      → same_root cache.root node ≡ false
      → lookup_parent cache node parent ≡ none
  unfolding lookup_parent
  lookup_other cache node parent t = rw (t, lookup_parent) refl

  none-ne-some : (found : HdNode) → none ≢ some found
  none-ne-some found h = cc

  pub lookup_parent-along :
      (cache : CkdCache) (node : HdNode) (parent : List ℕ) (found : HdNode)
      → RightCache cache
      → lookup_parent cache node parent ≡ some found
      → along ecdsa_get_public_key33 fuel node parent ≡ derived found
  lookup_parent-along cache node parent found right h =
      elim (Bool-cases (same_root cache.root node)) [
        | inl t ↦
            find_parent-along node cache.entries node parent found
              (kept cache node right (same_root_sound cache.root node t)).entries_lem
              (sym (lookup_same cache node parent t) ∙ h)
        | inr t ↦ absurd (none-ne-some found (sym (lookup_other cache node parent t) ∙ h))
      ]
