-- ===== src/Bip32/Cache/Same.antt =====
-- The comparisons of ios/Classes/bip32.c hold only for what is the same.
use ether_flutter_plugin.Prelude.{
  ℕ, ◌≡◌, ◌∙◌, refl, sym, ap₂, Bool, true, false, ◌&&◌, List, [], ◌∷◌, length, take, arith,
  take_all,
}
use ether_flutter_plugin.Bip32.{CurveInfo, secp256k1_info, HdNode, same_elements}
use ether_flutter_plugin.Bip32.Cache.{CkdEntry, same_node, entry_matches}

same_elements_sound : (xs ys : List ℕ) → same_elements xs ys ≡ true → xs ≡ ys
unfolding same_elements
same_elements_sound [] [] h = refl
same_elements_sound [] (y ∷ ys) h = cc
same_elements_sound (x ∷ xs) [] h = cc
same_elements_sound (x ∷ xs) (y ∷ ys) h =
    ap₂ (λ a t. a ∷ t) (ground arith) (same_elements_sound xs ys (ground arith))

same_curve_sound : (a b : CurveInfo) → a ≡ b
same_curve_sound secp256k1_info secp256k1_info = refl

and_parts : {a b : Bool} → a && b ≡ true → (a ≡ true) × (b ≡ true)
and_parts {a = true} h = (refl, h)
and_parts {a = false} h = cc

pub same_node_sound : (a b : HdNode) → same_node a b ≡ true → a ≡ b
unfolding same_node
same_node_sound a b h =
    let depth : a.depth ≡ b.depth = ground arith in
    let child_num : a.child_num ≡ b.child_num = ground arith in
    let chain_code = same_elements_sound a.chain_code b.chain_code (ground arith) in
    let private_key = same_elements_sound a.private_key b.private_key (ground arith) in
    let public_key = same_elements_sound a.public_key b.public_key (ground arith) in
    let curve = same_curve_sound a.curve b.curve in
    λ t. record {
      depth = depth t;
      child_num = child_num t;
      chain_code = chain_code t;
      private_key = private_key t;
      public_key = public_key t;
      curve = curve t;
    }

pub entry_path :
    (e : CkdEntry) (node : HdNode) (parent : List ℕ)
    → length e.path ≡ e.depth
    → entry_matches e node parent ≡ true
    → e.path ≡ parent
unfolding entry_matches
entry_path e node parent len h =
    let depth : e.depth ≡ length parent = ground arith in
    let same : take (length parent) e.path ≡ parent =
      same_elements_sound (take (length parent) e.path) parent (and_parts (and_parts h).1).0 in
    sym (take_all (length parent) e.path (omega arith)) ∙ same
