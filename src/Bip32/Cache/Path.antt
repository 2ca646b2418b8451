-- ===== src/Bip32/Cache/Path.antt =====
-- Derivations of ios/Classes/bip32.c along a path, cut behind the parent.
use ether_flutter_plugin.Prelude.{
  ℕ, ◌-◌, ◌≡◌, ◌∙◌, refl, sym, ap, List, [], ◌∷◌, ◌++◌, Option, length, take, drop, get_or, arith,
  take-append-drop,
}
use ether_flutter_plugin.Bip32.{
  EcdsaCurve, HdNode, Derivation, derived, refused, unfinished, overrun, hdnode_private_ckd,
  derive_path,
}

last_lem : (x : ℕ) (xs : List ℕ) → drop (length xs) (x ∷ xs) ≡ get_or (x ∷ xs) (length xs) 0 ∷ []
last_lem x [] = refl
last_lem x (y ∷ ys) = last_lem y ys

path_split :
    (i j : ℕ) (path : List ℕ)
    → take (length (i ∷ j ∷ path) - 1) (i ∷ j ∷ path)
        ++ get_or (i ∷ j ∷ path) (length (i ∷ j ∷ path) - 1) 0 ∷ []
      ≡ i ∷ j ∷ path
path_split i j path =
    let n : ℕ = length (i ∷ j ∷ path) - 1 in
    let e : n ≡ length (j ∷ path) = omega arith in
    ap (λ (m : ℕ). take m (i ∷ j ∷ path) ++ get_or (i ∷ j ∷ path) m 0 ∷ []) e
    ∙ ap (λ t. take (length (j ∷ path)) (i ∷ j ∷ path) ++ t) (sym (last_lem i (j ∷ path)))
    ∙ take-append-drop (length (j ∷ path)) (i ∷ j ∷ path)

module _ (ecdsa_get_public_key33 : Option EcdsaCurve → List ℕ → List ℕ) (fuel : ℕ) where
  abbrev pub ckd : HdNode → ℕ → Derivation
  ckd = hdnode_private_ckd ecdsa_get_public_key33 fuel

  abbrev pub along : HdNode → List ℕ → Derivation
  along = derive_path ecdsa_get_public_key33 fuel

  -- What the rest of a path makes of a result.
  abbrev pub continue : Derivation → List ℕ → Derivation
  continue (derived node) path = along node path
  continue refused path = refused
  continue unfinished path = unfinished
  continue overrun path = overrun

  pub step-continue :
      (i : ℕ) (node : HdNode) (path : List ℕ) → along node (i ∷ path) ≡ continue (ckd node i) path
  unfolding derive_path
  step-continue i node path =
      elim (ckd node i)
        as (λ d.
          (elim d [
            | derived child ↦ along child path
            | refused ↦ refused
            | unfinished ↦ unfinished
            | overrun ↦ overrun
          ])
          ≡ continue d path) [
            | derived child ↦ refl
            | refused ↦ refl
            | unfinished ↦ refl
            | overrun ↦ refl
          ]

  pub continue_nil : (d : Derivation) → continue d [] ≡ d
  unfolding derive_path
  continue_nil (derived node) = refl
  continue_nil refused = refl
  continue_nil unfinished = refl
  continue_nil overrun = refl

  continue-append_lem :
      (d : Derivation) (xs ys : List ℕ)
      → ((node : HdNode) → along node (xs ++ ys) ≡ continue (along node xs) ys)
      → continue d (xs ++ ys) ≡ continue (continue d xs) ys
  continue-append_lem (derived node) xs ys f = f node
  continue-append_lem refused xs ys f = refl
  continue-append_lem unfinished xs ys f = refl
  continue-append_lem overrun xs ys f = refl

  pub along-append :
      (node : HdNode) (xs ys : List ℕ) → along node (xs ++ ys) ≡ continue (along node xs) ys
  unfolding derive_path
  along-append node [] ys = refl
  along-append node (i ∷ xs) ys =
      step-continue i node (xs ++ ys)
      ∙ continue-append_lem (ckd node i) xs ys (λ n. along-append n xs ys)
      ∙ ap (λ d. continue d ys) (sym (step-continue i node xs))

  -- A path is its parent's path and one more index.
  pub along_last :
      (node : HdNode) (i j : ℕ) (path : List ℕ)
      → along node (i ∷ j ∷ path)
        ≡ continue
            (along node (take (length (i ∷ j ∷ path) - 1) (i ∷ j ∷ path)))
            (get_or (i ∷ j ∷ path) (length (i ∷ j ∷ path) - 1) 0 ∷ [])
  along_last node i j path = ap (along node) (sym (path_split i j path)) ∙ along-append node _ _

  pub one_more : (node : HdNode) (last : ℕ) → ckd node last ≡ continue (derived node) (last ∷ [])
  one_more node last = sym (continue_nil (ckd node last)) ∙ sym (step-continue last node [])
