-- ===== src/Profile/Fuel.antt =====
-- src/spoof_profile.cpp: the recursion of `mask_next_features` comes to its end.
use compat_layer.Prelude.{
  ℕ, zero, suc, ◌≤◌, ◌≡◌, refl, ap, ◌∙◌, Bool, true, false, List, [], ◌∷◌, length, ◌==◌,
  if◌then◌else◌, Bool-cases, inl, inr, arith,
}
use compat_layer.Profile.{Struct, Node, features2, mask_node, mask_chain, mask_next_features}

module _ (force : Bool) (core_table : List ℕ) (actual_core : Struct) (actual : ℕ → Struct)
    (table : List (ℕ × ℕ)) where
  abbrev chain : ℕ → List Node → List Node
  chain = mask_chain force core_table actual_core actual table

  abbrev node : Node → Node
  node = mask_node force core_table actual_core actual table

  length-chain : (fuel : ℕ) (ns : List Node) → length (chain fuel ns) ≡ length ns
  unfolding mask_chain
  length-chain zero ns = refl
  length-chain (suc fuel) [] = refl
  length-chain (suc fuel) (n ∷ ns) = elim (Bool-cases (n.s_type == features2)) [
    | inl e ↦ rw e (ap suc (length-chain fuel (chain fuel ns) ∙ length-chain fuel ns))
    | inr e ↦ rw e (ap suc (length-chain fuel ns))
  ]

  after :
      (b : Bool) (f g : ℕ) (ns : List Node)
      → chain f ns ≡ chain g ns
      → chain f (chain f ns) ≡ chain g (chain f ns)
      → chain f (if b then chain f ns else ns) ≡ chain g (if b then chain g ns else ns)
  after true f g ns once twice = twice ∙ ap (chain g) once
  after false f g ns once twice = once

  same_chain : (f g : ℕ) (ns : List Node) → length ns ≤ f → length ns ≤ g → chain f ns ≡ chain g ns
  unfolding mask_chain
  same_chain zero zero ns j k = refl
  same_chain zero (suc g) [] j k = refl
  same_chain zero (suc g) (n ∷ ns) j k = absurd (omega arith)
  same_chain (suc f) zero [] j k = refl
  same_chain (suc f) zero (n ∷ ns) j k = absurd (omega arith)
  same_chain (suc f) (suc g) [] j k = refl
  same_chain (suc f) (suc g) (n ∷ ns) j k =
      let once = same_chain f g ns (omega arith) (omega arith) in
      let size = length-chain f ns in
      let twice = same_chain f g (chain f ns) (omega (arith, size)) (omega (arith, size)) in
      ap (λ xs. node n ∷ xs) (after (n.s_type == features2) f g ns once twice)

  -- The recursion of `mask_next_features` is over after as many nested calls as the chain is long:
  -- with any more fuel the masked chain is the same, and it is as long as the chain.
  pub mask_chain-fuel :
      (fuel : ℕ) (ns : List Node)
      → length ns ≤ fuel
      → (mask_chain force core_table actual_core actual table fuel ns
          ≡ mask_next_features force core_table actual_core actual table ns)
        × (length (mask_next_features force core_table actual_core actual table ns) ≡ length ns)
  unfolding mask_next_features
  mask_chain-fuel fuel ns k =
      (same_chain fuel (length ns) ns k (omega arith), length-chain (length ns) ns)
