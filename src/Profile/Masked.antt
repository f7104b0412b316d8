-- ===== src/Profile/Masked.antt =====
-- src/spoof_profile.cpp: a device is created with no feature that the driver lacks.
use compat_layer.Prelude.{
  ℕ, zero, suc, ◌≤◌, ◌≡◌, ◌≢◌, refl, true, Bool, List, [], ◌∷◌, length, All, ◌==◌, Bool-cases, inl,
  inr, arith,
}
use compat_layer.Profile.{
  Struct, Node, features2, mask_core_features, mask_struct, mask_node, mask_chain,
  mask_next_features,
}

module _ (force : Bool) where
  mask_core_features-zero :
      (os : List ℕ) (actual st : Struct) (o : ℕ)
      → st o ≡ 0
      → mask_core_features force os actual st o ≡ 0
  unfolding mask_core_features
  mask_core_features-zero [] actual st o e = e
  mask_core_features-zero (o' ∷ os) actual st o e =
      mask_core_features-zero os actual _ o (ground (arith, e))

  mask_core_features-supported :
      (os : List ℕ) (actual st : Struct)
      → All (λ o. mask_core_features force os actual st o ≢ 0 → actual o ≢ 0) os
  unfolding mask_core_features
  mask_core_features-supported [] actual st = tt
  mask_core_features-supported (o ∷ os) actual st = (
    λ n lacking. n (mask_core_features-zero os actual _ o (ground (arith, lacking))),
    mask_core_features-supported os actual _,
  )

  module _ (core_table : List ℕ) (actual_core : Struct) (actual : ℕ → Struct) where
    mask_struct-zero :
        (rows : List (ℕ × ℕ)) (t : ℕ) (st : Struct) (o : ℕ)
        → st o ≡ 0
        → mask_struct force core_table actual_core actual rows t st o ≡ 0
    unfolding mask_struct
    mask_struct-zero [] t st o e = e
    mask_struct-zero ((t', o') ∷ rows) t st o e = mask_struct-zero rows t _ o (ground (arith, e))

    mask_struct-supported :
        (rows : List (ℕ × ℕ)) (t : ℕ) (st : Struct)
        → All
            (λ row.
              (t == row.0) ≡ true
              → mask_struct force core_table actual_core actual rows t st row.1 ≢ 0
              → actual row.0 row.1 ≢ 0)
            rows
    unfolding mask_struct
    mask_struct-supported [] t st = tt
    mask_struct-supported ((t', o) ∷ rows) t st = (
      λ k n lacking. n (mask_struct-zero rows t _ o (ground (arith, k, lacking))),
      mask_struct-supported rows t _,
    )

-- Each spoofed feature that a structure requests is one that the driver has.
pub record IsSupported (core_table : List ℕ) (actual_core : Struct) (actual : ℕ → Struct)
    (table : List (ℕ × ℕ)) (n : Node) : Type 0 where
  pub next :
      All (λ row. (n.s_type == row.0) ≡ true → n.fields row.1 ≢ 0 → actual row.0 row.1 ≢ 0) table
  pub core : n.s_type ≡ features2 → All (λ o. n.core o ≢ 0 → actual_core o ≢ 0) core_table

module _ (force : Bool) (core_table : List ℕ) (actual_core : Struct) (actual : ℕ → Struct)
    (table : List (ℕ × ℕ)) where
  abbrev masked : Node → Node
  masked = mask_node force core_table actual_core actual table

  abbrev chain : ℕ → List Node → List Node
  chain = mask_chain force core_table actual_core actual table

  mask_node-IsSupported : (n : Node) → IsSupported core_table actual_core actual table (masked n)
  mask_node-IsSupported n = record {
    next = mask_struct-supported force core_table actual_core actual table n.s_type n.fields;
    core = λ e.
        let k : (n.s_type == features2) ≡ true = ground (arith, e) in
        rw k (mask_core_features-supported force core_table actual_core n.core);
  }

  length-mask_chain : (fuel : ℕ) (ns : List Node) → length (chain fuel ns) ≡ length ns
  unfolding mask_chain
  length-mask_chain zero ns = refl
  length-mask_chain (suc fuel) [] = refl
  length-mask_chain (suc fuel) (n ∷ ns) = elim (Bool-cases (n.s_type == features2)) [
    | inl k ↦
        rw k (omega (arith, length-mask_chain fuel ns, length-mask_chain fuel (chain fuel ns)))
    | inr k ↦ rw k (omega (arith, length-mask_chain fuel ns))
  ]

  mask_chain-IsSupported :
      (fuel : ℕ) (ns : List Node)
      → length ns ≤ fuel
      → All (IsSupported core_table actual_core actual table) (chain fuel ns)
  unfolding mask_chain
  mask_chain-IsSupported zero [] k = tt
  mask_chain-IsSupported (suc fuel) [] k = tt
  mask_chain-IsSupported zero (n ∷ ns) k = elim k [ ]
  mask_chain-IsSupported (suc fuel) (n ∷ ns) k = (
    mask_node-IsSupported n,
    elim (Bool-cases (n.s_type == features2)) [
      | inl e ↦ rw e (
          mask_chain-IsSupported fuel (chain fuel ns) (omega (arith, k, length-mask_chain fuel ns)))
      | inr e ↦ rw e (mask_chain-IsSupported fuel ns (omega (arith, k)))
    ],
  )

  -- Whatever the application requests, and whether masking is forced or not, each spoofed feature
  -- that masking leaves in the pNext chain is one that the driver has: in each
  -- structure of the chain, and in the core features of each `VkPhysicalDeviceFeatures2`.
  pub mask_next_features-IsSupported :
      (ns : List Node)
      → All
          (IsSupported core_table actual_core actual table)
          (mask_next_features force core_table actual_core actual table ns)
  unfolding mask_next_features
  mask_next_features-IsSupported ns = mask_chain-IsSupported (length ns) ns (omega arith)
