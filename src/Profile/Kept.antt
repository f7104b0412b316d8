-- ===== src/Profile/Kept.antt =====
-- src/spoof_profile.cpp: a feature that the driver has is not taken back.
use compat_layer.Prelude.{
  ℕ, zero, suc, ◌≡◌, ◌≢◌, refl, sym, ap, ◌∙◌, true, false, Bool, not, ◌&&◌, ◌||◌, List, [], ◌∷◌,
  length, ◌==◌, if◌then◌else◌, Bool-cases, inl, inr, arith,
}
use compat_layer.Profile.{
  Struct, Node, put, features2, mask_core_features, mask_struct, mask_node, mask_chain,
  mask_next_features,
}

put-other :
    (b : Bool) (o o' : ℕ) (st : Struct)
    → (b ≡ true → o' ≢ o)
    → (if b then put o' 0 st else st) o ≡ st o
put-other false o o' st n = refl
put-other true o o' st n = let other = n refl in ground (arith, other)

mask_core_features-kept :
    (os : List ℕ) (actual st : Struct) (o : ℕ)
    → actual o ≢ 0
    → mask_core_features false os actual st o ≡ st o
unfolding mask_core_features
mask_core_features-kept [] actual st o n = refl
mask_core_features-kept (o' ∷ os) actual st o n =
    mask_core_features-kept os actual _ o n
    ∙ put-other ((not (st o' == 0) && actual o' == 0) || false) o o' st
        (λ k e. let lacking : actual o' ≡ 0 = ground (arith, k) in n (sym (ap actual e) ∙ lacking))

-- What becomes of a structure: its type, and each feature that the driver has.
pub record IsKept (actual_core : Struct) (actual : ℕ → Struct) (n m : Node) : Type 0 where
  pub s_type : m.s_type ≡ n.s_type
  pub fields : (o : ℕ) → actual n.s_type o ≢ 0 → m.fields o ≡ n.fields o
  pub core : (o : ℕ) → actual_core o ≢ 0 → m.core o ≡ n.core o

abbrev pub AllKept : Struct → (ℕ → Struct) → List Node → List Node → Type 0
AllKept actual_core actual [] [] = Unit
AllKept actual_core actual (n ∷ ns) (m ∷ ms) =
    IsKept actual_core actual n m × AllKept actual_core actual ns ms
AllKept actual_core actual [] (m ∷ ms) = ⊥
AllKept actual_core actual (n ∷ ns) [] = ⊥

module _ (core_table : List ℕ) (actual_core : Struct) (actual : ℕ → Struct) where
  mask_struct-kept :
      (rows : List (ℕ × ℕ)) (t : ℕ) (st : Struct) (o : ℕ)
      → actual t o ≢ 0
      → mask_struct false core_table actual_core actual rows t st o ≡ st o
  unfolding mask_struct
  mask_struct-kept [] t st o n = refl
  mask_struct-kept ((t', o') ∷ rows) t st o n =
      mask_struct-kept rows t _ o n
      ∙ put-other (t == t' && not (st o' == 0) && (actual t' o' == 0 || false)) o o' st (λ k e.
        let lacking : actual t' o' ≡ 0 = ground (arith, k) in
        let same : t ≡ t' = ground (arith, k) in
        n (ap (λ x. actual x o) same ∙ sym (ap (actual t') e) ∙ lacking))

  module _ (table : List (ℕ × ℕ)) where
    mask_node-IsKept :
        (n : Node)
        → IsKept actual_core actual n (mask_node false core_table actual_core actual table n)
    mask_node-IsKept n = record {
      s_type = refl;
      fields = mask_struct-kept table n.s_type n.fields;
      core = λ o has. elim (Bool-cases (n.s_type == features2)) [
        | inl e ↦ rw e (mask_core_features-kept core_table actual_core n.core o has)
        | inr e ↦ rw e refl
      ];
    }

    AllKept-refl : (ns : List Node) → AllKept actual_core actual ns ns
    AllKept-refl [] = tt
    AllKept-refl (n ∷ ns) =
        (record { s_type = refl; fields = λ o has. refl; core = λ o has. refl }, AllKept-refl ns)

    IsKept-trans :
        (n m l : Node)
        → IsKept actual_core actual n m
        → IsKept actual_core actual m l
        → IsKept actual_core actual n l
    IsKept-trans n m l v w = record {
      s_type = w.s_type ∙ v.s_type;
      fields =
          λ o has. w.fields o (λ z. has (ap (λ t. actual t o) (sym v.s_type) ∙ z)) ∙ v.fields o has;
      core = λ o has. w.core o has ∙ v.core o has;
    }

    AllKept-trans :
        (ns ms ls : List Node)
        → AllKept actual_core actual ns ms
        → AllKept actual_core actual ms ls
        → AllKept actual_core actual ns ls
    AllKept-trans [] [] [] v w = tt
    AllKept-trans (n ∷ ns) (m ∷ ms) (l ∷ ls) v w =
        (IsKept-trans n m l v.0 w.0, AllKept-trans ns ms ls v.1 w.1)
    AllKept-trans [] (m ∷ ms) ls v w = elim v [ ]
    AllKept-trans [] [] (l ∷ ls) v w = elim w [ ]
    AllKept-trans (n ∷ ns) [] ls v w = elim v [ ]
    AllKept-trans (n ∷ ns) (m ∷ ms) [] v w = elim w [ ]

    mask_chain-AllKept :
        (fuel : ℕ) (ns : List Node)
        → AllKept actual_core actual ns
            (mask_chain false core_table actual_core actual table fuel ns)
    unfolding mask_chain
    mask_chain-AllKept zero ns = AllKept-refl ns
    mask_chain-AllKept (suc fuel) [] = tt
    mask_chain-AllKept (suc fuel) (n ∷ ns) = (
      mask_node-IsKept n,
      elim (Bool-cases (n.s_type == features2)) [
        | inl e ↦
            rw e (AllKept-trans ns _ _ (mask_chain-AllKept fuel ns) (mask_chain-AllKept fuel _))
        | inr e ↦ rw e (mask_chain-AllKept fuel ns)
      ],
    )

    -- Where masking is not forced, the pNext chain that a device is created with has the structures that
    -- the application asked with, and in them every feature that the driver has as the application
    -- set it.
    pub mask_next_features-AllKept :
        (ns : List Node)
        → AllKept actual_core actual ns
            (mask_next_features false core_table actual_core actual table ns)
    unfolding mask_next_features
    mask_next_features-AllKept ns = mask_chain-AllKept (length ns) ns
