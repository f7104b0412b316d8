-- ===== src/Samplers/Patched.antt =====
-- src/descriptors.cpp: `PatchYCbCrSamplerBindings` does to each binding what it does to one.
use compat_layer.Prelude.{
  ℕ, ◌+◌, ◌≡◌, ◌≢◌, refl, sym, ap, subst, ◌∙◌, true, false, ◌&&◌, List, [], ◌∷◌, ◌++◌, none, some,
  map, length, length-append, set, ◌==◌, Bool-cases, Option-cases, inl, inr, arith, ◌⊎◌,
}
use compat_layer.Samplers.{
  Samplers, Binding, is_compute, is_ycbcr_sampler, any_ycbcr, replace_ycbcr, to_patch,
  patched_so_far, patch_at, patch_loop, patch_ycbcr_sampler_bindings,
}

-- One binding by itself
pub patch_binding : List ℕ → (fallback : ℕ) → Binding → Binding
patch_binding ycbcr fallback b = elim (to_patch ycbcr b) [
  | none ↦ b
  | some samplers ↦ record b { immutable_samplers = some (replace_ycbcr ycbcr fallback samplers) }
]

append_assoc : (xs ys zs : List Binding) → (xs ++ ys) ++ zs ≡ xs ++ (ys ++ zs)
append_assoc [] ys zs = refl
append_assoc (x ∷ xs) ys zs = ap (λ t. x ∷ t) (append_assoc xs ys zs)

set-append :
    (xs : List Binding) (b v : Binding) (ys : List Binding)
    → set (xs ++ b ∷ ys) (length xs) v ≡ xs ++ v ∷ ys
set-append [] b v ys = refl
set-append (x ∷ xs) b v ys = ap (λ t. x ∷ t) (set-append xs b v ys)

module _ (ycbcr : List ℕ) (fallback : ℕ) (all : List Binding) where
  patched_so_far-append :
      (xs : List Binding) (v : Binding) (ys : List Binding)
      → patched_so_far ycbcr fallback all (xs ++ v ∷ ys) ≡ xs ++ v ∷ ys
  unfolding patched_so_far
  patched_so_far-append [] v ys = refl
  patched_so_far-append (x ∷ xs) v ys = refl

  patch_at-patched :
      (xs : List Binding) (b : Binding) (ys patched : List Binding)
      → patched_so_far ycbcr fallback all patched ≡ xs ++ b ∷ ys
      → patched_so_far ycbcr fallback all (patch_at ycbcr fallback all (length xs) b patched)
        ≡ xs ++ patch_binding ycbcr fallback b ∷ ys
  unfolding patch_at patch_binding
  patch_at-patched xs b ys patched e = elim (Option-cases (to_patch ycbcr b)) [
    | inl k ↦ rw (k, patch_at, patch_binding) e
    | inr (samplers, k) ↦
        let v : Binding = record b {
          immutable_samplers = some (replace_ycbcr ycbcr fallback samplers);
        } in
        rw (k, patch_at, patch_binding)
          (rw (e, set-append xs b v ys) (patched_so_far-append xs v ys))
  ]

  patch_loop-patched :
      (ys xs patched : List Binding) (i : ℕ)
      → i ≡ length xs
      → patched_so_far ycbcr fallback all patched ≡ xs ++ ys
      → patched_so_far ycbcr fallback all (patch_loop ycbcr fallback all i ys patched)
        ≡ xs ++ map (patch_binding ycbcr fallback) ys
  unfolding patch_loop
  patch_loop-patched [] xs patched i k e = e
  patch_loop-patched (b ∷ bs) xs patched i k e =
      let p = patch_binding ycbcr fallback b in
      let xs' = xs ++ p ∷ [] in
      patch_loop-patched bs xs' (patch_at ycbcr fallback all i b patched) (i + 1)
        (omega (arith, k, length-append xs (p ∷ [])))
        (rw k (patch_at-patched xs b bs patched e) ∙ sym (append_assoc xs (p ∷ []) bs))
      ∙ append_assoc xs (p ∷ []) (map (patch_binding ycbcr fallback) bs)

patched_or_all :
    (ycbcr : List ℕ) (fallback : ℕ) (bindings patched : List Binding)
    → (elim patched [ [] ↦ bindings | b ∷ bs ↦ b ∷ bs ])
      ≡ patched_so_far ycbcr fallback bindings patched
unfolding patched_so_far
patched_or_all ycbcr fallback bindings [] = refl
patched_or_all ycbcr fallback bindings (b ∷ bs) = refl

-- Where there is a fallback sampler, the layout is created with every binding patched on its own:
-- the samplers of a binding that is visible to compute shaders and has a YCbCr sampler among them,
-- with the fallback for each such one, and any other binding as it is.
pub patch_ycbcr_sampler_bindings-patched :
    (s : Samplers) (bindings : List Binding)
    → s.fallback_sampler ≢ 0
    → patch_ycbcr_sampler_bindings s bindings
      ≡ map (patch_binding s.ycbcr_samplers s.fallback_sampler) bindings
unfolding patch_ycbcr_sampler_bindings patched_so_far
patch_ycbcr_sampler_bindings-patched s bindings n =
    let ycbcr = s.ycbcr_samplers in
    let fallback = s.fallback_sampler in
    let none_yet : (fallback == 0) ≡ false = ground (arith, n) in
    rw (none_yet, patch_ycbcr_sampler_bindings)
      (patched_or_all s.ycbcr_samplers s.fallback_sampler bindings
          (patch_loop ycbcr fallback bindings 0 bindings [])
        ∙ patch_loop-patched ycbcr fallback bindings bindings [] [] 0 refl refl)

any_ycbcr-replace :
    (ycbcr : List ℕ) (fallback : ℕ) (ps : List ℕ)
    → is_ycbcr_sampler ycbcr fallback ≡ false
    → any_ycbcr ycbcr (replace_ycbcr ycbcr fallback ps) ≡ false
any_ycbcr-replace ycbcr fallback [] e = refl
any_ycbcr-replace ycbcr fallback (p ∷ ps) e =
    ground (arith, e, any_ycbcr-replace ycbcr fallback ps e)

abbrev pub samplers_of : Binding → List ℕ
samplers_of b = elim b.immutable_samplers [ none ↦ [] | some samplers ↦ samplers ]

-- A compute shader that uses the binding sees no YCbCr sampler.
abbrev pub IsServable : List ℕ → Binding → Type 0
IsServable ycbcr b = is_compute b ≡ true → any_ycbcr ycbcr (samplers_of b) ≡ false

patch_binding-IsServable :
    (ycbcr : List ℕ) (fallback : ℕ) (b : Binding)
    → is_ycbcr_sampler ycbcr fallback ≡ false
    → IsServable ycbcr (patch_binding ycbcr fallback b)
unfolding patch_binding
patch_binding-IsServable ycbcr fallback b e = elim (Option-cases b.immutable_samplers) [
  | inl k ↦ rw (k, patch_binding) (λ c. rw k refl)
  | inr (samplers, k) ↦ elim (Bool-cases (is_compute b && any_ycbcr ycbcr samplers)) [
    | inl q ↦ rw (k, q, patch_binding) (λ c. any_ycbcr-replace ycbcr fallback samplers e)
    | inr q ↦ rw (k, q, patch_binding) (λ c. rw k (ground (arith, c, q)))
  ]
]

-- Place by place
abbrev pub AllPairs {ℓ} : {A : Type ℓ} → (A → A → Type 0) → List A → List A → Type 0
AllPairs R [] [] = Unit
AllPairs R (x ∷ xs) (y ∷ ys) = R x y × AllPairs R xs ys
AllPairs R _ _ = ⊥

-- A sampler is as it was, or is a YCbCr sampler that has become the fallback.
abbrev pub IsReplaced : List ℕ → (fallback : ℕ) → ℕ → ℕ → Type 0
IsReplaced ycbcr fallback p q = (q ≡ p) ⊎ ((is_ycbcr_sampler ycbcr p ≡ true) × (q ≡ fallback))

-- The binding keeps its place and its stages; where it is not visible to compute shaders it keeps
-- its samplers too, and elsewhere it has no YCbCr sampler left and no other one replaced.
pub record IsPatched (ycbcr : List ℕ) (fallback : ℕ) (b b' : Binding) : Type 0 where
  pub placed : b'.binding ≡ b.binding
  pub staged : b'.stage_flags ≡ b.stage_flags
  pub kept : is_compute b ≡ false → b'.immutable_samplers ≡ b.immutable_samplers
  pub replaced : AllPairs (IsReplaced ycbcr fallback) (samplers_of b) (samplers_of b')
  pub servable : IsServable ycbcr b'

replace_ycbcr-IsReplaced :
    (ycbcr : List ℕ) (fallback : ℕ) (ps : List ℕ)
    → AllPairs (IsReplaced ycbcr fallback) ps (replace_ycbcr ycbcr fallback ps)
replace_ycbcr-IsReplaced ycbcr fallback [] = tt
replace_ycbcr-IsReplaced ycbcr fallback (p ∷ ps) = (
  elim (Bool-cases (is_ycbcr_sampler ycbcr p)) [
    | inl e ↦ inr (e, rw e refl)
    | inr e ↦ inl (rw e refl)
  ],
  replace_ycbcr-IsReplaced ycbcr fallback ps,
)

same-IsReplaced :
    (ycbcr : List ℕ) (fallback : ℕ) (ps : List ℕ) → AllPairs (IsReplaced ycbcr fallback) ps ps
same-IsReplaced ycbcr fallback [] = tt
same-IsReplaced ycbcr fallback (p ∷ ps) = (inl refl, same-IsReplaced ycbcr fallback ps)

patch_binding_placed :
    (ycbcr : List ℕ) (fallback : ℕ) (b : Binding)
    → ((patch_binding ycbcr fallback b).binding ≡ b.binding)
      × ((patch_binding ycbcr fallback b).stage_flags ≡ b.stage_flags)
unfolding patch_binding
patch_binding_placed ycbcr fallback b = elim (Option-cases (to_patch ycbcr b)) [
  | inl k ↦ rw (k, patch_binding) (refl, refl)
  | inr (samplers, k) ↦ rw (k, patch_binding) (refl, refl)
]

patch_binding_kept :
    (ycbcr : List ℕ) (fallback : ℕ) (b : Binding)
    → is_compute b ≡ false
    → (patch_binding ycbcr fallback b).immutable_samplers ≡ b.immutable_samplers
unfolding patch_binding
patch_binding_kept ycbcr fallback b c = elim (Option-cases b.immutable_samplers) [
  | inl k ↦ rw (k, patch_binding) k
  | inr (samplers, k) ↦ rw (k, c, patch_binding) k
]

patch_binding-IsReplaced :
    (ycbcr : List ℕ) (fallback : ℕ) (b : Binding)
    → AllPairs
        (IsReplaced ycbcr fallback)
        (samplers_of b)
        (samplers_of (patch_binding ycbcr fallback b))
unfolding patch_binding
patch_binding-IsReplaced ycbcr fallback b = elim (Option-cases b.immutable_samplers) [
  | inl k ↦ rw (k, patch_binding) (rw k tt)
  | inr (samplers, k) ↦ elim (Bool-cases (is_compute b && any_ycbcr ycbcr samplers)) [
    | inl q ↦ rw (k, q, patch_binding) (replace_ycbcr-IsReplaced ycbcr fallback samplers)
    | inr q ↦ rw (k, q, patch_binding) (rw k (same-IsReplaced ycbcr fallback samplers))
  ]
]

map-IsPatched :
    (ycbcr : List ℕ) (fallback : ℕ) (bindings : List Binding)
    → is_ycbcr_sampler ycbcr fallback ≡ false
    → AllPairs (IsPatched ycbcr fallback) bindings (map (patch_binding ycbcr fallback) bindings)
map-IsPatched ycbcr fallback [] e = tt
map-IsPatched ycbcr fallback (b ∷ bs) e =
    let (placed, staged) = patch_binding_placed ycbcr fallback b in
    (
      record {
        placed = placed;
        staged = staged;
        kept = patch_binding_kept ycbcr fallback b;
        replaced = patch_binding-IsReplaced ycbcr fallback b;
        servable = patch_binding-IsServable ycbcr fallback b e;
      },
      map-IsPatched ycbcr fallback bs e,
    )

-- Where there is a fallback sampler that is not itself a YCbCr sampler, the layout has as many
-- bindings as the application gave. A binding that is visible to compute shaders has each YCbCr
-- sampler replaced by the fallback and no other one; the rest keep all their samplers.
pub patch_ycbcr_sampler_bindings-AllPatched :
    (s : Samplers) (bindings : List Binding)
    → s.fallback_sampler ≢ 0
    → is_ycbcr_sampler s.ycbcr_samplers s.fallback_sampler ≡ false
    → AllPairs
        (IsPatched s.ycbcr_samplers s.fallback_sampler)
        bindings
        (patch_ycbcr_sampler_bindings s bindings)
patch_ycbcr_sampler_bindings-AllPatched s bindings n e =
    subst (AllPairs (IsPatched s.ycbcr_samplers s.fallback_sampler) bindings)
      (sym (patch_ycbcr_sampler_bindings-patched s bindings n))
      (map-IsPatched s.ycbcr_samplers s.fallback_sampler bindings e)
