-- ===== src/Samplers.antt =====
-- src/samplers.cpp: the set of YCbCr samplers and the fallback sampler of the device; and
-- `PatchYCbCrSamplerBindings` of src/descriptors.cpp, which puts the one in place of the others.
pub mod Owned
pub mod Patched
mod Tests
use compat_layer.Prelude.{
  ℕ, zero, suc, ◌+◌, ◌*◌, ◌/◌, ◌%◌, Bool, true, false, not, ◌&&◌, ◌||◌, List, [], ◌∷◌, ◌++◌, Option,
  none, some, count, remove, map, length, set, get_or, ltb, ◌==◌, if◌then◌else◌,
}
use compat_layer.Device.{Device}
use compat_layer.Driver.{Driver, History, Call, Object, VkResult, is_success}

pub record Samplers : Type 0 where
  pub ycbcr_samplers : List ℕ
  pub fallback_sampler : ℕ
  pub history : History

abbrev pub called : Call → Samplers → Samplers
called c s = record s { history = c ∷ s.history }

abbrev pub is_ycbcr_sampler : List ℕ → ℕ → Bool
is_ycbcr_sampler ycbcr p = ltb 0 (count p ycbcr)

-- `insert` of an unordered set
abbrev pub insert_sampler : ℕ → List ℕ → List ℕ
insert_sampler p ycbcr = if is_ycbcr_sampler ycbcr p then ycbcr else p ∷ ycbcr

-- `VK_STRUCTURE_TYPE_SAMPLER_YCBCR_CONVERSION_INFO`
abbrev pub conversion_info : ℕ
conversion_info = 1000156001

-- The loop over the types of the chain
abbrev pub has_conversion : (chain : List ℕ) → Bool
has_conversion [] = false
has_conversion (t ∷ ts) = t == conversion_info || has_conversion ts

module _ (d : Driver) where
  -- The fallback is created without the chain.
  unfoldable pub get_ycbcr_fallback_sampler : (info : List ℕ) → Samplers → ℕ × Samplers
  get_ycbcr_fallback_sampler info s =
      let c = Call.create Object.sampler info in
      let fallback = d.handle s.history c in
      if not (s.fallback_sampler == 0)
      then (s.fallback_sampler, s)
      else (if is_success (d.result s.history c)
          then (fallback, record (called c s) { fallback_sampler = fallback })
          else (0, called c s))

  unfoldable pub create_sampler :
      Option Device → (info chain : List ℕ) → Samplers → VkResult × ℕ × Samplers
  create_sampler none info chain s = (VkResult.error_unknown, 0, s)
  create_sampler (some dev) info chain s =
      let c = Call.create Object.sampler (info ++ chain) in
      let result = d.result s.history c in
      let handle = d.handle s.history c in
      let s1 = called c s in
      let added = record s1 { ycbcr_samplers = insert_sampler handle s1.ycbcr_samplers } in
      if is_success result
      then (
        VkResult.success,
        handle,
        if has_conversion chain then (get_ycbcr_fallback_sampler info added).1 else s1,
      )
      else (result, 0, s1)

unfoldable pub destroy_sampler : Option Device → (handle : ℕ) → Samplers → Samplers
destroy_sampler none handle s = s
destroy_sampler (some dev) handle s = record s {
  ycbcr_samplers = remove handle s.ycbcr_samplers;
  history = Call.destroy Object.sampler handle ∷ s.history;
}

unfoldable pub destroy_ycbcr_fallback_sampler : Samplers → Samplers
destroy_ycbcr_fallback_sampler s =
    if not (s.fallback_sampler == 0)
    then record s {
      fallback_sampler = 0;
      history = Call.destroy Object.sampler s.fallback_sampler ∷ s.history;
    }
    else s

-- The fields of `VkDescriptorSetLayoutBinding` that are read; `none` is a null pointer.
pub record Binding : Type 0 where
  pub binding : ℕ
  pub stage_flags : ℕ
  pub immutable_samplers : Option (List ℕ)

-- `VK_SHADER_STAGE_COMPUTE_BIT` is 32. The count is the length of the array.
abbrev pub is_compute : Binding → Bool
is_compute b = not ((b.stage_flags / 32) % 2 == 0)

-- `std::any_of` and `std::replace_if`
abbrev pub any_ycbcr : List ℕ → List ℕ → Bool
any_ycbcr ycbcr [] = false
any_ycbcr ycbcr (p ∷ ps) = is_ycbcr_sampler ycbcr p || any_ycbcr ycbcr ps

abbrev pub replace_ycbcr : List ℕ → (fallback : ℕ) → List ℕ → List ℕ
replace_ycbcr ycbcr fallback = map (λ p. if is_ycbcr_sampler ycbcr p then fallback else p)

-- The samplers of the binding if the loop does not skip it.
abbrev pub to_patch : List ℕ → Binding → Option (List ℕ)
to_patch ycbcr b = elim b.immutable_samplers [
  | none ↦ none
  | some samplers ↦ if is_compute b && any_ycbcr ycbcr samplers then some samplers else none
]

module _ (ycbcr : List ℕ) (fallback : ℕ) (all : List Binding) where
  -- `patchedBindings` starts empty and is assigned at the first binding to patch.
  unfoldable pub patched_so_far : List Binding → List Binding
  patched_so_far [] = all
  patched_so_far (b ∷ bs) = b ∷ bs

  unfoldable pub patch_at : ℕ → Binding → List Binding → List Binding
  patch_at i b patched = elim (to_patch ycbcr b) [
    | none ↦ patched
    | some samplers ↦
        set (patched_so_far patched) i
          (record b { immutable_samplers = some (replace_ycbcr ycbcr fallback samplers) })
  ]

  -- The loop, from binding `i` on.
  unfoldable pub patch_loop : ℕ → List Binding → List Binding → List Binding
  patch_loop i [] patched = patched
  patch_loop i (b ∷ bs) patched = patch_loop (i + 1) bs (patch_at i b patched)

-- The bindings that the layout is created with.
unfoldable pub patch_ycbcr_sampler_bindings : Samplers → List Binding → List Binding
patch_ycbcr_sampler_bindings s bindings =
    let patched = patch_loop s.ycbcr_samplers s.fallback_sampler bindings 0 bindings [] in
    if s.fallback_sampler == 0 then bindings else elim patched [ [] ↦ bindings | b ∷ bs ↦ b ∷ bs ]
