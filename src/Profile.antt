-- ===== src/Profile.antt =====
-- src/spoof_profile.cpp: what the layer reports of features and properties, and what it takes back
-- when a device is created. The tables of src/generated_spoofed_profile.hpp, the chains of the
-- application and the answers of the driver are arguments. A structure is the word at each offset.
pub mod Fuel
pub mod Kept
pub mod Masked
pub mod Reported
mod Tests
use compat_layer.Prelude.{
  ℕ, zero, suc, Bool, true, false, not, ◌&&◌, ◌||◌, List, [], ◌∷◌, length, ◌==◌, if◌then◌else◌,
}

abbrev pub Struct : Type 0
Struct = ℕ → ℕ

-- `*get_field(base, offset) = value`
abbrev pub put : (offset value : ℕ) → Struct → Struct
put offset value st o = if o == offset then value else st o

-- A structure of a chain; `core` is the `features` member of `VkPhysicalDeviceFeatures2`.
pub record Node : Type 0 where
  pub s_type : ℕ
  pub fields : Struct
  pub core : Struct

-- `VK_STRUCTURE_TYPE_PHYSICAL_DEVICE_FEATURES_2`
abbrev pub features2 : ℕ
features2 = 1000059000

-- The offsets of `SPOOFED_CORE_FEATURES`
unfoldable pub spoof_core_features : List ℕ → Struct → Struct
spoof_core_features [] st = st
spoof_core_features (o ∷ os) st = spoof_core_features os (put o 1 st)

-- A type, an offset and a value: the rows of `SPOOFED_PROPERTIES`, and with the value 1 those of
-- `SPOOFED_NEXT_FEATURES`.
unfoldable pub spoof_struct : List (ℕ × ℕ × ℕ) → (s_type : ℕ) → Struct → Struct
spoof_struct [] t st = st
spoof_struct ((t', o, value) ∷ rows) t st =
    spoof_struct rows t (if t == t' then put o value st else st)

abbrev pub spoof_node : List (ℕ × ℕ × ℕ) → Node → Node
spoof_node rows n = record n { fields = spoof_struct rows n.s_type n.fields }

abbrev pub as_rows : List (ℕ × ℕ) → List (ℕ × ℕ × ℕ)
as_rows [] = []
as_rows ((t, o) ∷ rest) = (t, o, 1) ∷ as_rows rest

unfoldable pub spoof_properties : List (ℕ × ℕ × ℕ) → List Node → List Node
spoof_properties rows [] = []
spoof_properties rows (n ∷ ns) = spoof_node rows n ∷ spoof_properties rows ns

unfoldable pub spoof_next_features : List (ℕ × ℕ) → List Node → List Node
spoof_next_features table [] = []
spoof_next_features table (n ∷ ns) = spoof_node (as_rows table) n ∷ spoof_next_features table ns

-- `force` is whether COMPAT_FORCE_MASKING is set and not 0.
module _ (force : Bool) where
  unfoldable pub mask_core_features : List ℕ → (actual : Struct) → Struct → Struct
  mask_core_features [] actual requested = requested
  mask_core_features (o ∷ os) actual requested =
      mask_core_features os actual (
        if (not (requested o == 0) && actual o == 0) || force then put o 0 requested else requested)

  module _ (core_table : List ℕ) (actual_core : Struct) (actual : ℕ → Struct) where
    -- The loop over the table. The driver fills in a zeroed structure of the row's type.
    unfoldable pub mask_struct : List (ℕ × ℕ) → (s_type : ℕ) → Struct → Struct
    mask_struct [] t st = st
    mask_struct ((t', o) ∷ rows) t st =
        mask_struct rows t
          (if t == t' && not (st o == 0) && (actual t' o == 0 || force) then put o 0 st else st)

    module _ (table : List (ℕ × ℕ)) where
      abbrev pub mask_node : Node → Node
      mask_node n = record n {
        fields = mask_struct table n.s_type n.fields;
        core =
            if n.s_type == features2
            then mask_core_features core_table actual_core n.core
            else n.core;
      }

      -- The structures after a `VkPhysicalDeviceFeatures2` are masked by the recursive call, and
      -- again by the loop.
      unfoldable pub mask_chain : (fuel : ℕ) → List Node → List Node
      mask_chain zero ns = ns
      mask_chain (suc fuel) [] = []
      mask_chain (suc fuel) (n ∷ ns) =
          let once = mask_chain fuel ns in
          let rest = if n.s_type == features2 then once else ns in
          mask_node n ∷ mask_chain fuel rest

      -- The instance and its entry points are found.
      unfoldable pub mask_next_features : List Node → List Node
      mask_next_features ns = mask_chain (length ns) ns
