-- ===== src/Profile/Tests.antt =====
-- src/spoof_profile.cpp: the theorems at a chain of two structures, of which the driver has one
-- feature of the second.
use compat_layer.Prelude.{
  length, arith, ℕ, ◌≡◌, refl, false, List, [], ◌∷◌, All, ◌&&◌, ◌==◌, if◌then◌else◌,
}
use compat_layer.Profile.{
  Struct, Node, features2, mask_core_features, mask_struct, mask_chain, mask_next_features,
  spoof_next_features,
}
use compat_layer.Profile.Fuel.{mask_chain-fuel}
use compat_layer.Profile.Masked.{IsSupported, mask_next_features-IsSupported}
use compat_layer.Profile.Kept.{AllKept, mask_next_features-AllKept}
use compat_layer.Profile.Reported.{IsReported, spoof_next_features-IsReported}

abbrev all_ones : Struct
all_ones o = 1

abbrev actual : ℕ → Struct
actual t o = if t == 5 && o == 16 then 1 else 0

abbrev core_table : List ℕ
core_table = 0 ∷ 8 ∷ []

abbrev table : List (ℕ × ℕ)
table = (5, 16) ∷ (5, 20) ∷ []

abbrev sample : List Node
sample =
    record { s_type = features2; fields = all_ones; core = all_ones }
    ∷ record { s_type = 5; fields = all_ones; core = all_ones }
    ∷ []

abbrev actual_core : Struct
actual_core o = if o == 8 then 1 else 0

abbrev shown : List Node → List (ℕ × ℕ × ℕ × ℕ)
shown [] = []
shown (n ∷ ns) = (n.core 0, n.core 8, n.fields 16, n.fields 20) ∷ shown ns

mask_next_features-sample :
    shown (mask_next_features false core_table actual_core actual table sample)
    ≡ (0, 1, 1, 1) ∷ (1, 1, 1, 0) ∷ []
unfolding mask_next_features mask_chain mask_struct mask_core_features
mask_next_features-sample = refl

mask_next_features-IsSupported_example :
    All
      (IsSupported core_table actual_core actual table)
      (mask_next_features false core_table actual_core actual table sample)
mask_next_features-IsSupported_example =
    mask_next_features-IsSupported false core_table actual_core actual table sample

mask_next_features-AllKept_example :
    AllKept actual_core actual sample
      (mask_next_features false core_table actual_core actual table sample)
mask_next_features-AllKept_example =
    mask_next_features-AllKept core_table actual_core actual table sample

spoof_next_features-IsReported_example : All (IsReported table) (spoof_next_features table sample)
spoof_next_features-IsReported_example = spoof_next_features-IsReported table sample

mask_chain-fuel_example :
    (mask_chain false core_table actual_core actual table 7 sample
      ≡ mask_next_features false core_table actual_core actual table sample)
    × (length (mask_next_features false core_table actual_core actual table sample) ≡ length sample)
mask_chain-fuel_example =
    mask_chain-fuel false core_table actual_core actual table 7 sample (omega arith)
