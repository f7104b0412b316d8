-- ===== src/Extensions/Tests.antt =====
-- src/spoof_profile.cpp and src/layer.cpp: a driver with two extensions and a table of two, of
-- which one is new, and the theorems at them.
use compat_layer.Prelude.{
  ℕ, ◌≡◌, refl, true, false, ◌||◌, ◌++◌, List, [], ◌∷◌, none, some, length, take, ltb,
  if◌then◌else◌, arith,
}
use compat_layer.Driver.{VkResult}
use compat_layer.Extensions.{
  Extension, Lister, Additions, has_name, names, get_unsupported_spoofed_extensions,
  enumerate_device_extension_properties, enabled_extensions,
}
use compat_layer.Extensions.Listed.{AreOnce, enumerate-AreOnce}

abbrev mine : List Extension
mine = record { name = 1; spec_version = 1 } ∷ record { name = 2; spec_version = 3 } ∷ []

abbrev table : List Extension
table = record { name = 2; spec_version = 1 } ∷ record { name = 5; spec_version = 1 } ∷ []

abbrev lister : Lister
lister = record { count = (VkResult.success, 2); fill = λ n. (VkResult.success, mine) }

mine-AreOnce : AreOnce (names mine)
unfolding has_name
mine-AreOnce = (refl, (refl, tt))

enumerate-AreOnce_example :
    let all = mine ++ get_unsupported_spoofed_extensions (2 ∷ 1 ∷ []) table in
    (enumerate_device_extension_properties lister (2 ∷ 1 ∷ []) table none
      ≡ record { result = VkResult.success; count = some (length all); properties = [] })
    × (enumerate_device_extension_properties lister (2 ∷ 1 ∷ []) table (some 2) ≡ record {
      result = if ltb 2 (length all) then VkResult.incomplete else VkResult.success;
      count = some (if ltb 2 (length all) then 2 else length all);
      properties = take 2 all;
    })
    × AreOnce (names all)
    × ((p : ℕ) → has_name p (names all) ≡ (has_name p (names mine) || has_name p (names table)))
unfolding has_name
enumerate-AreOnce_example =
    enumerate-AreOnce lister mine (2 ∷ 1 ∷ []) table 2 refl refl (λ p. ground arith) mine-AreOnce
      refl

abbrev additions : Additions
additions = record {
  device_fault = 1;
  has_fault_support = true;
  image_robustness = 7;
  wants_robustness = false;
  descriptor_indexing = 8;
  aliases_indexing = true;
}

abbrev enabled : List ℕ
enabled = enabled_extensions additions (2 ∷ 1 ∷ []) (2 ∷ 5 ∷ []) (2 ∷ 5 ∷ [])
