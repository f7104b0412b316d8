-- ===== src/Extensions.antt =====
-- src/spoof_profile.cpp and src/layer.cpp: the device extensions that the layer lists, and those
-- that it creates a device with. Names are told apart by numbers, and each fits the 255 bytes of
-- `extensionName`. The set of the driver's extensions, which is read once for each physical
-- device, and the table of `src/generated_spoofed_profile.hpp` are arguments.
pub mod Listed
pub mod Enabled
mod Tests
use compat_layer.Prelude.{
  ℕ, ◌+◌, Bool, true, false, not, ◌&&◌, ◌||◌, List, [], ◌∷◌, ◌++◌, Option, none, some, map, length,
  take, ltb, ◌==◌, if◌then◌else◌,
}
use compat_layer.Driver.{VkResult, is_success}

-- `VkExtensionProperties`
pub record Extension : Type 0 where
  pub name : ℕ
  pub spec_version : ℕ

unfoldable pub has_name : ℕ → List ℕ → Bool
has_name p [] = false
has_name p (x ∷ xs) = x == p || has_name p xs

abbrev pub names : List Extension → List ℕ
names = map (λ e. e.name)

-- One round of the loop over the table
unfoldable pub add_spoofed : (actual : List ℕ) → Extension → List Extension → List Extension
add_spoofed actual e result =
    if has_name e.name actual || has_name e.name (names result) then result else result ++ e ∷ []

unfoldable pub add_each_spoofed :
    (actual : List ℕ) → List Extension → List Extension → List Extension
add_each_spoofed actual [] result = result
add_each_spoofed actual (e ∷ table) result =
    add_each_spoofed actual table (add_spoofed actual e result)

abbrev pub get_unsupported_spoofed_extensions :
    (actual : List ℕ) → (table : List Extension) → List Extension
get_unsupported_spoofed_extensions actual table = add_each_spoofed actual table []

-- The driver's answers: to a call without properties, and to one with room for as many as that
-- counted, with the entries of the vector after it
pub record Lister : Type 0 where
  pub count : VkResult × ℕ
  pub fill : ℕ → VkResult × List Extension

-- The result, and what is written to the count and to the properties; `none` is left as it was.
pub record Listing : Type 0 where
  pub result : VkResult
  pub count : Option ℕ
  pub properties : List Extension

abbrev pub only : VkResult → Listing
only r = record { result = r; count = none; properties = [] }

unfoldable pub is_incomplete : VkResult → Bool
is_incomplete VkResult.incomplete = true
is_incomplete _ = false

-- Without properties the two counts are added.
unfoldable pub count_extensions : Lister → (spoofed : List Extension) → Listing
count_extensions l spoofed =
    let (result, n) = l.count in
    if is_success result
    then record { result = result; count = some (n + length spoofed); properties = [] }
    else only result

-- What fits into the caller's array
unfoldable pub copy_extensions : (capacity : ℕ) → (combined : List Extension) → Listing
copy_extensions capacity combined =
    if ltb capacity (length combined)
    then record {
      result = VkResult.incomplete;
      count = some capacity;
      properties = take capacity combined;
    }
    else record { result = VkResult.success; count = some (length combined); properties = combined }

unfoldable pub list_extensions : Lister → (spoofed : List Extension) → (capacity : ℕ) → Listing
list_extensions l spoofed capacity =
    let (counted, n) = l.count in
    let (filled, actual) = l.fill n in
    if capacity == 0
    then only VkResult.success
    else if not (is_success counted)
    then only counted
    else if is_success filled || is_incomplete filled
    then copy_extensions capacity (actual ++ spoofed)
    else only filled

-- For the device's own extensions; those of a layer are the driver's to list.
unfoldable pub enumerate_device_extension_properties :
    Lister → (actual : List ℕ) → (table : List Extension) → (capacity : Option ℕ) → Listing
enumerate_device_extension_properties l actual table none =
    count_extensions l (get_unsupported_spoofed_extensions actual table)
enumerate_device_extension_properties l actual table (some capacity) =
    list_extensions l (get_unsupported_spoofed_extensions actual table) capacity

-- The loop of `CreateDevice` over the names that the application enables
unfoldable pub keep_supported : (actual spoofed : List ℕ) → List ℕ → List ℕ
keep_supported actual spoofed [] = []
keep_supported actual spoofed (p ∷ ps) =
    let rest = keep_supported actual spoofed ps in
    if has_name p spoofed && not (has_name p actual) then rest else p ∷ rest

unfoldable pub add_name : (wanted : Bool) → (name : ℕ) → List ℕ → List ℕ
add_name wanted p ps = if wanted && not (has_name p ps) then ps ++ p ∷ [] else ps

-- The names that the layer adds of itself, and whether it wants to
pub record Additions : Type 0 where
  pub device_fault : ℕ
  pub has_fault_support : Bool
  pub image_robustness : ℕ
  pub wants_robustness : Bool
  pub descriptor_indexing : ℕ
  pub aliases_indexing : Bool

-- The names in the vector when its address and their number are stored in `createInfo`
unfoldable pub enabled_extensions :
    Additions → (actual spoofed : List ℕ) → (requested : List ℕ) → List ℕ
enabled_extensions a actual spoofed requested =
    add_name a.wants_robustness a.image_robustness
      (add_name a.has_fault_support a.device_fault (keep_supported actual spoofed requested))

-- What the driver reads through `createInfo`. A name is appended after that; where the storage, for
-- `capacity` names, has no room for it, the vector moves and `createInfo` points to what is freed:
-- `none`.
unfoldable pub sent_extensions :
    Additions → (capacity : ℕ) → (actual spoofed : List ℕ) → (requested : List ℕ) → Option (List ℕ)
sent_extensions a capacity actual spoofed requested =
    let stored = enabled_extensions a actual spoofed requested in
    let appended = add_name a.aliases_indexing a.descriptor_indexing stored in
    if ltb capacity (length appended) then none else some (take (length stored) appended)
