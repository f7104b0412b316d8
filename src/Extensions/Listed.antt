-- ===== src/Extensions/Listed.antt =====
-- src/spoof_profile.cpp and src/layer.cpp: the extensions that the layer lists.
use compat_layer.Prelude.{
  ℕ, zero, suc, ◌≡◌, refl, sym, ap, subst, ◌∙◌, false, ◌||◌, List, [], ◌∷◌, ◌++◌, none, some,
  length, length-append, take, ltb, ◌==◌, if◌then◌else◌, Bool-cases, inl, inr, arith,
}
use compat_layer.Driver.{VkResult}
use compat_layer.Extensions.{
  Extension, Lister, has_name, names, add_spoofed, add_each_spoofed,
  get_unsupported_spoofed_extensions, count_extensions, copy_extensions, list_extensions,
  enumerate_device_extension_properties,
}
use compat_layer.Extensions.Enabled.{has_name-append, same_name}

names-append : (xs ys : List Extension) → names (xs ++ ys) ≡ names xs ++ names ys
names-append [] ys = refl
names-append (x ∷ xs) ys = ap (λ zs. x.name ∷ zs) (names-append xs ys)

module _ (p : ℕ) (actual : List ℕ) where
  has_name-add_spoofed :
      (e : Extension) (result : List Extension)
      → (has_name p (names (add_spoofed actual e result)) || has_name p actual)
        ≡ (has_name p (names result) || e.name == p || has_name p actual)
  unfolding add_spoofed has_name
  has_name-add_spoofed e result =
      let longer =
        ap (has_name p) (names-append result (e ∷ []))
        ∙ has_name-append p (names result) (e.name ∷ []) in
      elim (Bool-cases (e.name == p)) [
        | inl k ↦
            ground
              (arith, k, longer, same_name p e.name actual k, same_name p e.name (names result) k)
        | inr k ↦ ground (arith, k, longer)
      ]

  has_name-add_each_spoofed :
      (table result : List Extension)
      → (has_name p (names (add_each_spoofed actual table result)) || has_name p actual)
        ≡ (has_name p (names result) || has_name p (names table) || has_name p actual)
  unfolding add_each_spoofed has_name
  has_name-add_each_spoofed [] result = ground arith
  has_name-add_each_spoofed (e ∷ table) result = ground (
    arith,
    has_name-add_each_spoofed table (add_spoofed actual e result),
    has_name-add_spoofed e result,
  )

-- No name stands twice.
abbrev pub AreOnce : List ℕ → Type 0
AreOnce [] = Unit
AreOnce (x ∷ xs) = (has_name x xs ≡ false) × AreOnce xs

append-AreOnce : (xs : List ℕ) (q : ℕ) → AreOnce xs → has_name q xs ≡ false → AreOnce (xs ++ q ∷ [])
unfolding has_name
append-AreOnce [] q o h = (refl, tt)
append-AreOnce (x ∷ xs) q (new, o) h = (
  has_name-append x xs (q ∷ []) ∙ ground (arith, new, h),
  append-AreOnce xs q o (ground (arith, h)),
)

append_assoc : (xs ys zs : List ℕ) → (xs ++ ys) ++ zs ≡ xs ++ (ys ++ zs)
append_assoc [] ys zs = refl
append_assoc (x ∷ xs) ys zs = ap (λ t. x ∷ t) (append_assoc xs ys zs)

append_nil : (xs : List ℕ) → xs ≡ xs ++ []
append_nil [] = refl
append_nil (x ∷ xs) = ap (λ t. x ∷ t) (append_nil xs)

module _ (actual base : List ℕ) (same : (p : ℕ) → has_name p actual ≡ has_name p base) where
  add_spoofed-AreOnce :
      (e : Extension) (result : List Extension)
      → AreOnce (base ++ names result)
      → AreOnce (base ++ names (add_spoofed actual e result))
  unfolding add_spoofed
  add_spoofed-AreOnce e result o =
      elim (Bool-cases (has_name e.name actual || has_name e.name (names result))) [
        | inl k ↦ rw k o
        | inr k ↦
            let new : has_name e.name (base ++ names result) ≡ false =
              has_name-append e.name base (names result)
              ∙ ap (λ b. b || has_name e.name (names result)) (sym (same e.name))
              ∙ k in
            rw (k, names-append result (e ∷ []))
              (rw⁻¹ (append_assoc base (names result) (e.name ∷ []))
                (append-AreOnce (base ++ names result) e.name o new))
      ]

  add_each_spoofed-AreOnce :
      (table result : List Extension)
      → AreOnce (base ++ names result)
      → AreOnce (base ++ names (add_each_spoofed actual table result))
  unfolding add_each_spoofed
  add_each_spoofed-AreOnce [] result o = o
  add_each_spoofed-AreOnce (e ∷ table) result o =
      add_each_spoofed-AreOnce table (add_spoofed actual e result) (add_spoofed-AreOnce e result o)

take-all : (n : ℕ) (xs : List Extension) → ltb n (length xs) ≡ false → take n xs ≡ xs
take-all zero [] h = refl
take-all (suc n) [] h = refl
take-all zero (x ∷ xs) h = ground (arith, h)
take-all (suc n) (x ∷ xs) h = ap (λ t. x ∷ t) (take-all n xs (ground (arith, h)))

copy_extensions-take :
    (c : ℕ) (all : List Extension)
    → copy_extensions c all ≡ record {
      result = if ltb c (length all) then VkResult.incomplete else VkResult.success;
      count = some (if ltb c (length all) then c else length all);
      properties = take c all;
    }
unfolding copy_extensions
copy_extensions-take c all = elim (Bool-cases (ltb c (length all))) [
  | inl e ↦ rw e refl
  | inr e ↦ rw (e, take-all c all e) refl
]

-- When the driver answers the same to its two calls, the call without properties gives the number
-- of all extensions, and a call with room for at least one gives as many as fit, with `VK_INCOMPLETE` if
-- that is not all. The list has each extension of the driver and of the table once.
pub enumerate-AreOnce :
    (l : Lister) (mine : List Extension) (actual : List ℕ) (table : List Extension) (c : ℕ)
    → l.count ≡ (VkResult.success, length mine)
    → l.fill (length mine) ≡ (VkResult.success, mine)
    → ((p : ℕ) → has_name p actual ≡ has_name p (names mine))
    → AreOnce (names mine)
    → (c == 0) ≡ false
    → let all = mine ++ get_unsupported_spoofed_extensions actual table in
      (enumerate_device_extension_properties l actual table none
        ≡ record { result = VkResult.success; count = some (length all); properties = [] })
      × (enumerate_device_extension_properties l actual table (some c) ≡ record {
        result = if ltb c (length all) then VkResult.incomplete else VkResult.success;
        count = some (if ltb c (length all) then c else length all);
        properties = take c all;
      })
      × AreOnce (names all)
      × ((p : ℕ) → has_name p (names all) ≡ (has_name p (names mine) || has_name p (names table)))
unfolding enumerate_device_extension_properties count_extensions list_extensions has_name
enumerate-AreOnce l mine actual table c counted filled same once some_room =
    let spoofed = get_unsupported_spoofed_extensions actual table in
    let all = mine ++ spoofed in
    (
      rw (counted, count_extensions)
          (ap (λ k. record { result = VkResult.success; count = some k; properties = [] })
            (sym (length-append mine spoofed))),
      rw (counted, some_room, list_extensions) (rw filled (copy_extensions-take c all)),
      rw (names-append mine spoofed) (
          add_each_spoofed-AreOnce actual (names mine) same table []
            (subst AreOnce (append_nil (names mine)) once)),
      λ p.
          ap (has_name p) (names-append mine spoofed)
          ∙ has_name-append p (names mine) (names spoofed)
          ∙ ground (arith, same p, has_name-add_each_spoofed p actual table []),
    )
