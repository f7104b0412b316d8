-- ===== src/Extensions/Enabled.antt =====
-- src/layer.cpp: the extensions that `CreateDevice` asks the driver for.
use compat_layer.Prelude.{
  ℕ, ◌≡◌, refl, sym, ap, ◌∙◌, Bool, true, not, ◌&&◌, ◌||◌, List, [], ◌∷◌, ◌++◌, ◌==◌, Bool-cases,
  inl, inr, arith, false, Option, none, some, length,
}
use compat_layer.Extensions.{has_name, keep_supported, add_name, Additions, enabled_extensions}

pub has_name-append :
    (p : ℕ) (xs ys : List ℕ) → has_name p (xs ++ ys) ≡ (has_name p xs || has_name p ys)
unfolding has_name
has_name-append p [] ys = refl
has_name-append p (x ∷ xs) ys = ground (arith, has_name-append p xs ys)

pub same_name : (p q : ℕ) (xs : List ℕ) → (q == p) ≡ true → has_name q xs ≡ has_name p xs
same_name p q xs e = let same : q ≡ p = ground (arith, e) in ap (λ x. has_name x xs) same

has_name-keep_supported :
    (p : ℕ) (actual spoofed requested : List ℕ)
    → has_name p (keep_supported actual spoofed requested)
      ≡ (has_name p requested && not (has_name p spoofed && not (has_name p actual)))
unfolding has_name keep_supported
has_name-keep_supported p actual spoofed [] = refl
has_name-keep_supported p actual spoofed (x ∷ xs) =
    let ih = has_name-keep_supported p actual spoofed xs in
    elim (Bool-cases (x == p)) [
      | inl e ↦ ground (arith, ih, e, same_name p x actual e, same_name p x spoofed e)
      | inr e ↦ ground (arith, ih, e)
    ]

has_name-add_name :
    (p q : ℕ) (wanted : Bool) (ps : List ℕ)
    → has_name p (add_name wanted q ps) ≡ (has_name p ps || wanted && q == p)
unfolding add_name has_name
has_name-add_name p q wanted ps = elim (Bool-cases (q == p)) [
  | inl e ↦ ground (arith, e, same_name p q ps e, has_name-append p ps (q ∷ []))
  | inr e ↦ ground (arith, e, has_name-append p ps (q ∷ []))
]

only_supported :
    (r s a x y : Bool)
    → (r ≡ true → (a || s) ≡ true)
    → (x ≡ true → a ≡ true)
    → (y ≡ true → a ≡ true)
    → (((r && not (s && not a)) || x) || y) ≡ (a && (r || x || y))
only_supported r s a x y h f g = ground (arith, h, f, g)

added-supported :
    (p q : ℕ) (wanted : Bool) (actual : List ℕ)
    → (wanted ≡ true → has_name q actual ≡ true)
    → (wanted && q == p) ≡ true
    → has_name p actual ≡ true
added-supported p q wanted actual h e =
    let asked : wanted ≡ true = ground (arith, e) in
    let here : (q == p) ≡ true = ground (arith, e) in sym (same_name p q actual here) ∙ h asked

-- If the application enables what the layer lists, and what the layer adds is supported, then the
-- driver is asked for just the extensions that it supports and that the application or the layer
-- wants.
pub enabled_extensions-supported :
    (a : Additions) (actual spoofed requested : List ℕ) (p : ℕ)
    → (has_name p requested ≡ true → (has_name p actual || has_name p spoofed) ≡ true)
    → (a.has_fault_support ≡ true → has_name a.device_fault actual ≡ true)
    → (a.wants_robustness ≡ true → has_name a.image_robustness actual ≡ true)
    → has_name p (enabled_extensions a actual spoofed requested) ≡ (
        has_name p actual
        && (has_name p requested
            || a.has_fault_support && a.device_fault == p
            || a.wants_robustness && a.image_robustness == p))
unfolding enabled_extensions
enabled_extensions-supported a actual spoofed requested p listed fault robust =
    let kept = keep_supported actual spoofed requested in
    let with_fault = add_name a.has_fault_support a.device_fault kept in
    has_name-add_name p a.image_robustness a.wants_robustness with_fault
    ∙ ap (λ b. b || a.wants_robustness && a.image_robustness == p)
        (has_name-add_name p a.device_fault a.has_fault_support kept)
    ∙ ap
        (λ b.
          (b || a.has_fault_support && a.device_fault == p)
          || a.wants_robustness && a.image_robustness == p)
        (has_name-keep_supported p actual spoofed requested)
    ∙ only_supported (has_name p requested) (has_name p spoofed) (has_name p actual)
        (a.has_fault_support && a.device_fault == p) (a.wants_robustness && a.image_robustness == p)
        listed (added-supported p a.device_fault a.has_fault_support actual fault)
        (added-supported p a.image_robustness a.wants_robustness actual robust)

-- The outcome of the append after the names were stored
pub data Reads (a : Additions) (capacity : ℕ) (stored : List ℕ) : Option (List ℕ) → Type 0 where
  whole : Reads a capacity stored (some stored)
  freed :
      a.aliases_indexing ≡ true
      → has_name a.descriptor_indexing stored ≡ false
      → capacity ≡ length stored
      → Reads a capacity stored none
