-- ===== src/Prelude/Maps.antt =====
-- `std::unordered_map` with handles for keys, as an association list. `erase` drops every entry
-- of the key, so that the laws have no side condition.
use Prim.Native.Nat.{ℕ}
use mathlib.Core.Path.{◌≡◌, refl, sym, ◌∙◌, subst}
use mathlib.Core.Logic.{◌⊎◌, inl, inr}
use mathlib.Core.Bool.{Bool, true, false}
use mathlib.Core.List.{List, [], ◌∷◌}
use mathlib.Core.Option.{Option, none, some, some-injective}
use native.Mathlib.Omega.{arith}
use compat_layer.Prelude.Tests.{Bool-cases, ◌==◌, if◌then◌else◌}

abbrev pub Dict {ℓ} : Type ℓ → Type ℓ
Dict V = List (ℕ × V)

module _ {ℓ} {V : Type ℓ} where
  -- `m.find(k)`
  unfoldable pub find : ℕ → Dict V → Option V
  find k [] = none
  find k (e ∷ m) = if e.0 == k then some e.1 else find k m

  -- `m[k] = v`
  unfoldable pub insert : ℕ → V → Dict V → Dict V
  insert k v [] = (k, v) ∷ []
  insert k v (e ∷ m) = if e.0 == k then (k, v) ∷ m else e ∷ insert k v m

  -- `m.erase(k)`
  unfoldable pub erase : ℕ → Dict V → Dict V
  erase k [] = []
  erase k (e ∷ m) = let rest = erase k m in if e.0 == k then rest else e ∷ rest

  -- Whether the key is there.
  abbrev pub holds : ℕ → Dict V → ℕ
  holds k m = elim (find k m) [ none ↦ 0 | some _ ↦ 1 ]

  pub find-insert :
      (k j : ℕ) (v : V) (m : Dict V) → find j (insert k v m) ≡ (if k == j then some v else find j m)
  unfolding find insert
  find-insert k j v [] = refl
  find-insert k j v (e ∷ m) = ground (arith, find-insert k j v m)

  pub find-insert_self : (k : ℕ) (v : V) (m : Dict V) → find k (insert k v m) ≡ some v
  find-insert_self k v m = ground (arith, find-insert k k v m)

  pub find-insert_if :
      (k j : ℕ) (v : V) (m : Dict V) (b : Bool)
      → (k == j) ≡ b
      → find j (insert k v m) ≡ (if b then some v else find j m)
  find-insert_if k j v m b e =
      subst (λ b. find j (insert k v m) ≡ (if b then some v else find j m)) e (find-insert k j v m)

  pub found-insert :
      (k j : ℕ) (v w : V) (m : Dict V)
      → find j (insert k v m) ≡ some w
      → (w ≡ v) ⊎ (find j m ≡ some w)
  found-insert k j v w m h = elim (Bool-cases (k == j)) [
    | inl e ↦ inl (sym (some-injective v w (sym (find-insert_if k j v m true e) ∙ h)))
    | inr e ↦ inr (sym (find-insert_if k j v m false e) ∙ h)
  ]

  pub find-erase : (k j : ℕ) (m : Dict V) → find j (erase k m) ≡ (if k == j then none else find j m)
  unfolding find erase
  find-erase k j [] = ground arith
  find-erase k j (e ∷ m) = ground (arith, find-erase k j m)

  pub find-erase_if :
      (k j : ℕ) (m : Dict V) (b : Bool)
      → (k == j) ≡ b
      → find j (erase k m) ≡ (if b then none else find j m)
  find-erase_if k j m b e =
      subst (λ b. find j (erase k m) ≡ (if b then none else find j m)) e (find-erase k j m)

  pub find-erase-insert :
      (k j : ℕ) (v : V) (m : Dict V) → find k m ≡ none → find j (erase k (insert k v m)) ≡ find j m
  find-erase-insert k j v m n = ground (arith, find-erase k j (insert k v m), find-insert k j v m)

  pub holds-none : (k : ℕ) (m : Dict V) → holds k m ≡ 0 → find k m ≡ none
  holds-none k m h = ground (arith, h)

  -- No key stands twice.
  abbrev pub Distinct : Dict V → Type ℓ
  Distinct [] = Unit
  Distinct (e ∷ m) = (find e.0 m ≡ none) × Distinct m

  pub insert-Distinct : (k : ℕ) (v : V) (m : Dict V) → Distinct m → Distinct (insert k v m)
  unfolding find insert
  insert-Distinct k v [] d = (refl, tt)
  insert-Distinct k v (e ∷ m) d = ground (arith, insert-Distinct k v m d.1, find-insert k e.0 v m)

  pub erase-Distinct : (k : ℕ) (m : Dict V) → Distinct m → Distinct (erase k m)
  unfolding find erase
  erase-Distinct k [] d = tt
  erase-Distinct k (e ∷ m) d = ground (arith, erase-Distinct k m d.1, find-erase k e.0 m)
