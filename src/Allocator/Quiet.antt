-- ===== src/Allocator/Quiet.antt =====
-- src/layer.cpp: what freeing a set of a pool leaves as it is in the driver, and of the layouts.
use compat_layer.Prelude.{
  ℕ, ◌≡◌, refl, ◌∙◌, List, [], ◌∷◌, Option, none, some, ◌==◌, ltb, if◌then◌else◌, Bool-cases,
  Option-cases, inl, inr, find, find-erase,
}
use compat_layer.Driver.{History, Call}
use compat_layer.Descriptors.Tracking.{Tracking, untrack_descriptor_sets, erase_all}
use compat_layer.Allocator.{
  State, free, trim_unless_active, give_back, trim, drop_pool, touch, occupancy_of, count_vacant,
  max_empty_pools_to_reserve,
}

-- What holds of the answer, if there is one
abbrev pub OnSome {ℓ} : {A : Type ℓ} → Option A → (A → Type 0) → Type 0
OnSome none P = Unit
OnSome (some a) P = P a

-- A view of the calls that does not see the end of a descriptor pool or of descriptor sets
module _ {A : Type 0} (view : History → A)
    (ignores : (pool : ℕ) (h : History) → view (Call.destroy_descriptor_pool pool ∷ h) ≡ view h)
    (ignores_free : (pool : ℕ) (sets : List ℕ) (h : History)
      → view (Call.free_descriptor_sets pool sets ∷ h) ≡ view h) where
  abbrev Quiet : State → State → Type 0
  Quiet s s' = view s'.history ≡ view s.history

  drop_pool-Quiet :
      (n pool : ℕ) (s : State)
      → Quiet s (if ltb max_empty_pools_to_reserve n then drop_pool pool s else s)
  unfolding drop_pool
  drop_pool-Quiet n pool s = elim (Bool-cases (ltb max_empty_pools_to_reserve n)) [
    | inl e ↦ rw e (ignores pool s.history)
    | inr e ↦ rw e refl
  ]

  trim-Quiet : (pool : ℕ) (s : State) → OnSome (trim pool s) (Quiet s)
  unfolding trim
  trim-Quiet pool s = elim (Option-cases (count_vacant s.exhausted_pools s.occupancy)) [
    | inl e ↦ rw e tt
    | inr (n, e) ↦ rw e (drop_pool-Quiet n pool s)
  ]

  trim_unless_active-Quiet : (pool : ℕ) (s : State) → OnSome (trim_unless_active pool s) (Quiet s)
  unfolding trim_unless_active
  trim_unless_active-Quiet pool s = elim (Bool-cases (pool == s.active_pool)) [
    | inl e ↦ rw e refl
    | inr e ↦ elim (Bool-cases (occupancy_of pool (touch pool s.occupancy) == 0)) [
      | inl q ↦ rw (e, q) (trim-Quiet pool _)
      | inr q ↦ rw (e, q) refl
    ]
  ]

  pub free-Quiet :
      (pool set : ℕ) (s : State) (t : Tracking) → OnSome (free pool set (s, t)) (λ r. Quiet s r.0)
  unfolding free give_back
  free-Quiet pool set s t = elim (Option-cases (trim_unless_active pool (give_back pool set s))) [
    | inl e ↦ rw e tt
    | inr (s', e) ↦ rw e (
        rw e at (trim_unless_active-Quiet pool (give_back pool set s))
        ∙ ignores_free pool (set ∷ []) s.history)
  ]

-- The set's layout is forgotten.
pub free-sets :
    (pool set x : ℕ) (s : State) (t : Tracking)
    → OnSome
        (free pool set (s, t))
        (λ r. find x r.1.sets ≡ (if set == x then none else find x t.sets))
unfolding free untrack_descriptor_sets erase_all
free-sets pool set x s t = elim (Option-cases (trim_unless_active pool (give_back pool set s))) [
  | inl e ↦ rw e tt
  | inr (s', e) ↦ rw e (find-erase set x t.sets)
]
