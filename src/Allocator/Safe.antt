-- ===== src/Allocator/Safe.antt =====
-- src/layer.cpp: the allocator never pulls a pool away from under a set that is in use.
use compat_layer.Prelude.{
  ℕ, ◌≡◌, ◌<◌, ◌⊎◌, ◌^◌, inl, inr, List, [], ◌∷◌, some, count, length, erase_first, ◌==◌, ◌||◌,
  Bool-cases, arith,
}
use compat_layer.Driver.{Driver, History, Call, VkResult, is_success}
use compat_layer.Descriptors.Tracking.{Tracking}
use compat_layer.Allocator.{
  State, trim, give_back, trim_unless_active, free, drop_pool, is_exhausted, create_new_pool,
  allocate_active, finish, retire, promote, refill, try_active, retry, after_attempt, allocate,
}
use compat_layer.Allocator.Allocate.{
  find_vacant-Finds, touch-present, retire-IsValid, allocate_active-IsValid,
}
use compat_layer.Allocator.Free.{count_vacant_valid, give_back-IsValid, present-give_back}
use compat_layer.Allocator.Reserve.{map-eq-some}
use compat_layer.Allocator.Invariant.{IsValid, present}

-- Resetting or destroying a pool frees all its sets, so that pool has none in use.
abbrev pub Spares : List ℕ → Call → Type 0
Spares live (Call.reset_descriptor_pool p) = count p live ≡ 0
Spares live (Call.destroy_descriptor_pool p) = count p live ≡ 0
Spares live c = Unit {0}

-- The second history is the first with calls added that spare the sets in use.
pub data Extends (live : List ℕ) (h : History) : History → Type 0 where
  same : Extends live h h
  more : {h' : History} (c : Call) → Spares live c → Extends live h h' → Extends live h (c ∷ h')

module _ (d : Driver) (live : List ℕ) (h : History) where
  refill-Extends :
      (s : State)
      → IsValid d live s
      → Extends live h s.history
      → Extends live h (refill d s).1.history
  unfolding refill promote create_new_pool
  refill-Extends s v x =
      elim (find_vacant-Finds s.exhausted_pools s.occupancy (λ p k. ground (arith, v.held p))) [
        | inl (e, _) ↦
            rw e (elim (Bool-cases (is_success (d.result s.history Call.create_descriptor_pool))) [
              | inl e' ↦ rw (e', create_new_pool) (more Call.create_descriptor_pool tt x)
              | inr e' ↦ rw (e', create_new_pool) (more Call.create_descriptor_pool tt x)
            ])
        | inr (p, e, k, z) ↦
            rw e (more (Call.reset_descriptor_pool p) (ground (arith, v.counted p)) x)
      ]

  finish-Extends :
      (r : VkResult) (set : ℕ) (s : State)
      → Extends live h s.history
      → Extends live h (finish d (r, set, s)).1.history
  unfolding finish
  finish-Extends r set s x = elim (Bool-cases (is_success r)) [
    | inl e ↦ rw (e, finish) x
    | inr e ↦ rw (e, finish) x
  ]

  retry-Extends :
      (layout : ℕ) (r : VkResult) (s : State)
      → Extends live h s.history
      → Extends live h (retry d layout (r, s)).1.history
  unfolding retry allocate_active
  retry-Extends layout r s x = elim (Bool-cases (is_success r)) [
    | inl e ↦ rw (e, retry) (finish-Extends _ _ _ (more _ tt x))
    | inr e ↦ rw (e, retry) x
  ]

  retire-Extends : (s : State) → Extends live h s.history → Extends live h (retire d s).history
  unfolding retire
  retire-Extends s x = elim (Bool-cases (s.active_pool == 0)) [
    | inl e ↦ rw (e, retire) x
    | inr e ↦ rw (e, retire) x
  ]

  after_attempt-Extends :
      (layout : ℕ) (r : VkResult) (set : ℕ) (s : State)
      → IsValid d live s
      → Extends live h s.history
      → Extends live h (after_attempt d layout (r, set, s)).1.history
  unfolding after_attempt
  after_attempt-Extends layout r set s v x =
      elim (Bool-cases (is_exhausted r || s.active_pool == 0)) [
        | inl e ↦
            rw (e, after_attempt)
              (retry-Extends layout _ _
                (refill-Extends (retire d s) (retire-IsValid d live s v).0 (retire-Extends s x)))
        | inr e ↦ rw (e, after_attempt) (finish-Extends r set s x)
      ]

module _ (d : Driver) (live : List ℕ) where
  -- An allocation resets only a pool that has no set in use, and destroys none that has.
  pub allocate-Extends :
      (layout : ℕ) (s : State)
      → IsValid d live s
      → Extends live s.history (allocate d layout s).1.history
  unfolding allocate try_active allocate_active
  allocate-Extends layout s v = elim (Bool-cases (s.active_pool == 0)) [
    | inl e ↦ rw (e, allocate) (after_attempt-Extends d live s.history layout _ _ s v same)
    | inr e ↦
        rw (e, allocate)
          (after_attempt-Extends d live s.history layout _ _ _
            (allocate_active-IsValid d live layout s v) (more _ tt same))
  ]

  trim_cases :
      (pool : ℕ) (s s' : State)
      → IsValid d live s
      → present pool s.occupancy ≡ 1
      → trim_unless_active pool s ≡ some s'
      → (s' ≡ s) ⊎ ((s' ≡ drop_pool pool s) × (count pool live ≡ 0))
  unfolding trim_unless_active trim
  trim_cases pool s s' v k e =
      ground (arith, touch-present pool s.occupancy k, count_vacant_valid s v, v.counted pool)

  trim_unless_active-Extends :
      (pool : ℕ) (s s' : State) {h : History}
      → IsValid d live s
      → present pool s.occupancy ≡ 1
      → trim_unless_active pool s ≡ some s'
      → Extends live h s.history
      → Extends live h s'.history
  unfolding drop_pool
  trim_unless_active-Extends pool s s' v k e x = elim (trim_cases pool s s' v k e) [
    | inl q ↦ rw q x
    | inr (q, z) ↦ rw q (more (Call.destroy_descriptor_pool pool) z x)
  ]

-- Freeing a set destroys a pool only when no other set of that pool is in use.
pub free-Extends :
    (d : Driver) (live : List ℕ) (pool set : ℕ) (s : State) (t : Tracking) (r : State × Tracking)
    → length live < 2 ^ 32
    → 0 < count pool live
    → IsValid d live s
    → free pool set (s, t) ≡ some r
    → Extends (erase_first pool live) s.history r.0.history
unfolding free give_back
free-Extends d live pool set s t r small k v e =
    trim_unless_active-Extends d (erase_first pool live) pool (give_back pool set s) r.0
      (give_back-IsValid d live pool set s small k v) (present-give_back d live pool set s k v)
      (map-eq-some (trim_unless_active pool (give_back pool set s)) _ r e)
      (more (Call.free_descriptor_sets pool (set ∷ [])) tt same)
