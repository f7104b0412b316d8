-- ===== src/Allocator/Failing.antt =====
-- src/layer.cpp: `allocate` never reports a success when it fails.
use compat_layer.Prelude.{ℕ, ◌≡◌, false, ◌||◌, ◌==◌, Bool-cases, inl, inr}
use compat_layer.Driver.{Driver, VkResult, is_success}
use compat_layer.Allocator.{
  State, Outcome, allocated, failed, is_exhausted, finish, retry, retire, refill, try_active,
  allocate_active, after_attempt, allocate,
}

abbrev pub IsHonest : Outcome → Type 0
IsHonest (allocated pool set) = Unit {0}
IsHonest (failed r) = is_success r ≡ false

module _ (d : Driver) where
  finish-IsHonest : (r : VkResult × ℕ × State) → IsHonest (finish d r).0
  unfolding finish
  finish-IsHonest (result, set, s) = elim (Bool-cases (is_success result)) [
    | inl e ↦ rw e tt
    | inr e ↦ rw e e
  ]

  retry-IsHonest : (layout : ℕ) (r : VkResult × State) → IsHonest (retry d layout r).0
  unfolding retry
  retry-IsHonest layout (result, s) = elim (Bool-cases (is_success result)) [
    | inl e ↦ rw e (finish-IsHonest (allocate_active d layout s))
    | inr e ↦ rw e e
  ]

  pub allocate-IsHonest : (layout : ℕ) (s : State) → IsHonest (allocate d layout s).0
  unfolding allocate after_attempt
  allocate-IsHonest layout s =
      let (result, set, s') = try_active d layout s in
      elim (Bool-cases (is_exhausted result || s'.active_pool == 0)) [
        | inl e ↦ rw e (retry-IsHonest layout (refill d (retire d s')))
        | inr e ↦ rw e (finish-IsHonest (result, set, s'))
      ]
