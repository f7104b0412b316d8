-- ===== src/Allocator/Reserve.antt =====
-- src/layer.cpp: `maxEmptyPoolsToReserve`. At most two pools stand by with no set allocated.
use mathlib.Core.Option
use compat_layer.Prelude.{
  ℕ, ◌+◌, ◌-◌, ◌%◌, ◌^◌, ◌≤◌, ◌<◌, ◌≡◌, ◌≢◌, inl, inr, true, List, [], ◌∷◌, Option, none, some,
  insert, erase, count, count-erase_first, erase_first, length, ◌==◌, if◌then◌else◌, ◌||◌, arith,
  Bool-cases,
}
use compat_layer.Driver.{Driver, Call, VkResult, is_success}
use compat_layer.Descriptors.Tracking.{Tracking}
use compat_layer.Allocator.{
  State, occupancy_of, trim, give_back, trim_unless_active, free, max_empty_pools_to_reserve,
  drop_pool, is_exhausted, create_new_pool, allocate_active, finish, retire, promote, refill,
  try_active, retry, after_attempt, allocate,
}
use compat_layer.Allocator.Allocate.{
  touch-present, find_vacant-Finds, refill-active, retire-IsValid, refill-IsValid,
  allocate_active-IsValid,
}
use compat_layer.Allocator.Free.{vacant, count_vacant_valid, give_back-IsValid, present-give_back}
use compat_layer.Allocator.Spare.{
  spare, vacant-append, vacant-erase_first, vacant_none, vacant_congr, occupancy_of-insert,
  occupancy_of-erase, vacant-insert, release-insert,
}
use compat_layer.Allocator.Invariant.{IsValid, MakesNewPools, present}

module _ (d : Driver) (live : List ℕ) where
  retire-spare : (s : State) → IsValid d live s → spare (retire d s) ≤ spare s + 1
  unfolding retire
  retire-spare s v =
      ground (arith, vacant-append s.exhausted_pools (s.active_pool ∷ []) s.occupancy)

  pub create_new_pool-spare :
      (s : State) → MakesNewPools d → IsValid d live s → spare (create_new_pool d s).1 ≡ spare s
  unfolding create_new_pool
  create_new_pool-spare s new v =
      let q = d.handle s.history Call.create_descriptor_pool in
      elim (Bool-cases (is_success (d.result s.history Call.create_descriptor_pool))) [
        | inl e ↦
            rw (e, create_new_pool)
              (vacant_congr s.exhausted_pools (insert q 0 s.occupancy) s.occupancy λ p k. ground (
                arith,
                new s.history e,
                v.held q,
                v.owned q,
                occupancy_of-insert q p 0 s.occupancy,
              ))
        | inr e ↦ rw (e, create_new_pool)
      ]

  -- A refill leaves fewer spare pools, or none.
  refill-spare :
      (s : State) → MakesNewPools d → IsValid d live s → spare (refill d s).1 ≤ spare s - 1
  unfolding refill promote
  refill-spare s new v =
      elim (find_vacant-Finds s.exhausted_pools s.occupancy (λ p k. ground (arith, v.held p))) [
        | inl (e, all) ↦ rw e (
            omega
              (arith, create_new_pool-spare s new v, vacant_none s.exhausted_pools s.occupancy all))
        | inr (p, e, k, z) ↦
            rw e (ground (arith, vacant-erase_first p s.exhausted_pools s.occupancy))
      ]

  finish-spare :
      (result : VkResult) (set : ℕ) (s : State)
      → (is_success result ≡ true → s.active_pool ≢ 0)
      → IsValid d live s
      → spare (finish d (result, set, s)).1 ≡ spare s
  unfolding finish
  finish-spare result set s a v =
      let n = (occupancy_of s.active_pool s.occupancy + 1) % 2 ^ 32 in
      elim (Bool-cases (is_success result)) [
        | inl e ↦
            rw (e, finish)
              (vacant_congr s.exhausted_pools (insert s.active_pool n s.occupancy) s.occupancy
                λ p k. ground (
                  arith,
                  a e,
                  v.held s.active_pool,
                  occupancy_of-insert s.active_pool p n s.occupancy,
                ))
        | inr e ↦ rw (e, finish)
      ]

  retry-spare :
      (layout : ℕ) (result : VkResult) (s : State)
      → (is_success result ≡ true → s.active_pool ≢ 0)
      → IsValid d live s
      → spare (retry d layout (result, s)).1 ≡ spare s
  unfolding retry allocate_active
  retry-spare layout result s a v = elim (Bool-cases (is_success result)) [
    | inl e ↦
        rw (e, retry) (finish-spare _ _ _ (λ _. a e) (allocate_active-IsValid d live layout s v))
    | inr e ↦ rw (e, retry)
  ]

  after_attempt-spare :
      (layout : ℕ) (result : VkResult) (set : ℕ) (s : State)
      → MakesNewPools d
      → IsValid d live s
      → spare (after_attempt d layout (result, set, s)).1 ≤ spare s
  unfolding after_attempt
  after_attempt-spare layout result set s new v =
      let (v', a') = retire-IsValid d live s v in
      elim (Bool-cases (is_exhausted result || s.active_pool == 0)) [
        | inl e ↦
            rw (e, after_attempt)
              (omega (
                arith,
                retire-spare s v,
                refill-spare (retire d s) new v',
                retry-spare layout (refill d (retire d s)).0 (refill d (retire d s)).1
                    (refill-active d live (retire d s) new v')
                    (refill-IsValid d live (retire d s) new a' v'),
              ))
        | inr e ↦
            rw (e, after_attempt) (omega (arith, finish-spare result set s (λ _. ground arith) v))
      ]

  -- An allocation never leaves more spare pools than it found, whichever way it goes.
  pub allocate-spare-le :
      (layout : ℕ) (s : State)
      → MakesNewPools d
      → IsValid d live s
      → spare (allocate d layout s).1 ≤ spare s
  unfolding allocate try_active allocate_active
  allocate-spare-le layout s new v = elim (Bool-cases (s.active_pool == 0)) [
    | inl e ↦ rw (e, allocate) (after_attempt-spare layout _ _ s new v)
    | inr e ↦
        rw (e, allocate)
          (after_attempt-spare layout _ _ _ new (allocate_active-IsValid d live layout s v))
  ]

module _ (d : Driver) (live : List ℕ) where
  -- The freed set's pool comes to stand by if that was its last set and the pool is not active.
  give_back-spare :
      (pool set : ℕ) (s : State)
      → 0 < count pool live
      → IsValid d live s
      → spare (give_back pool set s)
        ≡ spare s
          + (if occupancy_of pool (give_back pool set s).occupancy == 0
              then count pool (give_back pool set s).exhausted_pools
              else 0)
  unfolding give_back
  give_back-spare pool set s k v =
      let n = occupancy_of pool s.occupancy in
      ground (
        arith,
        v.counted pool,
        release-insert pool s.occupancy,
        vacant-insert pool (n - 1) s.exhausted_pools s.occupancy,
        occupancy_of-insert pool pool (n - 1) s.occupancy,
      )

  drop_pool-spare :
      (pool : ℕ) (s : State)
      → 0 < count pool s.exhausted_pools
      → occupancy_of pool s.occupancy ≡ 0
      → IsValid d live s
      → spare (drop_pool pool s) + 1 ≡ spare s
  unfolding drop_pool
  drop_pool-spare pool s k z v =
      let ps = erase_first pool s.exhausted_pools in
      omega (
        arith,
        vacant_once,
        vacant_congr ps (erase pool s.occupancy) s.occupancy λ p j. ground (
          arith,
          v.held p,
          count-erase_first p pool s.exhausted_pools,
          occupancy_of-erase pool p s.occupancy,
        ),
      )
    where
      vacant_once : vacant (erase_first pool s.exhausted_pools) s.occupancy + 1 ≡ spare s
      vacant_once = ground (arith, vacant-erase_first pool s.exhausted_pools s.occupancy)

  trim-spare :
      (pool : ℕ) (s s' : State)
      → 0 < count pool s.exhausted_pools
      → occupancy_of pool s.occupancy ≡ 0
      → IsValid d live s
      → spare s ≤ max_empty_pools_to_reserve + 1
      → trim pool s ≡ some s'
      → spare s' ≤ max_empty_pools_to_reserve
  unfolding trim
  trim-spare pool s s' k z v h e =
      ground (arith, count_vacant_valid s v, drop_pool-spare pool s k z v)

  trim_unless_active-spare :
      (pool : ℕ) (s s' : State)
      → IsValid d live s
      → present pool s.occupancy ≡ 1
      → spare s
        ≤ max_empty_pools_to_reserve
          + (if occupancy_of pool s.occupancy == 0 then count pool s.exhausted_pools else 0)
      → trim_unless_active pool s ≡ some s'
      → spare s' ≤ max_empty_pools_to_reserve
  unfolding trim_unless_active
  trim_unless_active-spare pool s s' v k h e =
      ground (arith, touch-present pool s.occupancy k, v.held pool, v.null, trim-spare pool s s')

pub map-eq-some :
    (o : Option State) (u : Tracking) (r : State × Tracking)
    → Option.map (λ s'. (s', u)) o ≡ some r
    → o ≡ some r.0
map-eq-some none u r e = cc
map-eq-some (some x) u r e = ground arith

-- A set that is freed never leaves more than the reserve of two spare pools.
pub free-spare-le :
    (d : Driver) (live : List ℕ) (pool set : ℕ) (s : State) (t : Tracking) (r : State × Tracking)
    → length live < 2 ^ 32
    → 0 < count pool live
    → IsValid d live s
    → spare s ≤ max_empty_pools_to_reserve
    → free pool set (s, t) ≡ some r
    → spare r.0 ≤ max_empty_pools_to_reserve
unfolding free
free-spare-le d live pool set s t r small k v h e =
    trim_unless_active-spare d (erase_first pool live) pool (give_back pool set s) r.0
      (give_back-IsValid d live pool set s small k v) (present-give_back d live pool set s k v)
      (omega (arith, give_back-spare d live pool set s k v))
      (map-eq-some (trim_unless_active pool (give_back pool set s)) _ r e)
