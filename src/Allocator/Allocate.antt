-- ===== src/Allocator/Allocate.antt =====
-- src/layer.cpp: `DescriptorSetAllocator::allocate` keeps the fields in step.
use compat_layer.Prelude.{
  ℕ, ◌+◌, ◌%◌, ◌^◌, ◌<◌, ◌≡◌, ◌≢◌, refl, ◌⊎◌, inl, inr, true, List, [], ◌∷◌, ◌||◌, Option, none,
  some, find-insert, Dict, count, count-append, count-erase_first, length, ◌==◌, arith, Bool-cases,
}
use compat_layer.Driver.{Driver, Call, VkResult, is_success}
use compat_layer.Allocator.{
  State, Outcome, allocated, failed, occupancy_of, touch, find_vacant, is_exhausted,
  create_new_pool, allocate_active, finish, retire, promote, refill, try_active, retry,
  after_attempt, allocate,
}
use compat_layer.Allocator.Invariant.{IsValid, MakesNewPools, present, opened, count-le-length}

-- The search finds a vacant pool and changes nothing, or every pool of the list is in use.
abbrev pub Finds : List ℕ → Dict ℕ → Option ℕ × Dict ℕ → Type 0
Finds ps occ r =
    ((r ≡ (none, occ)) × ((p : ℕ) → 0 < count p ps → 0 < occupancy_of p occ))
    ⊎ ((p : ℕ) × (r ≡ (some p, occ)) × (0 < count p ps) × (occupancy_of p occ ≡ 0))

pub touch-present : (p : ℕ) (occ : Dict ℕ) → present p occ ≡ 1 → touch p occ ≡ occ
unfolding touch
touch-present p occ h = ground arith

pub find_vacant-Finds :
    (ps : List ℕ) (occ : Dict ℕ)
    → ((p : ℕ) → 0 < count p ps → present p occ ≡ 1)
    → Finds ps occ (find_vacant ps occ)
unfolding find_vacant
find_vacant-Finds [] occ h = inl (refl, λ p k. absurd (omega arith))
find_vacant-Finds (p ∷ ps) occ h =
    rw (touch-present p occ (h p (ground arith))) (elim (Bool-cases (occupancy_of p occ == 0)) [
      | inl e ↦ rw e (inr (p, refl, ground arith, ground arith))
      | inr e ↦ rw e (elim (find_vacant-Finds ps occ (λ q k. h q (ground arith))) [
        | inl (r, all) ↦ inl (r, λ q k. ground (arith, all q))
        | inr (q, r, k, z) ↦ inr (q, r, ground arith, z)
      ])
    ])

-- Which sets are in use after a call.
abbrev pub live_after : Outcome → List ℕ → List ℕ
live_after (allocated p set) live = p ∷ live
live_after (failed r) live = live

module _ (d : Driver) (live : List ℕ) where
  pub retire-IsValid :
      (s : State) → IsValid d live s → IsValid d live (retire d s) × ((retire d s).active_pool ≡ 0)
  unfolding retire
  retire-IsValid s v = elim (Bool-cases (s.active_pool == 0)) [
    | inl e ↦ rw e (v, ground arith)
    | inr e ↦ rw e (
      record {
        counted = v.counted;
        held = λ p. ground (arith, v.held p, count-append s.exhausted_pools (s.active_pool ∷ []) p);
        owned = v.owned;
        null = v.null;
        total = v.total;
      },
      refl,
    )
  ]

  pub create_new_pool-IsValid :
      (s : State)
      → MakesNewPools d
      → s.active_pool ≡ 0
      → IsValid d live s
      → IsValid d live (create_new_pool d s).1
  unfolding create_new_pool opened occupancy_of
  create_new_pool-IsValid s new a v =
      let q = d.handle s.history Call.create_descriptor_pool in
      elim (Bool-cases (is_success (d.result s.history Call.create_descriptor_pool))) [
        | inl e ↦
            rw (e, create_new_pool)
              (record {
                counted = λ p.
                    ground (
                      arith,
                      new s.history e,
                      v.counted p,
                      v.owned p,
                      find-insert q p 0 s.occupancy,
                    );
                held = λ p.
                    ground
                      (arith, new s.history e, v.held p, v.owned p, find-insert q p 0 s.occupancy);
                owned = λ p. ground (arith, v.owned p, find-insert q p 0 s.occupancy);
                null = ground (arith, new s.history e, v.null, find-insert q 0 0 s.occupancy);
                total = v.total;
              })
        | inr e ↦
            rw (e, create_new_pool)
              (record {
                counted = v.counted;
                held = v.held;
                owned = λ p. ground (arith, v.owned p);
                null = v.null;
                total = v.total;
              })
      ]

  promote-IsValid :
      (s : State) (p : ℕ)
      → s.active_pool ≡ 0
      → 0 < count p s.exhausted_pools
      → IsValid d live s
      → IsValid d live (promote d (some p, s.occupancy) s).1
  unfolding promote opened
  promote-IsValid s p a k v = record {
    counted = v.counted;
    held = λ q. ground (arith, v.held q, v.held 0, v.null, count-erase_first q p s.exhausted_pools);
    owned = v.owned;
    null = v.null;
    total = v.total;
  }

  pub refill-IsValid :
      (s : State)
      → MakesNewPools d
      → s.active_pool ≡ 0
      → IsValid d live s
      → IsValid d live (refill d s).1
  unfolding refill promote
  refill-IsValid s new a v =
      elim (find_vacant-Finds s.exhausted_pools s.occupancy (λ p k. ground (arith, v.held p))) [
        | inl (e, _) ↦ rw e (create_new_pool-IsValid s new a v)
        | inr (p, e, k, _) ↦ rw e (promote-IsValid s p a k v)
      ]

  pub allocate_active-IsValid :
      (layout : ℕ) (s : State) → IsValid d live s → IsValid d live (allocate_active d layout s).2
  unfolding allocate_active opened
  allocate_active-IsValid layout s v = record {
    counted = v.counted;
    held = v.held;
    owned = v.owned;
    null = v.null;
    total = v.total;
  }

  finish-IsValid :
      (result : VkResult) (set : ℕ) (s : State)
      → length live + 1 < 2 ^ 32
      → (is_success result ≡ true → s.active_pool ≢ 0)
      → IsValid d live s
      → let (o, s') = finish d (result, set, s) in IsValid d (live_after o live) s'
  unfolding finish occupancy_of
  finish-IsValid result set s small a v = elim (Bool-cases (is_success result)) [
    | inl e ↦
        let n = (occupancy_of s.active_pool s.occupancy + 1) % 2 ^ 32 in
        let at = λ (p : ℕ). find-insert s.active_pool p n s.occupancy in
        rw (e, finish)
          (record {
            counted = λ p.
                ground
                  (arith, a e, v.counted p, v.counted s.active_pool, count-le-length p live, at p);
            held = λ p. ground (arith, a e, v.held p, v.held s.active_pool, at p);
            owned = λ p. ground (arith, a e, v.owned p, v.held s.active_pool, at p);
            null = ground (arith, a e, v.null, at 0);
            total = ground (arith, v.total);
          })
    | inr e ↦ rw (e, finish) v
  ]

  retry-IsValid :
      (layout : ℕ) (result : VkResult) (s : State)
      → length live + 1 < 2 ^ 32
      → (is_success result ≡ true → s.active_pool ≢ 0)
      → IsValid d live s
      → let (o, s') = retry d layout (result, s) in IsValid d (live_after o live) s'
  unfolding retry allocate_active
  retry-IsValid layout result s small a v = elim (Bool-cases (is_success result)) [
    | inl e ↦
        rw (e, retry) (finish-IsValid _ _ _ small (λ _. a e) (allocate_active-IsValid layout s v))
    | inr e ↦ rw (e, retry) v
  ]

  -- A refill that reports success leaves an active pool.
  pub refill-active :
      (s : State)
      → MakesNewPools d
      → IsValid d live s
      → is_success (refill d s).0 ≡ true
      → (refill d s).1.active_pool ≢ 0
  unfolding refill promote create_new_pool
  refill-active s new v =
      elim (find_vacant-Finds s.exhausted_pools s.occupancy (λ p k. ground (arith, v.held p))) [
        | inl (e, _) ↦ rw e (λ k. ground (arith, new s.history))
        | inr (p, e, k, _) ↦ rw e (λ _. ground (arith, v.held p, v.null))
      ]

  after_attempt-IsValid :
      (layout : ℕ) (result : VkResult) (set : ℕ) (s : State)
      → MakesNewPools d
      → length live + 1 < 2 ^ 32
      → IsValid d live s
      → let (o, s') = after_attempt d layout (result, set, s) in IsValid d (live_after o live) s'
  unfolding after_attempt
  after_attempt-IsValid layout result set s new small v =
      let (v', a') = retire-IsValid s v in
      elim (Bool-cases (is_exhausted result || s.active_pool == 0)) [
        | inl e ↦
            rw (e, after_attempt)
              (retry-IsValid layout _ _ small (refill-active (retire d s) new v')
                (refill-IsValid (retire d s) new a' v'))
        | inr e ↦ rw (e, after_attempt) (finish-IsValid result set s small (λ _. ground arith) v)
      ]

  -- The fields stay in step with the sets in use and with the driver's pools: the counters do not
  -- wrap, no pool is lost, and the set that is given out is counted against the pool it came from.
  pub allocate-IsValid :
      (layout : ℕ) (s : State)
      → MakesNewPools d
      → length live + 1 < 2 ^ 32
      → IsValid d live s
      → let (o, s') = allocate d layout s in IsValid d (live_after o live) s'
  unfolding allocate try_active
  allocate-IsValid layout s new small v = elim (Bool-cases (s.active_pool == 0)) [
    | inl e ↦ rw (e, allocate) (after_attempt-IsValid layout _ _ s new small v)
    | inr e ↦
        rw (e, allocate)
          (after_attempt-IsValid layout _ _ _ new small (allocate_active-IsValid layout s v))
  ]
