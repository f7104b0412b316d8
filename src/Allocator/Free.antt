-- ===== src/Allocator/Free.antt =====
-- src/layer.cpp: `DescriptorSetAllocator::free` keeps the fields in step and does not throw.
use compat_layer.Prelude.{
  ℕ, ◌+◌, ◌-◌, ◌^◌, ◌<◌, ◌≡◌, refl, inl, inr, List, [], ◌∷◌, some, find-insert, find-erase, Dict,
  count, ltb, count-erase_first, erase_first, length, ◌==◌, if◌then◌else◌, arith, Bool-cases,
}
use compat_layer.Driver.{Driver}
use compat_layer.Descriptors.Tracking.{Tracking, untrack_descriptor_sets}
use compat_layer.Allocator.{
  State, occupancy_of, count_vacant, release, trim, give_back, trim_unless_active, free,
  max_empty_pools_to_reserve, drop_pool,
}
use compat_layer.Allocator.Allocate.{touch-present}
use compat_layer.Allocator.Invariant.{IsValid, present, opened}

-- The number of pools in a list with no set allocated.
abbrev pub vacant : List ℕ → Dict ℕ → ℕ
vacant [] occ = 0
vacant (p ∷ ps) occ = (if occupancy_of p occ == 0 then 1 else 0) + vacant ps occ

pub count_vacant-vacant :
    (ps : List ℕ) (occ : Dict ℕ)
    → ((p : ℕ) → 0 < count p ps → present p occ ≡ 1)
    → count_vacant ps occ ≡ some (vacant ps occ)
unfolding count_vacant occupancy_of
count_vacant-vacant [] occ h = refl
count_vacant-vacant (p ∷ ps) occ h =
    ground (arith, h p, count_vacant-vacant ps occ (λ q k. h q (ground arith)))

pub count_vacant_valid :
    {d : Driver} {live : List ℕ} (s : State)
    → IsValid d live s
    → count_vacant s.exhausted_pools s.occupancy ≡ some (vacant s.exhausted_pools s.occupancy)
count_vacant_valid s v =
    count_vacant-vacant s.exhausted_pools s.occupancy (λ p k. ground (arith, v.held p))

length-erase_first :
    (p : ℕ) (xs : List ℕ) → 0 < count p xs → length (erase_first p xs) + 1 ≡ length xs
length-erase_first p [] h = absurd (omega arith)
length-erase_first p (x ∷ xs) h = ground (arith, length-erase_first p xs)

module _ (d : Driver) (live : List ℕ) where
  pub give_back-IsValid :
      (pool set : ℕ) (s : State)
      → length live < 2 ^ 32
      → 0 < count pool live
      → IsValid d live s
      → IsValid d (erase_first pool live) (give_back pool set s)
  unfolding give_back release occupancy_of opened
  give_back-IsValid pool set s small k v =
      let n = occupancy_of pool s.occupancy in
      let at = λ (p : ℕ). find-insert pool p (n - 1) s.occupancy in
      record {
        counted =
            λ p. ground (arith, v.counted p, v.counted pool, count-erase_first p pool live, at p);
        held = λ p. ground (arith, v.counted pool, v.held p, at p);
        owned = λ p. ground (arith, v.counted pool, v.owned p, at p);
        null = ground (arith, v.counted pool, v.null, at 0);
        total = ground (arith, v.total, length-erase_first pool live);
      }

  pub present-give_back :
      (pool set : ℕ) (s : State)
      → 0 < count pool live
      → IsValid d live s
      → present pool (give_back pool set s).occupancy ≡ 1
  unfolding give_back release occupancy_of
  present-give_back pool set s k v =
      ground (
        arith,
        v.counted pool,
        find-insert pool pool (occupancy_of pool s.occupancy - 1) s.occupancy,
      )

  drop_pool-IsValid :
      (pool : ℕ) (s : State)
      → 0 < count pool s.exhausted_pools
      → count pool live ≡ 0
      → IsValid d live s
      → IsValid d live (drop_pool pool s)
  unfolding drop_pool opened occupancy_of
  drop_pool-IsValid pool s k z v =
      let at = λ (p : ℕ). find-erase pool p s.occupancy in
      record {
        counted = λ p. ground (arith, v.counted p, at p);
        held = λ p.
            ground (arith, v.held p, at p, v.held pool, count-erase_first p pool s.exhausted_pools);
        owned = λ p. ground (arith, v.owned p, at p);
        null = ground (arith, v.null, at 0);
        total = v.total;
      }

  trim-IsValid :
      (pool : ℕ) (s : State)
      → 0 < count pool s.exhausted_pools
      → count pool live ≡ 0
      → IsValid d live s
      → (s' : State) × (trim pool s ≡ some s') × IsValid d live s'
  unfolding trim
  trim-IsValid pool s k z v =
      let safe = count_vacant_valid s v in
      elim (Bool-cases (ltb max_empty_pools_to_reserve (vacant s.exhausted_pools s.occupancy))) [
        | inl e ↦ (drop_pool pool s, rw (safe, e), drop_pool-IsValid pool s k z v)
        | inr e ↦ (s, rw (safe, e), v)
      ]

  trim_unless_active-IsValid :
      (pool : ℕ) (s : State)
      → IsValid d live s
      → present pool s.occupancy ≡ 1
      → (s' : State) × (trim_unless_active pool s ≡ some s') × IsValid d live s'
  unfolding trim_unless_active
  trim_unless_active-IsValid pool s v k =
      let known = touch-present pool s.occupancy k in
      elim (Bool-cases (pool == s.active_pool)) [
        | inl e ↦ (s, rw e, v)
        | inr e ↦ elim (Bool-cases (occupancy_of pool s.occupancy == 0)) [
          | inl z ↦
              let (s', r, v') =
                trim-IsValid pool s (ground (arith, v.held pool)) (ground (arith, v.counted pool))
                  v in
              (s', rw (e, known, z) r, v')
          | inr z ↦ (s, rw (e, known, z), v)
        ]
      ]

module _ (d : Driver) (live : List ℕ) where
  -- Freeing a set that is in use does not throw, and the fields stay in step.
  pub free-IsValid :
      (pool set : ℕ) (s : State) (t : Tracking)
      → length live < 2 ^ 32
      → 0 < count pool live
      → IsValid d live s
      → (s' : State) × (free pool set (s, t) ≡ some (s', untrack_descriptor_sets (set ∷ []) t))
        × IsValid d (erase_first pool live) s'
  unfolding free
  free-IsValid pool set s t small k v =
      let v' = give_back-IsValid d live pool set s small k v in
      let (s', e, w) =
        trim_unless_active-IsValid d (erase_first pool live) pool _ v'
          (present-give_back d live pool set s k v) in
      (s', rw e, w)
