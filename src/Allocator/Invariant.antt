-- ===== src/Allocator/Invariant.antt =====
-- src/layer.cpp: what the allocator's fields say about each other, about the sets that are in use
-- and about the pools that the driver has open. `live` names, for each set in use, its pool.
use compat_layer.Prelude.{
  ℕ, ◌+◌, ◌≤◌, ◌≡◌, ◌≢◌, true, List, [], ◌∷◌, none, some, find, Dict, count, length, ◌==◌,
  if◌then◌else◌, arith,
}
use compat_layer.Driver.{Driver, History, Call, is_success}
use compat_layer.Allocator.{State, occupancy_of}

abbrev pub present : ℕ → Dict ℕ → ℕ
present p occ = elim (find p occ) [ none ↦ 0 | some _ ↦ 1 ]

-- How often the allocator holds a pool, as the active one or as an exhausted one.
abbrev pub uses : ℕ → State → ℕ
uses p s =
    (if s.active_pool == 0 then 0 else if s.active_pool == p then 1 else 0)
    + count p s.exhausted_pools

-- Whether a pool is open after a history: it was created and not yet destroyed.
unfoldable pub opened : Driver → ℕ → History → ℕ
opened d p [] = 0
opened d p (Call.create_descriptor_pool ∷ h) =
    let before = opened d p h in
    if is_success (d.result h Call.create_descriptor_pool)
    then if d.handle h Call.create_descriptor_pool == p then 1 else before
    else before
opened d p (Call.destroy_descriptor_pool q ∷ h) =
    let before = opened d p h in if q == p then 0 else before
opened d p (_ ∷ h) = opened d p h

-- What the Vulkan specification says of `vkCreateDescriptorPool`: a pool that is created has a
-- handle, and not the handle of a pool that is open.
abbrev pub MakesNewPools : Driver → Type 0
MakesNewPools d =
    (h : History)
    → is_success (d.result h Call.create_descriptor_pool) ≡ true
    → (d.handle h Call.create_descriptor_pool ≢ 0)
      × (opened d (d.handle h Call.create_descriptor_pool) h ≡ 0)

pub record IsValid (d : Driver) (live : List ℕ) (s : State) : Type 0 where
  pub counted : (p : ℕ) → occupancy_of p s.occupancy ≡ count p live
  pub held : (p : ℕ) → present p s.occupancy ≡ uses p s
  pub owned : (p : ℕ) → present p s.occupancy ≡ opened d p s.history
  pub null : find 0 s.occupancy ≡ none
  pub total : s.allocated_count ≡ length live

pub count-le-length : (p : ℕ) (xs : List ℕ) → count p xs ≤ length xs
count-le-length p [] = omega arith
count-le-length p (x ∷ xs) = ground (arith, count-le-length p xs)
