-- ===== src/Allocator.antt =====
-- src/layer.cpp and src/layer.hpp: `DescriptorSetAllocator`, the growing set of descriptor pools
-- from which the layer takes the sets for emulated push descriptors. Each method holds the
-- allocator's lock, so it is one step.
pub mod Invariant
pub mod Allocate
pub mod Failing
pub mod Free
pub mod Spare
pub mod Reserve
pub mod Safe
pub mod Runs
pub mod Quiet
mod Tests
use mathlib.Core.Option
use compat_layer.Prelude.{
  ℕ, ◌+◌, ◌-◌, ◌%◌, ◌^◌, Bool, true, false, not, ◌&&◌, ◌||◌, List, [], ◌∷◌, ◌++◌, Option, none,
  some, Dict, find, insert, erase, count, erase_first, ◌==◌, ltb, if◌then◌else◌,
}
use compat_layer.Driver.{Driver, History, Call, VkResult, is_success}
use compat_layer.Descriptors.Tracking.{Tracking, untrack_descriptor_sets}

-- The pool handle 0 is VK_NULL_HANDLE. Counters are `uint32_t` and `uint64_t`.
pub record Allocator : Type 0 where
  pub active_pool : ℕ
  pub exhausted_pools : List ℕ
  pub occupancy : Dict ℕ
  pub allocated_count : ℕ

abbrev pub max_empty_pools_to_reserve : ℕ
max_empty_pools_to_reserve = 2

-- `occupancy[pool]` where it is read: 0 for a pool that is not there.
unfoldable pub occupancy_of : ℕ → Dict ℕ → ℕ
occupancy_of pool occ = elim (find pool occ) [ none ↦ 0 | some n ↦ n ]

-- `operator[]` adds the entry that it does not find.
pub touch : ℕ → Dict ℕ → Dict ℕ
touch pool occ = elim (find pool occ) [ none ↦ insert pool 0 occ | some _ ↦ occ ]

-- `std::find_if` over the exhausted pools: the first with no set allocated.
unfoldable pub find_vacant : List ℕ → Dict ℕ → Option ℕ × Dict ℕ
find_vacant [] occ = (none, occ)
find_vacant (p ∷ ps) occ =
    let occ' = touch p occ in
    let rest = find_vacant ps occ' in if occupancy_of p occ' == 0 then (some p, occ') else rest

-- The allocator with the driver's history.
pub record State : Type 0 where
  pub allocator : Allocator
  pub open allocator use *
  pub history : History

-- `allocate` writes the pool and the set only when it reports success.
pub data Outcome : Type 0 where
  allocated : (pool set : ℕ) → Outcome
  failed : VkResult → Outcome

unfoldable pub is_exhausted : VkResult → Bool
is_exhausted VkResult.error_out_of_pool_memory = true
is_exhausted VkResult.error_fragmented_pool = true
is_exhausted _ = false

module _ (d : Driver) where
  -- `createNewPool(&activePool)`
  unfoldable pub create_new_pool : State → VkResult × State
  create_new_pool s =
      let call = Call.create_descriptor_pool in
      let result = d.result s.history call in
      let pool = d.handle s.history call in
      let h = call ∷ s.history in
      if is_success result
      then (
        result,
        record {
          allocator = record s.allocator {
            active_pool = pool;
            occupancy = insert pool 0 s.occupancy;
          };
          history = h;
        },
      )
      else (result, record s { history = h })

  -- The call of `AllocateDescriptorSets` on the active pool: its result and the set.
  unfoldable pub allocate_active : ℕ → State → VkResult × ℕ × State
  allocate_active layout s =
      let call = Call.allocate_descriptor_sets s.active_pool (layout ∷ []) in
      (d.result s.history call, d.handle s.history call, record s { history = call ∷ s.history })

  -- The end of `allocate`.
  unfoldable pub finish : VkResult × ℕ × State → Outcome × State
  finish (result, set, s) =
      let n = occupancy_of s.active_pool s.occupancy in
      if is_success result
      then (
        allocated s.active_pool set,
        record s {
          allocator = record s.allocator {
            occupancy = insert s.active_pool ((n + 1) % 2 ^ 32) s.occupancy;
            allocated_count = (s.allocated_count + 1) % 2 ^ 64;
          };
        },
      )
      else (failed result, s)

  -- `exhaustedPools.push_back(activePool)`
  unfoldable pub retire : State → State
  retire s = if s.active_pool == 0 then s else record s {
    allocator = record s.allocator {
      active_pool = 0;
      exhausted_pools = s.exhausted_pools ++ s.active_pool ∷ [];
    };
  }

  -- A vacant pool becomes the active one, or a new one does.
  unfoldable pub promote : Option ℕ × Dict ℕ → State → VkResult × State
  promote (none, occ) s =
      create_new_pool (record s { allocator = record s.allocator { occupancy = occ } })
  promote (some p, occ) s = (
    VkResult.success,
    record {
      allocator = record s.allocator {
        active_pool = p;
        exhausted_pools = erase_first p s.exhausted_pools;
        occupancy = occ;
      };
      history = Call.reset_descriptor_pool p ∷ s.history;
    },
  )

  unfoldable pub refill : State → VkResult × State
  refill s = promote (find_vacant s.exhausted_pools s.occupancy) s

  -- The first attempt, which the null pool fails without a call.
  unfoldable pub try_active : ℕ → State → VkResult × ℕ × State
  try_active layout s =
      if s.active_pool == 0
      then (VkResult.error_out_of_pool_memory, 0, s)
      else allocate_active layout s

  unfoldable pub retry : ℕ → VkResult × State → Outcome × State
  retry layout (result, s) =
      if is_success result then finish (allocate_active layout s) else (failed result, s)

  unfoldable pub after_attempt : ℕ → VkResult × ℕ × State → Outcome × State
  after_attempt layout (result, set, s) =
      if is_exhausted result || s.active_pool == 0
      then retry layout (refill (retire s))
      else finish (result, set, s)

  unfoldable pub allocate : ℕ → State → Outcome × State
  allocate layout s = after_attempt layout (try_active layout s)

-- `std::count_if` with `occupancy.at`, which throws at a pool that is not there: `none`.
pub count_vacant : List ℕ → Dict ℕ → Option ℕ
count_vacant [] occ = some 0
count_vacant (p ∷ ps) occ = elim (find p occ) [
  | none ↦ none
  | some n ↦ elim (count_vacant ps occ) [
    | none ↦ none
    | some k ↦ some ((if n == 0 then 1 else 0) + k)
  ]
]

-- `if (occupancy.find(pool) != occupancy.end() && occupancy[pool] > 0) occupancy[pool]--`
pub release : ℕ → Dict ℕ → Dict ℕ
release pool occ = elim (find pool occ) [
  | none ↦ occ
  | some n ↦ if n == 0 then occ else insert pool (n - 1) occ
]

pub drop_pool : ℕ → State → State
drop_pool pool s = record {
  allocator = record s.allocator {
    exhausted_pools = erase_first pool s.exhausted_pools;
    occupancy = erase pool s.occupancy;
  };
  history = Call.destroy_descriptor_pool pool ∷ s.history;
}

-- Destroys the pool if too many are vacant.
pub trim : ℕ → State → Option State
trim pool s =
    Option.map (λ n. if ltb max_empty_pools_to_reserve n then drop_pool pool s else s)
      (count_vacant s.exhausted_pools s.occupancy)

-- The bookkeeping of `free` between the driver's call and the trim.
pub give_back : ℕ → ℕ → State → State
give_back pool set s = record {
  allocator = record s.allocator {
    occupancy = release pool s.occupancy;
    allocated_count = (s.allocated_count + 2 ^ 64 - 1) % 2 ^ 64;
  };
  history = Call.free_descriptor_sets pool (set ∷ []) ∷ s.history;
}

-- `none` where the code would throw.
pub trim_unless_active : ℕ → State → Option State
trim_unless_active pool s =
    if pool == s.active_pool
    then some s
    else (let occ = touch pool s.occupancy in
        let s' = record s { allocator = record s.allocator { occupancy = occ } } in
        if occupancy_of pool occ == 0 then trim pool s' else some s')

pub free : ℕ → ℕ → State × Tracking → Option (State × Tracking)
free pool set (s, t) =
    Option.map (λ s'. (s', untrack_descriptor_sets (set ∷ []) t))
      (trim_unless_active pool (give_back pool set s))

unfoldable pub destroy_all : List ℕ → History → History
destroy_all [] h = h
destroy_all (p ∷ ps) h = destroy_all ps (Call.destroy_descriptor_pool p ∷ h)

unfoldable pub cleanup : State → State
cleanup s = record {
  allocator = record s.allocator { active_pool = 0; exhausted_pools = []; occupancy = [] };
  history = destroy_all s.exhausted_pools (
      if s.active_pool == 0
      then s.history
      else Call.destroy_descriptor_pool s.active_pool ∷ s.history);
}

-- The constructor: an allocator with a first pool, if the driver makes one.
unfoldable pub init : Driver → History → State
init d h =
    (create_new_pool d (record {
      allocator = record {
        active_pool = 0;
        exhausted_pools = [];
        occupancy = [];
        allocated_count = 0;
      };
      history = h;
    })).1
