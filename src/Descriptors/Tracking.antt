-- ===== src/Descriptors/Tracking.antt =====
-- src/descriptors.cpp: which layout each descriptor set was allocated with, and which sets each
-- pool holds. Every access is under a lock, so an operation is one step.
pub mod Lookup
pub mod Consistent
mod Tests
use compat_layer.Prelude.{
  ℕ, ◌+◌, List, [], ◌∷◌, ◌++◌, map, Option, none, some, Dict, find, insert, erase, remove,
  if◌then◌else◌,
}

-- `descriptorSetsMap` and `descriptorPoolsMap`
pub record Tracking : Type 0 where
  pub sets : Dict ℕ
  pub pools : Dict (List ℕ)

abbrev pub empty : Tracking
empty = record { sets = []; pools = [] }

-- `descriptorPoolsMap[pool]`, which is empty for a pool that is not there
unfoldable pub sets_of : ℕ → Dict (List ℕ) → List ℕ
sets_of pool pools = elim (find pool pools) [ none ↦ [] | some v ↦ v ]

-- The first loop of `track_descriptor_sets`. A pair is a set with its layout.
unfoldable pub track_layouts : List (ℕ × ℕ) → Dict ℕ → Dict ℕ
track_layouts [] sets = sets
track_layouts ((s, layout) ∷ rest) sets = track_layouts rest (insert s layout sets)

abbrev pub handles_of : List (ℕ × ℕ) → List ℕ
handles_of = map (λ e. e.0)

unfoldable pub track_descriptor_sets : ℕ → List (ℕ × ℕ) → Tracking → Tracking
track_descriptor_sets pool pairs t = record {
  sets = track_layouts pairs t.sets;
  pools = insert pool (sets_of pool t.pools ++ handles_of pairs) t.pools;
}

unfoldable pub erase_all {ℓ} : {V : Type ℓ} → List ℕ → Dict V → Dict V
erase_all [] m = m
erase_all (s ∷ rest) m = erase_all rest (erase s m)

unfoldable pub remove_all : List ℕ → List ℕ → List ℕ
remove_all [] v = v
remove_all (s ∷ rest) v = remove_all rest (remove s v)

-- The second loop of `untrack_descriptor_sets`, over every pool.
unfoldable pub remove_from_pools : List ℕ → Dict (List ℕ) → Dict (List ℕ)
remove_from_pools ss [] = []
remove_from_pools ss ((pool, v) ∷ rest) = (pool, remove_all ss v) ∷ remove_from_pools ss rest

unfoldable pub untrack_descriptor_sets : List ℕ → Tracking → Tracking
untrack_descriptor_sets ss t = record {
  sets = erase_all ss t.sets;
  pools = remove_from_pools ss t.pools;
}

unfoldable pub untrack_descriptor_pool : ℕ → Tracking → Tracking
untrack_descriptor_pool pool t = elim (find pool t.pools) [
  | none ↦ t
  | some v ↦ record { sets = erase_all v t.sets; pools = erase pool t.pools }
]

-- 0 is VK_NULL_HANDLE, for a set that is not tracked.
unfoldable pub get_layout_for_set : ℕ → Tracking → ℕ
get_layout_for_set s t = elim (find s t.sets) [ none ↦ 0 | some layout ↦ layout ]
