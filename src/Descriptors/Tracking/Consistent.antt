-- ===== src/Descriptors/Tracking/Consistent.antt =====
-- src/descriptors.cpp: the two maps agree. A set is in the set map exactly if it is in the list
-- of a pool, and then it is there once.
use compat_layer.Prelude.{
  ℕ, ◌+◌, ◌≤◌, ◌≡◌, refl, List, [], ◌∷◌, ◌++◌, none, some, Dict, Distinct, find, insert, erase,
  find-insert, insert-Distinct, erase-Distinct, count, count-append, count-remove, remove, ltb,
  if◌then◌else◌, arith, Option-cases, inl, inr,
}
use compat_layer.Descriptors.Tracking.{
  Tracking, empty, sets_of, track_layouts, track_descriptor_sets, handles_of, erase_all, remove_all,
  remove_from_pools, untrack_descriptor_sets, untrack_descriptor_pool,
}
use compat_layer.Descriptors.Tracking.Lookup.{find-erase_all}

-- How often a set stands in the lists of the pools.
pub times : ℕ → Dict (List ℕ) → ℕ
times s [] = 0
times s (e ∷ pools) = count s e.1 + times s pools

abbrev pub tracked : ℕ → Dict ℕ → ℕ
tracked s m = elim (find s m) [ none ↦ 0 | some _ ↦ 1 ]

pub record IsConsistent (t : Tracking) : Type 0 where
  pub distinct : Distinct t.pools
  pub agree : (s : ℕ) → times s t.pools ≡ tracked s t.sets

times-insert :
    (s k : ℕ) (v : List ℕ) (m : Dict (List ℕ))
    → times s (insert k v m) + count s (sets_of k m) ≡ times s m + count s v
unfolding times insert sets_of find
times-insert s k v [] = omega arith
times-insert s k v (e ∷ m) = ground (arith, times-insert s k v m)

times-absent : (s k : ℕ) (m : Dict (List ℕ)) → find k m ≡ none → erase k m ≡ m
unfolding erase find
times-absent s k [] h = refl
times-absent s k (e ∷ m) h = ground (arith, times-absent s k m)

times-erase :
    (s k : ℕ) (m : Dict (List ℕ))
    → Distinct m
    → times s (erase k m) + count s (sets_of k m) ≡ times s m
unfolding times erase sets_of find
times-erase s k [] d = omega arith
times-erase s k (e ∷ m) d = ground (arith, times-erase s k m d.1, times-absent s e.0 m)

pub count-remove_all :
    (s : ℕ) (ss v : List ℕ)
    → count s (remove_all ss v) ≡ (if ltb 0 (count s ss) then 0 else count s v)
unfolding remove_all
count-remove_all s [] v = refl
count-remove_all s (x ∷ ss) v =
    ground (arith, count-remove_all s ss (remove x v), count-remove s x v)

times-remove_from_pools :
    (s : ℕ) (ss : List ℕ) (m : Dict (List ℕ))
    → times s (remove_from_pools ss m) ≡ (if ltb 0 (count s ss) then 0 else times s m)
unfolding times remove_from_pools
times-remove_from_pools s ss [] = ground arith
times-remove_from_pools s ss (e ∷ m) =
    ground (arith, times-remove_from_pools s ss m, count-remove_all s ss e.1)

find-remove_from_pools :
    (k : ℕ) (ss : List ℕ) (m : Dict (List ℕ))
    → find k m ≡ none
    → find k (remove_from_pools ss m) ≡ none
unfolding find remove_from_pools
find-remove_from_pools k ss [] h = refl
find-remove_from_pools k ss (e ∷ m) h = ground (arith, find-remove_from_pools k ss m)

remove_from_pools-Distinct :
    (ss : List ℕ) (m : Dict (List ℕ)) → Distinct m → Distinct (remove_from_pools ss m)
unfolding remove_from_pools
remove_from_pools-Distinct ss [] d = tt
remove_from_pools-Distinct ss (e ∷ m) d =
    (find-remove_from_pools e.0 ss m d.0, remove_from_pools-Distinct ss m d.1)

tracked-track_layouts :
    (s : ℕ) (pairs : List (ℕ × ℕ)) (m : Dict ℕ)
    → tracked s (track_layouts pairs m)
      ≡ (if ltb 0 (count s (handles_of pairs)) then 1 else tracked s m)
unfolding track_layouts
tracked-track_layouts s [] m = refl
tracked-track_layouts s ((k, v) ∷ pairs) m =
    ground (arith, tracked-track_layouts s pairs (insert k v m), find-insert k s v m)

-- The maps agree at the start.
pub empty-IsConsistent : IsConsistent empty
unfolding times find
empty-IsConsistent = record { distinct = tt; agree = λ s. refl }

-- Sets that are new and not given twice can be tracked.
pub track-IsConsistent :
    (pool : ℕ) (pairs : List (ℕ × ℕ)) (t : Tracking)
    → ((s : ℕ) → count s (handles_of pairs) + tracked s t.sets ≤ 1)
    → IsConsistent t
    → IsConsistent (track_descriptor_sets pool pairs t)
unfolding track_descriptor_sets
track-IsConsistent pool pairs t fresh c = record {
  distinct = insert-Distinct pool _ t.pools c.distinct;
  agree = λ s. ground (
    arith,
    fresh s,
    c.agree s,
    tracked-track_layouts s pairs t.sets,
    times-insert s pool (sets_of pool t.pools ++ handles_of pairs) t.pools,
    count-append (sets_of pool t.pools) (handles_of pairs) s,
  );
}

-- Any sets can be freed.
pub untrack-IsConsistent :
    (ss : List ℕ) (t : Tracking) → IsConsistent t → IsConsistent (untrack_descriptor_sets ss t)
unfolding untrack_descriptor_sets
untrack-IsConsistent ss t c = record {
  distinct = remove_from_pools-Distinct ss t.pools c.distinct;
  agree = λ s.
      ground (arith, c.agree s, times-remove_from_pools s ss t.pools, find-erase_all s ss t.sets);
}

agree_after :
    (s pool : ℕ) (v : List ℕ) (t : Tracking)
    → find pool t.pools ≡ some v
    → IsConsistent t
    → times s (erase pool t.pools) ≡ tracked s (erase_all v t.sets)
unfolding sets_of
agree_after s pool v t e c =
    ground (arith, c.agree s, times-erase s pool t.pools c.distinct, find-erase_all s v t.sets)

-- So can any pool.
pub untrack_pool-IsConsistent :
    (pool : ℕ) (t : Tracking) → IsConsistent t → IsConsistent (untrack_descriptor_pool pool t)
unfolding untrack_descriptor_pool
untrack_pool-IsConsistent pool t c = elim (Option-cases (find pool t.pools)) [
  | inl e ↦ rw (e, untrack_descriptor_pool) c
  | inr (v, e) ↦
      rw (e, untrack_descriptor_pool)
        (record {
          distinct = erase-Distinct pool t.pools c.distinct;
          agree = λ s. agree_after s pool v t e c;
        })
]
