-- ===== src/Descriptors/Tracking/Lookup.antt =====
-- src/descriptors.cpp: what `get_layout_for_set` answers after each operation.
use compat_layer.Prelude.{
  ℕ, ◌≡◌, refl, List, [], ◌∷◌, none, some, Dict, find, insert, erase, find-insert, find-erase,
  count, ◌==◌, ltb, if◌then◌else◌, arith,
}
use compat_layer.Descriptors.Tracking.{
  Tracking, sets_of, track_layouts, track_descriptor_sets, erase_all, untrack_descriptor_sets,
  untrack_descriptor_pool, get_layout_for_set,
}

pub find-erase_all {ℓ} :
    {V : Type ℓ} (s : ℕ) (ss : List ℕ) (m : Dict V)
    → find s (erase_all ss m) ≡ (if ltb 0 (count s ss) then none else find s m)
unfolding erase_all
find-erase_all s [] m = refl
find-erase_all s (x ∷ ss) m = ground (arith, find-erase_all s ss (erase x m), find-erase x s m)

-- The layout that the pairs give to a set, the last of them if there are several.
abbrev pub layout_in : ℕ → List (ℕ × ℕ) → ℕ → ℕ
layout_in s [] before = before
layout_in s (e ∷ rest) before = layout_in s rest (if e.0 == s then e.1 else before)

abbrev layout_at : ℕ → Dict ℕ → ℕ
layout_at s m = elim (find s m) [ none ↦ 0 | some layout ↦ layout ]

layout_at-track_layouts :
    (s : ℕ) (pairs : List (ℕ × ℕ)) (m : Dict ℕ)
    → layout_at s (track_layouts pairs m) ≡ layout_in s pairs (layout_at s m)
unfolding track_layouts
layout_at-track_layouts s [] m = refl
layout_at-track_layouts s ((k, v) ∷ pairs) m =
    ground (arith, layout_at-track_layouts s pairs (insert k v m), find-insert k s v m)

-- After an allocation a set has the layout that it was allocated with, and any other set the
-- layout that it had.
pub get_layout_for_set-track :
    (s pool : ℕ) (pairs : List (ℕ × ℕ)) (t : Tracking)
    → get_layout_for_set s (track_descriptor_sets pool pairs t)
      ≡ layout_in s pairs (get_layout_for_set s t)
unfolding get_layout_for_set track_descriptor_sets
get_layout_for_set-track s pool pairs t = layout_at-track_layouts s pairs t.sets

-- After sets are freed they have no layout, and any other set keeps its own.
pub get_layout_for_set-untrack :
    (s : ℕ) (ss : List ℕ) (t : Tracking)
    → get_layout_for_set s (untrack_descriptor_sets ss t)
      ≡ (if ltb 0 (count s ss) then 0 else get_layout_for_set s t)
unfolding get_layout_for_set untrack_descriptor_sets
get_layout_for_set-untrack s ss t = ground (arith, find-erase_all s ss t.sets)

-- After a pool is reset or destroyed its sets have no layout, and any other set keeps its own.
pub get_layout_for_set-untrack_pool :
    (s pool : ℕ) (t : Tracking)
    → get_layout_for_set s (untrack_descriptor_pool pool t)
      ≡ (if ltb 0 (count s (sets_of pool t.pools)) then 0 else get_layout_for_set s t)
unfolding get_layout_for_set untrack_descriptor_pool sets_of
get_layout_for_set-untrack_pool s pool t =
    ground (arith, find-erase_all s (sets_of pool t.pools) t.sets)
