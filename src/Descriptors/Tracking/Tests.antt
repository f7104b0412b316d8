-- ===== src/Descriptors/Tracking/Tests.antt =====
-- The tracking maps, and their theorems, at a pool that holds two sets.
use compat_layer.Prelude.{[], ◌∷◌}
use compat_layer.Descriptors.Tracking.{Tracking, empty, track_descriptor_sets}

abbrev two_sets : Tracking
two_sets = track_descriptor_sets 9 ((1, 50) ∷ (2, 60) ∷ []) empty
