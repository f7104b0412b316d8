-- ===== src/Descriptors/Sets/Tests.antt =====
-- The entry points, and their theorem, at a driver that gives out a new set for each allocation.
use compat_layer.Prelude.{
  ◌+◌, List, [], ◌∷◌, Option, none, some, refl, true, false, find, insert, length, arith,
}
use compat_layer.Device.{Device}
use compat_layer.Driver.{Driver, VkResult}
use compat_layer.Descriptors.Tracking.{empty, sets_of, track_descriptor_sets, track_layouts}
use compat_layer.Descriptors.Tracking.Consistent.{IsConsistent, empty-IsConsistent}
use compat_layer.Descriptors.Sets.{State, with_layouts, allocate_descriptor_sets}
use compat_layer.Descriptors.Sets.Runs.{
  Entry, allocates, resets, enter, run, AllFresh, run-IsConsistent,
}
use compat_layer.Descriptors.Sets.Refines.{Refines, specify_all, run-Refines}

abbrev new_sets : Driver
new_sets = record {
  result = λ h c. VkResult.success;
  handle = λ h c. 0;
  handles = λ h c. (length h + 1) ∷ [];
  requirements = λ h o p. record { size = 0; alignment = 1; type_bits = 0 };
}

abbrev device : Option Device
device = some (record {
  memory_index = 0;
  queue_family_index = 0;
  profile_transfers = false;
  sample_gpu_counters = false;
  emulate_push_descriptors = true;
  emulate_null_descriptor = true;
  emulate_precise_null_descriptor = false;
  emulate_sparse_binding = false;
  memory_types = [];
})

abbrev entries : List Entry
entries = allocates device 9 (50 ∷ []) ∷ allocates device 9 (60 ∷ []) ∷ resets device 9 ∷ []

abbrev start : State
start = record { tracking = empty; history = [] }

entries_fresh : AllFresh new_sets entries start
unfolding enter allocate_descriptor_sets with_layouts track_descriptor_sets track_layouts find
    insert
entries_fresh = (λ r x. ground arith, (λ r x. ground arith, (tt, tt)))

run-IsConsistent_example : IsConsistent (run new_sets entries start).tracking
run-IsConsistent_example = run-IsConsistent new_sets entries start entries_fresh empty-IsConsistent

run-Refines_example :
    Refines (run new_sets entries start).tracking (specify_all new_sets entries start (λ s. none))
unfolding find sets_of
run-Refines_example =
    run-Refines new_sets entries start (λ s. none) entries_fresh
      (record { layouts = λ s. refl; owners = λ s p. refl })
