-- ===== src/Memory/Tests.antt =====
-- The choice of a memory type, and its theorem, on a device with three types.
use compat_layer.Prelude.{◌≡◌, refl, true, false, [], ◌∷◌}
use compat_layer.Device.{Device}
use compat_layer.Memory.{meets, find_type, find_memory_type, host_visible}

abbrev device : Device
device = record {
  memory_index = 0;
  queue_family_index = 0;
  profile_transfers = false;
  sample_gpu_counters = false;
  emulate_push_descriptors = true;
  emulate_null_descriptor = true;
  emulate_precise_null_descriptor = false;
  emulate_sparse_binding = false;
  memory_types = 1 ∷ 1 ∷ 6 ∷ [];
}

find_memory_type_third : find_memory_type device 6 host_visible ≡ 2
unfolding meets find_type find_memory_type
find_memory_type_third = refl

-- No type is both allowed and host visible: the device's own type is answered all the same.
find_memory_type_none : find_memory_type device 2 host_visible ≡ 0
unfolding meets find_type find_memory_type
find_memory_type_none = refl
