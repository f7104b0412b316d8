-- ===== src/Device.antt =====
-- src/layer.hpp: the settings in `struct device` that the layer's entry points branch on. They are
-- read from the driver and from environment variables when the device is created, and do not
-- change afterwards. The components of a device that do change (the allocator, the pools of
-- semaphores, the null resources) are modelled with their own files.
use compat_layer.Prelude.{List, ℕ, Bool}

pub record Device : Type 0 where
  pub memory_index : ℕ
  pub queue_family_index : ℕ
  pub profile_transfers : Bool
  pub sample_gpu_counters : Bool
  pub emulate_push_descriptors : Bool
  pub emulate_null_descriptor : Bool
  pub emulate_precise_null_descriptor : Bool
  pub emulate_sparse_binding : Bool
  -- `memoryProps.memoryTypes[i].propertyFlags`
  pub memory_types : List ℕ
