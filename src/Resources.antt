-- ===== src/Resources.antt =====
-- src/buffer.cpp and src/image.cpp: the maps of buffers and images, and binding memory to them.
-- `get_device` finds the device, or none. What is created sparse is handed over to
-- src/sparse_binding.cpp.
pub mod Shadow
pub mod Buffers
pub mod Images
pub mod Balance
pub mod Failures
pub mod Steps
pub mod Tracked
pub mod Create
pub mod Runs
pub mod RoundTrip
pub mod Padding
pub mod Staging
mod Tests
use compat_layer.Prelude.{
  ℕ, ◌+◌, Bool, List, [], ◌∷◌, Option, none, some, Dict, find, insert, if◌then◌else◌,
}
use compat_layer.Device.{Device}
use compat_layer.Formats.{Extent}
use compat_layer.Driver.{Driver, History, Call, VkResult, is_success}

-- The aspects that `imageAspect` takes.
pub data Aspect : Type 0 where
  color depth : Aspect

-- `dense_sparse_resource`, of a buffer or of an image
pub data Kind : Type 0 where
  of_buffer : (buffer : ℕ) → Kind
  of_image : (image : ℕ) (aspect : Aspect) (granularity : Extent) (resident : Bool) → Kind

pub record DenseSparseResource : Type 0 where
  pub kind : Kind
  pub shadow_memory : ℕ
  pub virtual_size : ℕ
  pub page_granularity : ℕ
  pub memory_type : ℕ

pub record Buffer : Type 0 where
  pub memory : ℕ
  pub size : ℕ
  pub offset : ℕ
  pub id : ℕ
  pub owns_memory : Bool
  pub sparse : Option DenseSparseResource

pub record Image : Type 0 where
  pub format : ℕ
  pub sparse : Option DenseSparseResource

pub record State : Type 0 where
  pub buffers : Dict Buffer
  pub images : Dict Image
  pub committed : ℕ
  pub next_id : ℕ
  pub history : History

abbrev pub call : Call → State → State
call c s = record s { history = c ∷ s.history }

-- `find_buffer` and a write through the pointer that it finds
unfoldable pub set_memory : (buffer memory offset : ℕ) → Dict Buffer → Dict Buffer
set_memory buffer memory offset m = elim (find buffer m) [
  | none ↦ m
  | some b ↦ insert buffer (record b { memory = memory; offset = offset }) m
]

unfoldable pub set_memories : List (ℕ × ℕ × ℕ) → Dict Buffer → Dict Buffer
set_memories [] m = m
set_memories ((buffer, memory, offset) ∷ rest) m =
    set_memories rest (set_memory buffer memory offset m)

module _ (d : Driver) where
  unfoldable pub bind_buffer_memory :
      Option Device → (buffer memory offset : ℕ) → State → VkResult × State
  bind_buffer_memory none buffer memory offset s = (VkResult.error_initialization_failed, s)
  bind_buffer_memory (some dev) buffer memory offset s =
      let c = Call.bind_buffer_memory buffer memory offset in
      let result = d.result s.history c in
      if is_success result
      then (
        VkResult.success,
        record (call c s) { buffers = set_memory buffer memory offset s.buffers },
      )
      else (result, call c s)

  unfoldable pub bind_buffer_memory2 : Option Device → List (ℕ × ℕ × ℕ) → State → VkResult × State
  bind_buffer_memory2 none binds s = (VkResult.error_initialization_failed, s)
  bind_buffer_memory2 (some dev) binds s =
      let c = Call.bind_buffer_memory2 binds in
      let result = d.result s.history c in
      if is_success result
      then (VkResult.success, record (call c s) { buffers = set_memories binds s.buffers })
      else (result, call c s)
