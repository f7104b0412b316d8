-- ===== src/Driver.antt =====
-- The Vulkan driver below the layer, as the layer sees it: the entries of
-- `VkLayerDispatchTable` (src/vulkan/vk_layer.h), which are not part of the repository's code.
-- A driver is any function of the calls made so far, the newest first. Handles are numbers and
-- 0 is VK_NULL_HANDLE. A driver writes an output handle only when it reports success.
pub mod Objects
pub mod Sample
use compat_layer.Prelude.{ℕ, Bool, true, false, List}

-- The result codes that the layer tells apart.
pub data VkResult : Type 0 where
  success not_ready incomplete pipeline_compile_required : VkResult
  error_out_of_host_memory error_out_of_device_memory error_initialization_failed : VkResult
  error_device_lost error_fragmented_pool error_out_of_pool_memory error_unknown : VkResult
  other : ℕ → VkResult

abbrev pub is_success : VkResult → Bool
is_success VkResult.success = true
is_success _ = false

-- The kinds of objects that are made by a `vkCreate…` or `vkAllocate…` and given back later.
pub data Object : Type 0 where
  buffer buffer_view image image_view memory sampler conversion fence semaphore : Object
  command_pool query_pool : Object

pub record Requirements : Type 0 where
  pub size : ℕ
  pub alignment : ℕ
  pub type_bits : ℕ

-- The fields of `VkSubmitInfo` and of `VkSubmitInfo2` that are read or changed.
pub record Submit : Type 0 where
  pub waits : List ℕ
  pub buffers : List ℕ
  pub signals : List ℕ

-- One call of an entry, with the arguments that matter to the layer's state.
pub data Call : Type 0 where
  create : (o : Object) (args : List ℕ) → Call
  destroy : (o : Object) (handle : ℕ) → Call
  bind_buffer_memory : (buffer memory offset : ℕ) → Call
  bind_buffer_memory2 : (binds : List (ℕ × ℕ × ℕ)) → Call
  bind_image_memory : (image memory offset : ℕ) → Call
  map_memory : (memory : ℕ) → Call
  reset_fence : (fence : ℕ) → Call
  cmd_fill_buffer : (buffer offset size : ℕ) → Call
  cmd_clear_color_image : (image : ℕ) → Call
  cmd_clear_depth_stencil_image : (image : ℕ) → Call
  cmd_copy_buffer : (src dst dst_offset size : ℕ) → Call
  create_descriptor_pool : Call
  destroy_descriptor_pool : (pool : ℕ) → Call
  reset_descriptor_pool : (pool : ℕ) → Call
  allocate_descriptor_sets : (pool : ℕ) (layouts : List ℕ) → Call
  free_descriptor_sets : (pool : ℕ) (sets : List ℕ) → Call
  wait_for_fences : (fence : ℕ) → Call
  get_query_pool_results : (pool count : ℕ) → Call
  cmd_reset_query_pool : (pool count : ℕ) → Call
  allocate_command_buffers : (pool count : ℕ) → Call
  free_command_buffers : (pool buffer : ℕ) → Call
  begin_command_buffer : (buffer : ℕ) → Call
  end_command_buffer : (buffer : ℕ) → Call
  reset_command_buffer : (buffer : ℕ) → Call
  reset_command_pool : (pool : ℕ) → Call
  get_device_queue : (family index : ℕ) → Call
  queue_submit : (queue : ℕ) (submits : List Submit) (fence : ℕ) → Call
  queue_submit2 : (queue : ℕ) (submits : List Submit) (fence : ℕ) → Call
  queue_bind_sparse : (queue binds fence : ℕ) → Call
  device_wait_idle : Call

abbrev pub History : Type 0
History = List Call

pub record Driver : Type 0 where
  pub result : History → Call → VkResult
  pub handle : History → Call → ℕ
  pub handles : History → Call → List ℕ
  pub requirements : History → Object → ℕ → Requirements
