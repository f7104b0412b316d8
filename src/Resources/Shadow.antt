-- ===== src/Resources/Shadow.antt =====
-- src/sparse_binding.cpp: the memory behind a sparse buffer or image, from creation on.
-- `submit` stands for `SubmitOneShot` of src/queue.cpp: it runs the recording on a command buffer.
use compat_layer.Prelude.{ℕ, Bool, true, false, [], ◌∷◌, Option, none, some, if◌then◌else◌}
use compat_layer.Device.{Device}
use compat_layer.Formats.{block_shape}
use compat_layer.Driver.{Driver, History, Call, Object, VkResult, Requirements, is_success}
use compat_layer.Memory.{find_memory_type, any_property}
use compat_layer.Sparse.Budget.{get_sparse_budget, reserve_budget, release_budget}
use compat_layer.Resources.{
  State, DenseSparseResource, Kind, of_buffer, of_image, color, depth, call, bind_buffer_memory,
}

unfoldable pub record_clear : Kind → (offset size : ℕ) → History → History
record_clear (of_buffer buffer) offset size h = Call.cmd_fill_buffer buffer offset size ∷ h
record_clear (of_image image color granularity resident) offset size h =
    Call.cmd_clear_color_image image ∷ h
record_clear (of_image image depth granularity resident) offset size h =
    Call.cmd_clear_depth_stencil_image image ∷ h

abbrev pub record_clear_resource : DenseSparseResource → (offset size : ℕ) → History → History
record_clear_resource res = record_clear res.kind

-- What the bind leaves: the result, and the resource if it succeeds.
abbrev pub Bound : Type 0
Bound = VkResult × Option DenseSparseResource × State

module _ (d : Driver) (env : Option ℕ) (dev : Device) where
  abbrev pub reserve : ℕ → State → Bool × ℕ
  reserve size s = reserve_budget (get_sparse_budget env) size s.committed

  abbrev pub allocation : Requirements → Call
  allocation reqs =
      Call.create Object.memory (reqs.size ∷ find_memory_type dev reqs.type_bits any_property ∷ [])

  -- The budget and the shadow memory, which both functions ask for in the same words. On failure
  -- the buffer or image is destroyed.
  unfoldable pub allocate_shadow :
      (o : Object) (handle : ℕ) (reqs : Requirements) → State → VkResult × ℕ × State
  allocate_shadow o handle reqs s =
      let (reserved, committed) = reserve reqs.size s in
      let s1 = record s { committed = committed } in
      let c = allocation reqs in
      let result = d.result s1.history c in
      let memory = d.handle s1.history c in
      let s2 = call c s1 in
      if reserved
      then (if is_success result then (result, memory, s2) else (
        result,
        0,
        call (Call.destroy o handle)
            (record s2 { committed = release_budget reqs.size s2.committed }),
      ))
      else (VkResult.error_out_of_device_memory, 0, call (Call.destroy o handle) s1)

  module _ (submit : (History → History) → History → VkResult × History) where
    unfoldable pub clear_resource : DenseSparseResource → (offset size : ℕ) → State → State
    clear_resource res offset size s = record s {
      history = (submit (record_clear_resource res offset size) s.history).1;
    }

    unfoldable pub bind_sparse_buffer : (handle size : ℕ) → State → Bound
    bind_sparse_buffer handle size s =
        let reqs = d.requirements s.history Object.buffer handle in
        let (result, memory, s1) = allocate_shadow Object.buffer handle reqs s in
        let s2 = (bind_buffer_memory d (some dev) handle memory 0 s1).1 in
        let res : DenseSparseResource = record {
          kind = of_buffer handle;
          shadow_memory = memory;
          virtual_size = size;
          page_granularity = reqs.alignment;
          memory_type = find_memory_type dev reqs.type_bits any_property;
        } in
        if is_success result
        then (VkResult.success, some res, clear_resource res 0 size s2)
        else (result, none, s1)

  unfoldable pub bind_sparse_image : (handle format : ℕ) (is_depth : Bool) → State → Bound
  bind_sparse_image handle format is_depth s =
      let reqs = d.requirements s.history Object.image handle in
      let (result, memory, s1) = allocate_shadow Object.image handle reqs s in
      let res : DenseSparseResource = record {
        kind = of_image handle (if is_depth then depth else color) (block_shape format) false;
        shadow_memory = memory;
        virtual_size = reqs.size;
        page_granularity = 0;
        memory_type = find_memory_type dev reqs.type_bits any_property;
      } in
      if is_success result
      then (VkResult.success, some res, call (Call.bind_image_memory handle memory 0) s1)
      else (result, none, s1)

-- `DestroySparseBuffer` and `DestroySparseImage` on what `find_sparse_…` found
unfoldable pub destroy_sparse : Option DenseSparseResource → State → Bool × State
destroy_sparse none s = (false, s)
destroy_sparse (some res) s = (
  true,
  record (call (Call.destroy Object.memory res.shadow_memory) s) {
    committed = release_budget res.virtual_size s.committed;
  },
)
