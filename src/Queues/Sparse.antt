-- ===== src/Queues/Sparse.antt =====
-- src/sparse_binding.cpp: `EmulatevkQueueBindSparse` and what it records. Waits and signals pass
-- from one binding to the next through semaphores of the layer's own.
use compat_layer.Prelude.{
  ℕ, ◌==◌, Bool, true, false, ◌&&◌, List, [], ◌∷◌, ◌++◌, Option, none, some, Dict, find, insert,
  if◌then◌else◌,
}
use compat_layer.Device.{Device}
use compat_layer.Driver.{Driver, History, Call, Object, VkResult, is_success}
use compat_layer.Batches.{
  Batch, add_staging_buffer, add_staging_semaphore, make_scoped_timestamp_query, is_nil,
}
use compat_layer.Commands.{Layer, with_world, layer_history, calling}
use compat_layer.Queues.{Queue}
use compat_layer.Queues.OneShot.{submit_one_shot}
use compat_layer.Resources
use compat_layer.Resources.{Aspect, Kind, DenseSparseResource, of_buffer, of_image}
use compat_layer.Resources.Shadow.{record_clear_resource}
use compat_layer.Resources.Staging.{create_staging_buffer}

-- `VkSparseMemoryBind`; `metadata` is its flag.
pub record MemoryBind : Type 0 where
  pub resource_offset : ℕ
  pub size : ℕ
  pub memory : ℕ
  pub metadata : Bool

-- `VkBindSparseInfo`; of the image binds only the number matters.
pub record BindInfo : Type 0 where
  pub waits : List ℕ
  pub signals : List ℕ
  pub buffer_binds : List (ℕ × List MemoryBind)
  pub image_opaque_binds : List (ℕ × List MemoryBind)
  pub image_bind_count : ℕ

-- A change to the batch of a command buffer
unfoldable pub on_batch : (Batch → Batch) → (handle : ℕ) → Layer → Layer
on_batch f handle s = elim (find handle s.commands) [
  | none ↦ s
  | some cb ↦ record s { commands = insert handle (record cb { batch = f cb.batch }) s.commands }
]

abbrev pub with_resources : Resources.State → Layer → Layer
with_resources t s = with_world (record s.world { resources = t }) s

abbrev pub sparse_of_buffer : ℕ → Layer → Option DenseSparseResource
sparse_of_buffer buffer s = elim (find buffer s.world.resources.buffers) [
  | none ↦ none
  | some b ↦ b.sparse
]

abbrev pub sparse_of_image : ℕ → Layer → Option DenseSparseResource
sparse_of_image image s = elim (find image s.world.resources.images) [
  | none ↦ none
  | some i ↦ i.sparse
]

abbrev pub clearing : DenseSparseResource → (offset size : ℕ) → Layer → Layer
clearing res offset size s =
    let t = s.world.resources in
    with_resources (record t { history = record_clear_resource res offset size t.history }) s

-- `res->imageResident = …`, with the image it is of
abbrev pub with_resident : Bool → DenseSparseResource → DenseSparseResource
with_resident resident res = elim res.kind [
  | of_buffer buffer ↦ res
  | of_image image aspect granularity was ↦ record res {
    kind = of_image image aspect granularity resident;
  }
]

unfoldable pub set_resident : Bool → (image : ℕ) → DenseSparseResource → Layer → Layer
set_resident resident image res s = elim (find image s.world.resources.images) [
  | none ↦ s
  | some i ↦
      let t = s.world.resources in
      with_resources
        (record t {
          images = insert image (record i { sparse = some (with_resident resident res) }) t.images;
        })
        s
]

module _ (d : Driver) (dev : Device) (env : Option ℕ)
    (submit : (History → History) → History → VkResult × History) where
  -- The staging buffer is bound at the start of the memory.
  unfoldable pub copy_in : (handle buffer : ℕ) → MemoryBind → Layer → Layer
  copy_in handle buffer bind s =
      let (made, t) =
        create_staging_buffer d dev env submit bind.size 1 bind.memory s.world.resources in
      elim made [
        | none ↦ with_resources t s
        | some src ↦ on_batch (add_staging_buffer src) handle (
            calling (Call.cmd_copy_buffer src buffer bind.resource_offset bind.size)
              (with_resources t s))
      ]

  unfoldable pub record_buffer_bind :
      (handle buffer : ℕ) → DenseSparseResource → MemoryBind → Layer → Layer
  record_buffer_bind handle buffer res bind s =
      if bind.metadata
      then s
      else if bind.memory == 0
      then clearing res bind.resource_offset bind.size s
      else copy_in handle buffer bind s

  unfoldable pub record_each_buffer_bind :
      (handle buffer : ℕ) → DenseSparseResource → List MemoryBind → Layer → Layer
  record_each_buffer_bind handle buffer res [] s = s
  record_each_buffer_bind handle buffer res (bind ∷ binds) s =
      record_each_buffer_bind handle buffer res binds (record_buffer_bind handle buffer res bind s)

  -- `RecordBufferBinds`, for each buffer
  unfoldable pub record_buffer_binds : (handle : ℕ) → List (ℕ × List MemoryBind) → Layer → Layer
  record_buffer_binds handle [] s = s
  record_buffer_binds handle ((buffer, binds) ∷ rest) s =
      let skipped = record_buffer_binds handle rest s in
      elim (sparse_of_buffer buffer s) [
        | none ↦ skipped
        | some res ↦
            record_buffer_binds handle rest (record_each_buffer_bind handle buffer res binds s)
      ]

unfoldable pub record_image_opaque_bind :
    (image : ℕ) → DenseSparseResource → MemoryBind → Layer → Layer
record_image_opaque_bind image res bind s =
    if bind.metadata
    then s
    else if bind.memory == 0
    then clearing res 0 res.virtual_size (set_resident false image res s)
    else set_resident true image res s

unfoldable pub record_each_image_bind :
    (image : ℕ) → DenseSparseResource → List MemoryBind → Layer → Layer
record_each_image_bind image res [] s = s
record_each_image_bind image res (bind ∷ binds) s =
    record_each_image_bind image res binds (record_image_opaque_bind image res bind s)

-- `RecordImageOpaqueBinds`, for each image
unfoldable pub record_image_opaque_binds : List (ℕ × List MemoryBind) → Layer → Layer
record_image_opaque_binds [] s = s
record_image_opaque_binds ((image, binds) ∷ rest) s =
    let skipped = record_image_opaque_binds rest s in
    elim (sparse_of_image image s) [
      | none ↦ skipped
      | some res ↦ record_image_opaque_binds rest (record_each_image_bind image res binds s)
    ]

-- A `ScopedTimestampQuery` that ends at once; what it writes is not part of the state.
unfoldable pub scoped : Driver → Device → (handle : ℕ) → Layer → Layer
scoped d dev handle s = elim (find handle s.commands) [
  | none ↦ s
  | some cb ↦
      let (query, b, w) = make_scoped_timestamp_query d (some dev) cb.batch s.world in
      record s { world = w; commands = insert handle (record cb { batch = b }) s.commands }
]

unfoldable pub add_semaphores : List ℕ → (handle : ℕ) → Layer → Layer
add_semaphores [] handle s = s
add_semaphores (p ∷ ps) handle s =
    add_semaphores ps handle (on_batch (add_staging_semaphore p) handle s)

-- What is recorded for one binding; the last one takes the layer's semaphores with it.
unfoldable pub record_binds :
    Driver
    → Device
    → (env : Option ℕ) → (submit : (History → History) → History → VkResult × History) → BindInfo
    → (final : Bool) → (staged : List ℕ) → (handle : ℕ) → Layer
    → Layer
record_binds d dev env submit info final staged handle s =
    let s1 = scoped d dev handle (if final then add_semaphores staged handle s else s) in
    let s2 =
      if is_nil info.buffer_binds
      then s1
      else record_buffer_binds d dev env submit handle info.buffer_binds (scoped d dev handle s1) in
    if is_nil info.image_opaque_binds && info.image_bind_count == 0
    then s2
    else record_image_opaque_binds info.image_opaque_binds (scoped d dev handle s2)

-- What a submission waits for and signals
pub record Pass : Type 0 where
  pub waits : List ℕ
  pub signals : List ℕ
  pub fence : ℕ

-- `if (prev_semaphore != VK_NULL_HANDLE) waits.push_back(prev_semaphore)`
abbrev pub carried : (prev : ℕ) → List ℕ
carried prev = if prev == 0 then [] else prev ∷ []

-- The loop over the bindings, for any way to make a semaphore and to submit
module _ {S : Type 0} (create : S → VkResult × ℕ × S)
    (shot : BindInfo → (final : Bool) → (staged : List ℕ) → Pass → S → Option (VkResult × S))
    (fence : ℕ) where
  -- A binding that is not the last one; `rest` is the loop after it.
  unfoldable pub bind_one :
      (prev : ℕ) (staged : List ℕ)
      → BindInfo
      → (rest : (next : ℕ) (held : List ℕ) → S → Option (VkResult × S)) → S
      → Option (VkResult × S)
  bind_one prev staged info rest s =
      let (result, next, s1) = create s in
      let held = staged ++ next ∷ [] in
      let pass : Pass = record {
        waits = info.waits ++ carried prev;
        signals = info.signals ++ next ∷ [];
        fence = 0;
      } in
      if is_success result
      then elim (shot info false held pass s1) [
        | none ↦ none
        | some (submitted, s2) ↦
            if is_success submitted then rest next held s2 else some (submitted, s2)
      ]
      else some (result, s1)

  unfoldable pub bind_each :
      (prev : ℕ) (staged : List ℕ) → List BindInfo → S → Option (VkResult × S)
  bind_each prev staged [] s = some (VkResult.success, s)
  bind_each prev staged (info ∷ infos) s =
      let last : Pass = record {
        waits = info.waits ++ carried prev;
        signals = info.signals;
        fence = fence;
      } in
      if is_nil infos
      then shot info true staged last s
      else bind_one prev staged info (λ next held. bind_each next held infos) s

abbrev pub create_semaphore : Driver → Layer → VkResult × ℕ × Layer
create_semaphore d s =
    let c = Call.create Object.semaphore [] in
    (d.result (layer_history s) c, d.handle (layer_history s) c, calling c s)

-- `one_shot` is `SubmitOneShot` on the queue, which waits for the submission.
unfoldable pub emulate_queue_bind_sparse :
    Driver
    → Device
    → (env : Option ℕ) → (submit : (History → History) → History → VkResult × History)
    → (one_shot : Pass → (ℕ → Layer → Layer) → Layer → Option (VkResult × Layer)) → (fence : ℕ)
    → List BindInfo
    → Layer
    → Option (VkResult × Layer)
emulate_queue_bind_sparse d dev env submit one_shot fence =
    bind_each (create_semaphore d)
      (λ info final staged pass. one_shot pass (record_binds d dev env submit info final staged))
      fence 0 []

-- `SubmitOneShotAsync` on the queue: it passes no wish to be asynchronous on.
abbrev pub submit_one_shot_async :
    Driver
    → Device
    → Dict Queue
    → (queue family : ℕ) → Pass
    → (ℕ → Layer → Layer)
    → Layer
    → Option (VkResult × Layer)
submit_one_shot_async d dev queues queue family pass = submit_one_shot d dev queues (record {
  queue = queue;
  family = family;
  waits = pass.waits;
  signals = pass.signals;
  signal_fence = pass.fence;
  async = false;
})
