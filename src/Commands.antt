-- ===== src/Commands.antt =====
-- src/command_buffer.cpp and src/command_buffer.hpp: the command buffers that the layer knows, the
-- pools they come from, and the batch and the descriptor sets that each holds. The state of the
-- compute pipeline is compiled in only with ENABLE_COMPUTE_TRACKING, which the build leaves out.
-- An operation that ends as `none` does not return: the thread waits for a lock that it holds,
-- follows a null pointer, or leaves through an exception.
pub mod Live
pub mod Held
pub mod Sample
pub mod Push
pub mod Recycled
pub mod Vertex
pub mod Emulated
pub mod Templates
mod Tests
use compat_layer.Prelude.{
  ℕ, Bool, true, false, List, [], ◌∷◌, ◌++◌, Option, none, some, Dict, find, insert, erase, remove,
  length, if◌then◌else◌,
}
use compat_layer.Device.{Device}
use compat_layer.Driver.{Driver, History, Call, Object, VkResult, is_success}
use compat_layer.Descriptors.Tracking.{sets_of}
use compat_layer.Batches.{World, Batch, new_batch, history_of, called, free_world_sets, cleanup}

pub record CommandBuffer : Type 0 where
  pub pool : ℕ
  pub batch : Batch
  pub live : List (ℕ × ℕ)

-- `commandBuffersMap`, `commandPoolsMap`, and the device's `stagingResourcesQueue`
pub record Layer : Type 0 where
  pub world : World
  pub commands : Dict CommandBuffer
  pub pools : Dict (List ℕ)
  pub pending : List Batch

abbrev pub with_world : World → Layer → Layer
with_world w s = record s { world = w }

abbrev pub layer_history : Layer → History
layer_history s = history_of s.world

abbrev pub calling : Call → Layer → Layer
calling c s = with_world (called c s.world) s

-- The destructor of a batch
unfoldable pub destroy_batch : Driver → (held : Bool) → Option Device → Batch → Layer → Option Layer
destroy_batch d held dev b s = elim (cleanup d held dev b s.world) [
  | none ↦ none
  | some (b', w) ↦ some (with_world w s)
]

-- The end of a command buffer that is replaced or erased while the lock is held
unfoldable pub destroy_entry : Driver → Option Device → Option CommandBuffer → Layer → Option Layer
destroy_entry d dev none s = some s
destroy_entry d dev (some cb) s = destroy_batch d true dev cb.batch s

unfoldable pub kill_sets : List (ℕ × ℕ) → World → Option World
kill_sets [] w = some w
kill_sets (e ∷ rest) w = free_world_sets (e ∷ rest) w

unfoldable pub kill_descriptor_sets : (handle : ℕ) → CommandBuffer → Layer → Option Layer
kill_descriptor_sets handle cb s = elim (kill_sets cb.live s.world) [
  | none ↦ none
  | some w ↦
      some (record s { world = w; commands = insert handle (record cb { live = [] }) s.commands })
]

-- One round of the loop of `AllocateCommandBuffers`
unfoldable pub add_command_buffer :
    Driver → Option Device → (pool handle : ℕ) → Layer → Option Layer
add_command_buffer d dev pool handle s =
    let cb : CommandBuffer = record { pool = pool; batch = new_batch; live = [] } in
    elim (destroy_entry d dev (find handle s.commands) s) [
      | none ↦ none
      | some s' ↦ some (record s' {
        commands = insert handle cb s'.commands;
        pools = insert pool (sets_of pool s'.pools ++ handle ∷ []) s'.pools;
      })
    ]

unfoldable pub add_command_buffers :
    Driver → Option Device → (pool : ℕ) → List ℕ → Layer → Option Layer
add_command_buffers d dev pool [] s = some s
add_command_buffers d dev pool (p ∷ ps) s = elim (add_command_buffer d dev pool p s) [
  | none ↦ none
  | some s' ↦ add_command_buffers d dev pool ps s'
]

-- The result, the handles and what the layer becomes
unfoldable pub allocate_command_buffers :
    Driver → Option Device → (pool count : ℕ) → Layer → Option (VkResult × List ℕ × Layer)
allocate_command_buffers d none pool count s = some (VkResult.error_initialization_failed, [], s)
allocate_command_buffers d (some dev) pool count s =
    let c = Call.allocate_command_buffers pool count in
    let result = d.result (layer_history s) c in
    let handles = d.handles (layer_history s) c in
    if is_success result
    then elim (add_command_buffers d (some dev) pool handles (calling c s)) [
      | none ↦ none
      | some s' ↦ some (VkResult.success, handles, s')
    ]
    else some (result, [], calling c s)

-- One round of the loop of `FreeCommandBuffers`, for a command buffer that is found
unfoldable pub free_found :
    Driver → Device → (pool handle : ℕ) → CommandBuffer → Layer → Option Layer
free_found d dev pool handle cb s = elim (kill_descriptor_sets handle cb s) [
  | none ↦ none
  | some s1 ↦
      let s2 = calling (Call.free_command_buffers pool handle) s1 in
      elim (destroy_batch d true (some dev) cb.batch
        (record s2 { commands = erase handle s2.commands })) [
          | none ↦ none
          | some s3 ↦
              some
                (record s3 { pools = insert pool (remove handle (sets_of pool s3.pools)) s3.pools })
        ]
]

unfoldable pub free_each : Driver → Device → (pool : ℕ) → List ℕ → Layer → Option Layer
free_each d dev pool [] s = some s
free_each d dev pool (p ∷ ps) s =
    let skipped = free_each d dev pool ps s in
    elim (find p s.commands) [
      | none ↦ skipped
      | some cb ↦ elim (free_found d dev pool p cb s) [
        | none ↦ none
        | some s' ↦ free_each d dev pool ps s'
      ]
    ]

unfoldable pub free_command_buffers :
    Driver → Option Device → (pool : ℕ) → List ℕ → Layer → Option Layer
free_command_buffers d none pool handles s = some s
free_command_buffers d (some dev) pool handles s =
    free_each d dev pool handles (record s { pools = insert pool (sets_of pool s.pools) s.pools })

-- What `BeginCommandBuffer` and `ResetCommandBuffer` do alike, before the driver's call
unfoldable pub recycle : Driver → Call → (handle : ℕ) → Layer → Option (VkResult × Layer)
recycle d c handle s = elim (find handle s.commands) [
  | none ↦ none
  | some cb ↦ elim (kill_descriptor_sets handle cb s) [
    | none ↦ none
    | some s' ↦ some (d.result (layer_history s') c, calling c s')
  ]
]

abbrev pub begin_command_buffer : Driver → (handle : ℕ) → Layer → Option (VkResult × Layer)
begin_command_buffer d handle = recycle d (Call.begin_command_buffer handle) handle

abbrev pub reset_command_buffer : Driver → (handle : ℕ) → Layer → Option (VkResult × Layer)
reset_command_buffer d handle = recycle d (Call.reset_command_buffer handle) handle

-- The loop over the command buffers of a pool
unfoldable pub kill_each : List ℕ → Layer → Option Layer
kill_each [] s = some s
kill_each (p ∷ ps) s =
    let skipped = kill_each ps s in
    elim (find p s.commands) [
      | none ↦ skipped
      | some cb ↦ elim (kill_descriptor_sets p cb s) [ none ↦ none | some s' ↦ kill_each ps s' ]
    ]

unfoldable pub reset_command_pool :
    Driver → Option Device → (pool : ℕ) → Layer → Option (VkResult × Layer)
reset_command_pool d none pool s = none
reset_command_pool d (some dev) pool s =
    let c = Call.reset_command_pool pool in
    let handles = sets_of pool s.pools in
    elim (kill_each handles (record s { pools = insert pool handles s.pools })) [
      | none ↦ none
      | some s' ↦ some (d.result (layer_history s') c, calling c s')
    ]

-- The command buffers of the pool stay in the map.
unfoldable pub destroy_command_pool : Option Device → (pool : ℕ) → Layer → Option Layer
destroy_command_pool none pool s = some s
destroy_command_pool (some dev) pool s =
    let handles = sets_of pool s.pools in
    elim (kill_each handles (record s { pools = insert pool handles s.pools })) [
      | none ↦ none
      | some s' ↦ some (
          calling (Call.destroy Object.command_pool pool)
            (record s' { pools = erase pool s'.pools }))
    ]
