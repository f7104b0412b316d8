-- ===== src/Queues.antt =====
-- src/queue.cpp and src/queue.hpp: the queues that the layer knows, and what a submission does with
-- the batches of its command buffers. What the profiler of the GPU counters adds is left out.
-- `none` is an operation that does not return, as in the module of the command buffers.
pub mod Taken
pub mod OneShot
pub mod Chain
pub mod Sparse
pub mod Sample
pub mod Submitted
pub mod Scheduled
mod Tests
use compat_layer.Prelude.{
  ℕ, ◌==◌, Bool, true, false, List, [], ◌∷◌, ◌++◌, map, Option, none, some, Dict, find, insert,
  if◌then◌else◌,
}
use compat_layer.Device.{Device}
use compat_layer.Driver.{Driver, History, Call, Object, Submit, VkResult, is_success}
use compat_layer.Batches.{World, Batch, new_batch, history_of, with_history, called, make_fence}
use compat_layer.Commands.{CommandBuffer, Layer, with_world, layer_history, calling, destroy_batch}

pub record Queue : Type 0 where
  pub family_index : ℕ
  pub queue_index : ℕ

-- `GetDeviceQueue`, with `queuesMap`: the queue and what the map and the layer become
unfoldable pub get_device_queue :
    Driver → (family index : ℕ) → Dict Queue → Layer → ℕ × Dict Queue × Layer
get_device_queue d family index queues s =
    let c = Call.get_device_queue family index in
    let handle = d.handle (layer_history s) c in
    (
      handle,
      insert handle (record { family_index = family; queue_index = index }) queues,
      calling c s,
    )

-- A batch with a semaphore waits for the finalizer; any other ends here, where the lock is held.
unfoldable pub keep : Driver → Option Device → ℕ × ℕ → Batch → Layer → Option (List (ℕ × ℕ) × Layer)
keep d dev pair b s =
    if pair.0 == 0
    then elim (destroy_batch d true dev b s) [ none ↦ none | some s' ↦ some ([], s') ]
    else some (pair ∷ [], record s { pending = s.pending ++ b ∷ [] })

-- One command buffer's batch is taken, and a new one is put in its place.
unfoldable pub take_found :
    Driver → Option Device → (handle : ℕ) → CommandBuffer → Layer → Option (List (ℕ × ℕ) × Layer)
take_found d dev handle cb s =
    let (pair, b, w) = make_fence d dev cb.batch s.world in
    keep d dev pair b (record s {
      world = w;
      commands = insert handle (record cb { batch = new_batch }) s.commands;
    })

-- The semaphores and the fences of the batches of one submission's command buffers
unfoldable pub take_each :
    Driver → Option Device → (handles : List ℕ) → Layer → Option (List (ℕ × ℕ) × Layer)
take_each d dev [] s = some ([], s)
take_each d dev (p ∷ ps) s = elim (find p s.commands) [
  | none ↦ none
  | some cb ↦ elim (take_found d dev p cb s) [
    | none ↦ none
    | some (pairs, s1) ↦ elim (take_each d dev ps s1) [
      | none ↦ none
      | some (rest, s2) ↦ some (pairs ++ rest, s2)
    ]
  ]
]

-- `addSignalSemaphore` for every batch
abbrev pub add_signals : List (ℕ × ℕ) → Submit → Submit
add_signals pairs submit = record submit { signals = submit.signals ++ map (λ e. e.0) pairs }

-- The changed submissions, with the semaphores and the fences
unfoldable pub take_submits :
    Driver → Option Device → List Submit → Layer → Option (List Submit × List (ℕ × ℕ) × Layer)
take_submits d dev [] s = some ([], [], s)
take_submits d dev (submit ∷ submits) s = elim (take_each d dev submit.buffers s) [
  | none ↦ none
  | some (pairs, s1) ↦ elim (take_submits d dev submits s1) [
    | none ↦ none
    | some (rest, more, s2) ↦ some (add_signals pairs submit ∷ rest, pairs ++ more, s2)
  ]
]

-- `addWaitSemaphore` on an empty submission
abbrev pub waiting_for : ℕ → Submit
waiting_for semaphore = record { waits = semaphore ∷ []; buffers = []; signals = [] }

-- Each batch's fence is given to a submission that waits for its semaphore.
unfoldable pub submit_pairs : Driver → (queue : ℕ) → List (ℕ × ℕ) → History → VkResult × History
submit_pairs d queue [] h = (VkResult.success, h)
submit_pairs d queue (pair ∷ pairs) h =
    let c = Call.queue_submit queue (waiting_for pair.0 ∷ []) pair.1 in
    let rest = submit_pairs d queue pairs (c ∷ h) in
    if is_success (d.result h c) then rest else (d.result h c, c ∷ h)

-- The driver's call, and the fences if it succeeds
unfoldable pub submit_taken : Driver → Call → (queue : ℕ) → List (ℕ × ℕ) → Layer → VkResult × Layer
submit_taken d c queue pairs s =
    let (r, h) = submit_pairs d queue pairs (c ∷ layer_history s) in
    if is_success (d.result (layer_history s) c)
    then (r, with_world (with_history h s.world) s)
    else (d.result (layer_history s) c, calling c s)

-- What `QueueSubmit` and `QueueSubmit2` do alike; the driver's call is made from the changed
-- submissions.
unfoldable pub submit_with :
    Driver
    → Option Device
    → Dict Queue
    → (queue : ℕ) → (List Submit → Call)
    → List Submit
    → Layer
    → Option (VkResult × Layer)
submit_with d dev queues queue call submits s = elim (find queue queues) [
  | none ↦ none
  | some q ↦ elim (take_submits d dev submits s) [
    | none ↦ none
    | some (changed, pairs, s') ↦ some (submit_taken d (call changed) queue pairs s')
  ]
]

abbrev pub queue_submit :
    Driver
    → Option Device
    → Dict Queue
    → (queue : ℕ) → List Submit
    → (fence : ℕ) → Layer
    → Option (VkResult × Layer)
queue_submit d dev queues queue submits fence =
    submit_with d dev queues queue (λ changed. Call.queue_submit queue changed fence) submits

abbrev pub queue_submit2 :
    Driver
    → Option Device
    → Dict Queue
    → (queue : ℕ) → List Submit
    → (fence : ℕ) → Layer
    → Option (VkResult × Layer)
queue_submit2 d dev queues queue submits fence =
    submit_with d dev queues queue (λ changed. Call.queue_submit2 queue changed fence) submits

-- `emulate` is the layer's own binding. A driver without the entry has none to call.
unfoldable pub queue_bind_sparse :
    Driver
    → Device
    → Dict Queue
    → (queue binds fence : ℕ) → (has_entry : Bool) → (emulate : Layer → VkResult × Layer) → Layer
    → VkResult × Layer
queue_bind_sparse d dev queues queue binds fence has_entry emulate s =
    let c = Call.queue_bind_sparse queue binds fence in
    elim (find queue queues) [
      | none ↦ (VkResult.error_unknown, s)
      | some q ↦
          if dev.emulate_sparse_binding
          then emulate s
          else if has_entry
          then (d.result (layer_history s) c, calling c s)
          else (VkResult.error_unknown, s)
    ]
