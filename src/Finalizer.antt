-- ===== src/Finalizer.antt =====
-- src/layer.cpp: `FinalizerThread`, which waits for the batches that were submitted and cleans them
-- up, and the end of the device in `DestroyDevice`, up to the null resources.
pub mod Round
pub mod Stuck
pub mod Ending
mod Tests
use compat_layer.Prelude.{
  ℕ, Bool, true, false, List, [], ◌∷◌, ◌++◌, Option, none, some, length, if◌then◌else◌,
}
use compat_layer.Device.{Device}
use compat_layer.Driver.{Driver, Call}
use compat_layer.SyncPool.{destroy_pool}
use compat_layer.Allocator
use compat_layer.Batches.{
  World, Batch, history_of, with_history, pool_of, wait_for_completion, cleanup,
}
use compat_layer.Commands.{Layer, with_world, calling}
use compat_layer.Commands.Held.{allocator_of}

-- `queue.back()` first
abbrev pub back_first {ℓ} : {A : Type ℓ} → List A → List A
back_first [] = []
back_first (x ∷ xs) = back_first xs ++ x ∷ []

-- The destructors of the batches of a queue, or their `Cleanup` one by one
unfoldable pub clean_each :
    Driver → (held : Bool) → Option Device → List Batch → World → Option World
clean_each d held dev [] w = some w
clean_each d held dev (b ∷ bs) w = elim (cleanup d held dev b w) [
  | none ↦ none
  | some (b', w') ↦ clean_each d held dev bs w'
]

-- The loop over the queue that the thread has taken. `stops` is what `stop_thread` says when so
-- many batches are left; the rest of the queue is then cleaned up without a wait.
unfoldable pub finalize :
    Driver → Option Device → (stops : ℕ → Bool) → List Batch → World → Option World
finalize d dev stops [] w = some w
finalize d dev stops (b ∷ bs) w =
    let left = clean_each d false dev (b ∷ bs) w in
    if stops (length (b ∷ bs)) then left else elim (wait_for_completion d dev b w) [
      | none ↦ none
      | some (b', w1) ↦ elim (cleanup d false dev b' w1) [
        | none ↦ none
        | some (b'', w2) ↦ finalize d dev stops bs w2
      ]
    ]

-- One round of the thread, when there is work: it takes the whole queue.
unfoldable pub finalizer_round : Driver → Option Device → (stops : ℕ → Bool) → Layer → Option Layer
finalizer_round d dev stops s = elim (finalize d dev stops (back_first s.pending) s.world) [
  | none ↦ none
  | some w ↦ some (record s { world = w; pending = [] })
]

-- What is left of the pools when they are destroyed
unfoldable pub drop_pools : World → World
drop_pools w =
    let emptied = record (with_history (destroy_pool (pool_of w)) w) {
      free_fences = [];
      free_semaphores = [];
    } in
    let a = Allocator.cleanup (allocator_of emptied) in
    record (with_history a.history emptied) { allocator = a.allocator }

-- `DestroyDevice`, once the thread has ended: the lock is held over every `Cleanup`.
unfoldable pub destroy_device : Driver → Option Device → Layer → Option Layer
destroy_device d none s = some s
destroy_device d (some dev) s =
    let idle = calling Call.device_wait_idle s in
    elim (clean_each d true (some dev) s.pending idle.world) [
      | none ↦ none
      | some w ↦ some (record idle { world = drop_pools w; pending = [] })
    ]
