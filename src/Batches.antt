-- ===== src/Batches.antt =====
-- src/staging_resources.cpp and src/staging_resources.hpp: `StagingResources`, what a submission
-- holds until the queue is done with it. The query pools stand with the back of the vector first.
-- What is logged of the queries is left out.
pub mod Closing
pub mod GivenBack
pub mod Returned
pub mod Submitted
mod Tests
use compat_layer.Prelude.{
  ℕ, ◌+◌, ◌-◌, ◌*◌, Bool, true, false, not, ◌&&◌, ◌||◌, List, [], ◌∷◌, ◌++◌, Option, none, some,
  Dict, find, length, ltb, ◌==◌, if◌then◌else◌,
}
use compat_layer.Device.{Device}
use compat_layer.Driver.{Driver, History, Call, Object, VkResult, is_success}
use compat_layer.Descriptors.Tracking.{Tracking}
use compat_layer.Allocator
use compat_layer.Allocator.{Allocator}
use compat_layer.SyncPool
use compat_layer.SyncPool.{Pool}
use compat_layer.Resources
use compat_layer.Resources.Staging.{drop_staging_buffer}

-- The parts of the layer's state that a batch takes from and gives back to.
pub record World : Type 0 where
  pub resources : Resources.State
  pub free_fences : List ℕ
  pub free_semaphores : List ℕ
  pub allocator : Allocator
  pub tracking : Tracking

abbrev pub history_of : World → History
history_of w = w.resources.history

abbrev pub with_history : History → World → World
with_history h w = record w { resources = record w.resources { history = h } }

abbrev pub called : Call → World → World
called c w = with_history (c ∷ history_of w) w

abbrev pub pool_of : World → Pool
pool_of w = record {
  free_fences = w.free_fences;
  free_semaphores = w.free_semaphores;
  history = history_of w;
}

abbrev pub with_pool : Pool → World → World
with_pool s w = record (with_history s.history w) {
  free_fences = s.free_fences;
  free_semaphores = s.free_semaphores;
}

-- `QueryPoolBlock`
pub record Block : Type 0 where
  pub handle : ℕ
  pub allocated_queries : ℕ

-- `TimestampQuery`; the end query is the next one.
pub record Query : Type 0 where
  pub pool_index : ℕ
  pub start_query_id : ℕ

pub record Batch : Type 0 where
  pub completed : ℕ
  pub semaphore : ℕ
  pub freed : Bool
  pub has_completed : Bool
  pub staging_buffers : List ℕ
  pub staging_image_views : List ℕ
  pub descriptor_sets : List (ℕ × ℕ)
  pub query_pools : List Block
  pub tracked_queries : List Query
  pub staging_semaphores : List ℕ

abbrev pub new_batch : Batch
new_batch = record {
  completed = 0;
  semaphore = 0;
  freed = false;
  has_completed = false;
  staging_buffers = [];
  staging_image_views = [];
  descriptor_sets = [];
  query_pools = [];
  tracked_queries = [];
  staging_semaphores = [];
}

abbrev pub is_nil {ℓ} : {A : Type ℓ} → List A → Bool
is_nil [] = true
is_nil (x ∷ xs) = false

unfoldable pub is_empty : Batch → Bool
is_empty b =
    is_nil b.staging_buffers
    && is_nil b.staging_image_views
    && is_nil b.tracked_queries
    && is_nil b.descriptor_sets
    && is_nil b.staging_semaphores
    && b.semaphore == 0
    && b.completed == 0

abbrev pub add_staging_buffer : ℕ → Batch → Batch
add_staging_buffer p b = record b { staging_buffers = b.staging_buffers ++ p ∷ [] }

abbrev pub add_staging_image_view : ℕ → Batch → Batch
add_staging_image_view p b = record b { staging_image_views = b.staging_image_views ++ p ∷ [] }

abbrev pub add_descriptor_set : (pool set : ℕ) → Batch → Batch
add_descriptor_set pool s b = record b { descriptor_sets = b.descriptor_sets ++ (pool, s) ∷ [] }

abbrev pub add_staging_semaphore : ℕ → Batch → Batch
add_staging_semaphore p b = record b { staging_semaphores = b.staging_semaphores ++ p ∷ [] }

-- The semaphore, the fence and what the batch and the world become
unfoldable pub make_fence : Driver → Option Device → Batch → World → (ℕ × ℕ) × Batch × World
make_fence d none b w = ((b.semaphore, b.completed), b, w)
make_fence d (some dev) b w =
    let (semaphore, fence, pool) = SyncPool.acquire d (pool_of w) in
    if not (b.completed == 0) || is_empty b then ((b.semaphore, b.completed), b, w) else (
      (semaphore, fence),
      record b { completed = fence; semaphore = semaphore },
      with_pool pool w,
    )

-- A fence is signalled once a submission that was given it is done; a wait for one that no
-- submission was given since it was made or reset does not return.
unfoldable pub is_submitted : Driver → (fence : ℕ) → History → Bool
is_submitted d f [] = false
is_submitted d f (Call.queue_submit queue submits fence ∷ h) =
    let before = is_submitted d f h in
    fence == f && is_success (d.result h (Call.queue_submit queue submits fence)) || before
is_submitted d f (Call.queue_submit2 queue submits fence ∷ h) =
    let before = is_submitted d f h in
    fence == f && is_success (d.result h (Call.queue_submit2 queue submits fence)) || before
is_submitted d f (Call.queue_bind_sparse queue binds fence ∷ h) =
    let before = is_submitted d f h in
    fence == f && is_success (d.result h (Call.queue_bind_sparse queue binds fence)) || before
is_submitted d f (Call.reset_fence fence ∷ h) =
    let before = is_submitted d f h in not (fence == f) && before
is_submitted d f (Call.create Object.fence args ∷ h) =
    let before = is_submitted d f h in
    not (d.handle h (Call.create Object.fence args) == f) && before
is_submitted d f (_ ∷ h) = is_submitted d f h

-- `none` where the wait does not return: no submission signals the fence, and the driver reports no
-- error, as it does once the device is lost. The result is only logged.
unfoldable pub wait_for_completion : Driver → Option Device → Batch → World → Option (Batch × World)
wait_for_completion d none b w = some (b, w)
wait_for_completion d (some dev) b w =
    let waited : Batch × World =
      (record b { has_completed = true }, called (Call.wait_for_fences b.completed) w) in
    if b.has_completed || b.completed == 0
    then some (b, w)
    else if is_submitted d b.completed (history_of w)
        || not (is_success (d.result (history_of w) (Call.wait_for_fences b.completed)))
    then some waited
    else none

abbrev pub k_pool_block_size : ℕ
k_pool_block_size = 128

-- `queryPools.empty() || queryPools.back().allocatedQueries + 2 > kPoolBlockSize`
abbrev pub needs_pool : List Block → Bool
needs_pool [] = true
needs_pool (p ∷ ps) = ltb k_pool_block_size (p.allocated_queries + 2)

-- The pool and the first query of a new scope, from the block at the back
unfoldable pub take_query : List Block → Batch → Option (ℕ × ℕ) × Batch
take_query [] b = (none, b)
take_query (p ∷ ps) b = (
  some (p.handle, p.allocated_queries),
  record b {
    query_pools = record p { allocated_queries = p.allocated_queries + 2 } ∷ ps;
    tracked_queries =
        b.tracked_queries
        ++ record { pool_index = length ps; start_query_id = p.allocated_queries } ∷ [];
  },
)

-- `none` is a scope without a pool, which writes no timestamps.
unfoldable pub make_scoped_timestamp_query :
    Driver → Option Device → Batch → World → Option (ℕ × ℕ) × Batch × World
make_scoped_timestamp_query d none b w = (none, b, w)
make_scoped_timestamp_query d (some dev) b w =
    let c = Call.create Object.query_pool (k_pool_block_size ∷ []) in
    let pool = d.handle (history_of w) c in
    let grown = record { handle = pool; allocated_queries = 0 } ∷ b.query_pools in
    if not dev.profile_transfers
    then (none, b, w)
    else if not (needs_pool b.query_pools)
    then (let (q, b') = take_query b.query_pools b in (q, b', w))
    else if is_success (d.result (history_of w) c)
    then (let (q, b') = take_query grown b in
        (q, b', called (Call.cmd_reset_query_pool pool k_pool_block_size) (called c w)))
    else (none, b, called c w)

-- The results of the pools, from the front, up to the first that fails: whether none did
unfoldable pub read_results : Driver → List Block → History → Bool × History
read_results d [] h = (true, h)
read_results d (p ∷ ps) h =
    let (ok, h') = read_results d ps h in
    let c = Call.get_query_pool_results p.handle p.allocated_queries in
    if ok then (is_success (d.result h' c), c ∷ h') else (false, h')

unfoldable pub destroy_blocks : List Block → History → History
destroy_blocks [] h = h
destroy_blocks (p ∷ ps) h =
    let h' = destroy_blocks ps h in
    if p.handle == 0 then h' else Call.destroy Object.query_pool p.handle ∷ h'

unfoldable pub drop_buffers : Device → List ℕ → Resources.State → Resources.State
drop_buffers dev [] s = s
drop_buffers dev (p ∷ ps) s = drop_buffers dev ps (drop_staging_buffer dev p s)

-- Whether some buffer is there to be dropped
unfoldable pub finds_any : List ℕ → Resources.State → Bool
finds_any [] s = false
finds_any (p ∷ ps) s =
    let rest = finds_any ps s in elim (find p s.buffers) [ none ↦ rest | some b ↦ true ]

-- The null handles among them are passed over.
unfoldable pub destroy_handles : Object → List ℕ → History → History
destroy_handles o [] h = h
destroy_handles o (p ∷ ps) h = destroy_handles o ps (if p == 0 then h else Call.destroy o p ∷ h)

-- `none` where the allocator would throw.
unfoldable pub free_sets :
    List (ℕ × ℕ) → Allocator.State × Tracking → Option (Allocator.State × Tracking)
free_sets [] s = some s
free_sets ((pool, p) ∷ rest) s = elim (Allocator.free pool p s) [
  | none ↦ none
  | some s' ↦ free_sets rest s'
]

abbrev pub free_world_sets : List (ℕ × ℕ) → World → Option World
free_world_sets sets w =
    let s : Allocator.State = record { allocator = w.allocator; history = history_of w } in
    elim (free_sets sets (s, w.tracking)) [
      | none ↦ none
      | some (s', t) ↦
          some (record (with_history s'.history w) { allocator = s'.allocator; tracking = t })
    ]

-- `completed != VK_NULL_HANDLE && semaphore != VK_NULL_HANDLE`
abbrev pub has_pair : Batch → Bool
has_pair b = not (b.completed == 0) && not (b.semaphore == 0)

abbrev pub release_pair : Batch → World → World
release_pair b w =
    if has_pair b then with_pool (SyncPool.release b.semaphore b.completed (pool_of w)) w else w

-- The timestamps are read if the transfers are profiled.
unfoldable pub read_queries : Driver → Device → Batch → World → World
read_queries d dev b w =
    if dev.profile_transfers && not (is_nil b.query_pools) && not (is_nil b.tracked_queries)
    then with_history (read_results d b.query_pools (history_of w)).1 w
    else w

-- What `Cleanup` does after the pair is released and before the descriptor sets are freed, and
-- what it does after that
unfoldable pub give_back_buffers : Device → Batch → World → World
give_back_buffers dev b w =
    let resources = drop_buffers dev b.staging_buffers w.resources in
    with_history (destroy_handles Object.image_view b.staging_image_views resources.history)
      (record w { resources = resources })

unfoldable pub give_back_pools : Batch → World → World
give_back_pools b w =
    with_history
      (destroy_handles Object.semaphore b.staging_semaphores
        (destroy_blocks b.query_pools (history_of w)))
      w

unfoldable pub give_back : Driver → Device → Batch → World → Option World
give_back d dev b w =
    elim (free_world_sets b.descriptor_sets (give_back_buffers dev b (read_queries d dev b w))) [
      | none ↦ none
      | some w' ↦ some (give_back_pools b w')
    ]

abbrev pub emptied : Batch → Batch
emptied b = record b {
  completed = if has_pair b then 0 else b.completed;
  semaphore = if has_pair b then 0 else b.semaphore;
  freed = true;
  staging_buffers = [];
  staging_image_views = [];
  descriptor_sets = [];
  query_pools = [];
  staging_semaphores = [];
}

-- Where the global lock is taken: to release the pair, and in `DestroyBuffer`.
abbrev pub locks : Batch → World → Bool
locks b w = has_pair b || finds_any b.staging_buffers w.resources

-- `held` is whether the thread holds the global lock, which is not recursive: `none` where it
-- would wait for itself, or the allocator would throw.
unfoldable pub cleanup :
    Driver → (held : Bool) → Option Device → Batch → World → Option (Batch × World)
cleanup d held dev b w = if b.freed || is_empty b then some (b, w) else elim dev [
  | none ↦ some (record b { freed = true }, w)
  | some dv ↦ if held && locks b w then none else elim (give_back d dv b (release_pair b w)) [
    | none ↦ none
    | some w' ↦ some (emptied b, w')
  ]
]
