-- ===== src/Batches/Tests.antt =====
-- src/staging_resources.cpp: a batch that was submitted, and the theorem on `Cleanup` at it.
use compat_layer.Prelude.{◌≡◌, refl, [], ◌∷◌, true, false, some, none, ◌||◌}
use compat_layer.Driver.{Driver}
use compat_layer.Driver.Sample.{numbering, succeeds, sample_device}
use compat_layer.SyncPool.{acquire, take_fence, take_semaphore}
use compat_layer.Batches.{
  World, Batch, new_batch, add_staging_buffer, add_staging_image_view, is_empty, make_fence,
  is_submitted, wait_for_completion, cleanup,
}
use compat_layer.Batches.Returned.{IsReturned, cleanup-IsReturned}

abbrev driver : Driver
driver = numbering succeeds

-- Buffer 5 with memory 6
abbrev start : World
start = record {
  resources = record {
    buffers =
        (5, record { memory = 6; size = 64; offset = 0; id = 0; owns_memory = true; sparse = none })
        ∷ [];
    images = [];
    committed = 0;
    next_id = 1;
    history = [];
  };
  free_fences = [];
  free_semaphores = [];
  allocator = record { active_pool = 0; exhausted_pools = []; occupancy = []; allocated_count = 0 };
  tracking = record { sets = []; pools = [] };
}

abbrev recorded : Batch
recorded = add_staging_image_view 7 (add_staging_buffer 5 new_batch)

-- The fence is 1 and the semaphore 2.
make_fence-recorded : (make_fence driver (some sample_device) recorded start).0 ≡ (2, 1)
unfolding make_fence is_empty acquire take_fence take_semaphore
make_fence-recorded = refl

abbrev fenced : Batch
fenced = record recorded { completed = 1; semaphore = 2 }

-- Nobody submits the fence.
wait_for_completion-stuck : wait_for_completion driver (some sample_device) fenced start ≡ none
unfolding wait_for_completion is_submitted
wait_for_completion-stuck = refl

-- A thread with the lock waits for itself.
cleanup-stuck : cleanup driver true (some sample_device) fenced start ≡ none
unfolding cleanup is_empty
cleanup-stuck = refl

fenced-full : fenced.freed || is_empty fenced ≡ false
unfolding is_empty
fenced-full = refl

cleanup-IsReturned_example :
    (r : Batch × World) × (cleanup driver false (some sample_device) fenced start ≡ some r)
    × IsReturned driver fenced start r.0 r.1
cleanup-IsReturned_example =
    cleanup-IsReturned driver sample_device fenced start false fenced-full refl refl
