-- ===== src/Finalizer/Tests.antt =====
-- src/layer.cpp: the finalizer after a submission that succeeds and after one that is refused, and
-- the end of the device.
use compat_layer.Prelude.{◌≡◌, refl, [], ◌∷◌, some, none, find, false, arith}
use compat_layer.Driver.{Driver, History, Call, Object, VkResult, is_success}
use compat_layer.Driver.Objects.{Supplies, opened}
use compat_layer.Driver.Sample.{numbering, numbering-MakesNewObjects, succeeds, sample_device}
use compat_layer.Batches.{Batch, is_empty, history_of, is_submitted, pool_of}
use compat_layer.Allocator.{init, create_new_pool}
use compat_layer.Queues.Scheduled.{IsScheduled}
use compat_layer.Commands.{Layer}
use compat_layer.Commands.Sample
use compat_layer.SyncPool.Ownership.{IsOwned}
use compat_layer.Queues.{queue_submit}
use compat_layer.Queues.Sample.{start, queues, recording, start-IsScheduled, queue-found}
use compat_layer.Finalizer.{finalizer_round, destroy_device, back_first}
use compat_layer.Finalizer.Round.{never, Finished, finalizer_round-Finished}
use compat_layer.Finalizer.Stuck.{refused-stuck}
use compat_layer.Finalizer.Ending.{AllClosed, destroy_device-closed}

abbrev refuse : History → Call → VkResult
refuse h (Call.queue_submit queue submits fence) = VkResult.error_out_of_host_memory
refuse h c = VkResult.success

abbrev refusing : Driver
refusing = numbering refuse

refusing-Supplies : Supplies refusing
refusing-Supplies h o args = (refl, omega arith)

start-found : find 9 start.commands ≡ some recording
unfolding find
start-found = refl

recording-full : is_empty recording.batch ≡ false
unfolding is_empty
recording-full = refl

refused-stuck_example :
    (r : VkResult × Layer) × (queue_submit refusing
        (some sample_device)
        queues
        4
        (record { waits = []; buffers = 9 ∷ []; signals = [] } ∷ [])
        5
        start
      ≡ some r)
    × (is_success r.0 ≡ false)
    × (finalizer_round refusing (some sample_device) never r.1 ≡ none)
refused-stuck_example =
    refused-stuck refusing (numbering-MakesNewObjects refuse) refusing-Supplies sample_device queues
      (record { family_index = 0; queue_index = 0 }) 4 5 [] [] 9 recording start queue-found
      start-found recording-full refl (start-IsScheduled refusing) (λ h submits. refl) (λ h f. refl)

abbrev driver : Driver
driver = numbering succeeds

-- The batch that the submission of the sample leaves, with its fence 1 and semaphore 2
abbrev waiting : Batch
waiting = record recording.batch { completed = 1; semaphore = 2 }

-- The fence was submitted.
abbrev submitted : Layer
submitted = record start {
  world = record start.world {
    resources = record start.world.resources {
      history =
          Call.queue_submit 4 [] 1
          ∷ Call.create Object.semaphore []
          ∷ Call.create Object.fence []
          ∷ [];
    };
  };
  pending = waiting ∷ [];
}

submitted-IsScheduled : IsScheduled driver submitted
unfolding opened is_submitted
submitted-IsScheduled =
    let (fences, semaphores, k) = start-IsScheduled driver in
    (
      1 ∷ [],
      2 ∷ [],
      record {
        owned = record { fence = λ p. ground arith; semaphore = λ p. ground arith };
        fresh = k.fresh;
        waits = (record { signalled = refl; pair = refl; freed = refl; sets = refl }, tt);
      },
    )

finalizer_round-Finished_example :
    (s' : Layer) × (finalizer_round driver (some sample_device) never submitted ≡ some s')
    × (s'.pending ≡ [])
    × Finished driver (back_first submitted.pending) submitted.world s'.world
finalizer_round-Finished_example =
    finalizer_round-Finished driver sample_device submitted submitted-IsScheduled

start-IsOwned : IsOwned driver [] [] (pool_of Sample.start.world)
unfolding opened init create_new_pool
start-IsOwned = record { fence = λ p. refl; semaphore = λ p. refl }

destroy_device-closed_example :
    (s' : Layer) × (destroy_device driver (some sample_device) Sample.start ≡ some s')
    × AllClosed driver (history_of s'.world)
destroy_device-closed_example =
    destroy_device-closed driver sample_device [] Sample.start start-IsOwned
      Sample.start-IsHeld.valid refl
