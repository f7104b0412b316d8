-- ===== src/Queues/Tests.antt =====
-- src/queue.cpp: the submission of the sample, at a driver that never fails.
use compat_layer.Prelude.{
  ℕ, ◌≡◌, true, false, List, [], ◌∷◌, Option, none, refl, some, find, insert, erase,
}
use compat_layer.Driver.{Driver, History, VkResult, is_success}
use compat_layer.Driver.Sample.{numbering, succeeds, sample_device}
use compat_layer.SyncPool.{acquire, take_fence, take_semaphore}
use compat_layer.Batches.{is_submitted, make_fence, is_empty, cleanup, make_scoped_timestamp_query}
use compat_layer.Commands.{
  Layer, allocate_command_buffers, add_command_buffers, add_command_buffer, destroy_entry, recycle,
  kill_descriptor_sets, kill_sets, free_command_buffers, free_each, free_found, destroy_batch,
}
use compat_layer.Queues.OneShot.{
  submit_one_shot, record_found, record_own, submit_own, submit_fenced, await_fence, signal_caller,
  clean_up_registry,
}
use compat_layer.Queues.Sparse.{
  BindInfo, Pass, bind_each, bind_one, record_binds, scoped, on_batch, add_semaphores,
  submit_one_shot_async, emulate_queue_bind_sparse,
}
use compat_layer.Queues.{
  submit_with, take_submits, take_each, take_found, keep, submit_taken, submit_pairs,
}
use compat_layer.Queues.Sample.{start, queues}

abbrev driver : Driver
driver = numbering succeeds

-- Two bindings: the first waits for semaphore 21 and the second signals semaphore 22 and fence 5.
abbrev binding : (waits signals : List ℕ) → BindInfo
binding waits signals = record {
  waits = waits;
  signals = signals;
  buffer_binds = [];
  image_opaque_binds = [];
  image_bind_count = 0;
}

abbrev two : List BindInfo
two = binding (21 ∷ []) [] ∷ binding [] (22 ∷ []) ∷ []

abbrev by_one_shot : Pass → (ℕ → Layer → Layer) → Layer → Option (VkResult × Layer)
by_one_shot = submit_one_shot_async driver sample_device queues 4 0

abbrev no_clear : (History → History) → History → VkResult × History
no_clear run h = (VkResult.success, run h)

-- The two submissions succeed.
two-submitted :
    (elim (emulate_queue_bind_sparse driver sample_device none no_clear by_one_shot 5 two start) [
      | none ↦ false
      | some r ↦ is_success r.0
    ])
    ≡ true
unfolding emulate_queue_bind_sparse bind_each bind_one submit_one_shot allocate_command_buffers
    add_command_buffers add_command_buffer destroy_entry find insert erase record_found record_own
    recycle kill_descriptor_sets kill_sets submit_own submit_fenced await_fence signal_caller
    clean_up_registry submit_with take_submits take_each take_found keep submit_taken submit_pairs
    free_command_buffers free_each free_found destroy_batch cleanup record_binds scoped
    make_scoped_timestamp_query add_semaphores on_batch is_submitted make_fence is_empty acquire
    take_fence take_semaphore
two-submitted = refl
