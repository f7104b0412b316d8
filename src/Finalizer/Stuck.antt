-- ===== src/Finalizer/Stuck.antt =====
-- src/queue.cpp and src/layer.cpp: a submission that the driver refuses leaves a batch whose fence
-- nobody signals, and `FinalizerThread` waits for it as long as the device is not lost.
use compat_layer.Prelude.{
  ℕ, ◌≡◌, refl, ap, ◌∙◌, true, false, Bool, ◌&&◌, ◌||◌, not, List, [], ◌∷◌, ◌++◌, none, some, Dict,
  find, insert, ◌==◌, arith,
}
use compat_layer.Device.{Device}
use compat_layer.Driver.{Driver, History, Call, Submit, VkResult, is_success}
use compat_layer.Driver.Objects.{MakesNewObjects, Supplies}
use compat_layer.SyncPool.{acquire}
use compat_layer.Batches.{
  Batch, new_batch, pool_of, with_pool, is_empty, is_submitted, wait_for_completion,
}
use compat_layer.Batches.Submitted.{acquire-submitted}
use compat_layer.Commands.{CommandBuffer, Layer, calling}
use compat_layer.Queues.{
  Queue, take_found, take_each, take_submits, add_signals, submit_taken, submit_with, queue_submit,
}
use compat_layer.Queues.Taken.{take_found-full, semaphore-null, fence-null}
use compat_layer.Queues.Scheduled.{IsScheduled}
use compat_layer.Finalizer.{finalize, finalizer_round, back_first}
use compat_layer.Finalizer.Round.{never}

and_false : (x : Bool) → (x && false) || false ≡ false
and_false true = refl
and_false false = refl

not_itself : (x : ℕ) (b : Bool) → not (x == x) && b ≡ false
not_itself x b = ground arith

module _ (d : Driver) (new : MakesNewObjects d) (supplies : Supplies d) (dev : Device) where
  stuck :
      (b : Batch) (s : Layer)
      → s.pending ≡ b ∷ []
      → b.has_completed ≡ false
      → (b.completed == 0) ≡ false
      → is_submitted d b.completed s.world.resources.history ≡ false
      → is_success (d.result s.world.resources.history (Call.wait_for_fences b.completed)) ≡ true
      → finalizer_round d (some dev) never s ≡ none
  unfolding finalizer_round finalize wait_for_completion
  stuck b s e c z k lost =
      ap
        (λ bs. elim (finalize d (some dev) never (back_first bs) s.world) [
          | none ↦ none
          | some w ↦ some (record s { world = w; pending = [] })
        ])
        e
      ∙ rw (c, z, k, lost, finalize, wait_for_completion) refl

  abbrev just : (waits : List ℕ) (handle : ℕ) (signals : List ℕ) → Submit
  just waits handle signals = record { waits = waits; buffers = handle ∷ []; signals = signals }

  submit_with-taken :
      (queues : Dict Queue) (q : Queue) (queue : ℕ) (call : List Submit → Call)
      (waits signals : List ℕ) (handle : ℕ) (cb : CommandBuffer) (pair : ℕ × ℕ) (s s1 : Layer)
      → find queue queues ≡ some q
      → find handle s.commands ≡ some cb
      → take_found d (some dev) handle cb s ≡ some (pair ∷ [], s1)
      → submit_with d (some dev) queues queue call (just waits handle signals ∷ []) s
        ≡ some (
            submit_taken d
              (call (add_signals (pair ∷ []) (just waits handle signals) ∷ []))
              queue
              (pair ∷ [])
              s1)
  unfolding submit_with take_submits take_each
  submit_with-taken queues q queue call waits signals handle cb pair s s1 e k t =
      rw (e, k, t, submit_with, take_submits, take_each) refl

  submit_taken-refused :
      (c : Call) (queue : ℕ) (pairs : List (ℕ × ℕ)) (s : Layer)
      → is_success (d.result s.world.resources.history c) ≡ false
      → submit_taken d c queue pairs s ≡ (d.result s.world.resources.history c, calling c s)
  unfolding submit_taken
  submit_taken-refused c queue pairs s e = rw (e, submit_taken) refl

  not_submitted :
      (queue : ℕ) (submits : List Submit) (fence f : ℕ) (h : History)
      → is_success (d.result h (Call.queue_submit queue submits fence)) ≡ false
      → is_submitted d f h ≡ false
      → is_submitted d f (Call.queue_submit queue submits fence ∷ h) ≡ false
  unfolding is_submitted
  not_submitted queue submits fence f h e k = rw (e, k) (and_false (fence == f))

  -- When the driver refuses the submission of a command buffer with a batch that holds something,
  -- `QueueSubmit` returns its error, and the round of the finalizer that follows does not return,
  -- unless the driver ends the wait with an error, as it does once the device is lost.
  pub refused-stuck :
      (queues : Dict Queue) (q : Queue) (queue fence : ℕ) (waits signals : List ℕ) (handle : ℕ)
      (cb : CommandBuffer) (s : Layer)
      → find queue queues ≡ some q
      → find handle s.commands ≡ some cb
      → is_empty cb.batch ≡ false
      → s.pending ≡ []
      → IsScheduled d s
      → ((h : History) (submits : List Submit)
          → is_success (d.result h (Call.queue_submit queue submits fence)) ≡ false)
      → ((h : History) (f : ℕ) → is_success (d.result h (Call.wait_for_fences f)) ≡ true)
      → (r : VkResult × Layer) × (queue_submit d
            (some dev)
            queues
            queue
            (just waits handle signals ∷ [])
            fence
            s
          ≡ some r)
        × (is_success r.0 ≡ false)
        × (finalizer_round d (some dev) never r.1 ≡ none)
  refused-stuck queues q queue fence waits signals handle cb s e k full empty (fs, ss, t) refuses
        waits_on =
      let fresh = t.fresh handle cb k in
      let (semaphore, f, pool) = acquire d (pool_of s.world) in
      let b : Batch = record cb.batch { completed = f; semaphore = semaphore } in
      let s1 : Layer = record s {
        world = with_pool pool s.world;
        commands = insert handle (record cb { batch = new_batch }) s.commands;
        pending = s.pending ++ b ∷ [];
      } in
      let no_semaphore = semaphore-null d new supplies dev [] fs ss handle cb s k t in
      let no_fence = fence-null d new supplies dev [] fs ss handle cb s k t in
      let changed = add_signals ((semaphore, f) ∷ []) (just waits handle signals) ∷ [] in
      let c = Call.queue_submit queue changed fence in
      (
        (d.result pool.history c, calling c s1),
        submit_with-taken queues q queue (λ x. Call.queue_submit queue x fence) waits signals handle
              cb (semaphore, f) s s1 e k (take_found-full d dev handle cb s fresh full no_semaphore)
            ∙ ap some (
                submit_taken-refused c queue ((semaphore, f) ∷ []) s1
                  (refuses pool.history changed)),
        refuses pool.history changed,
        stuck b (calling c s1) (ap (λ x. x ++ b ∷ []) empty) fresh.waited no_fence
            (not_submitted queue changed fence f pool.history (refuses pool.history changed) (
              acquire-submitted d f (pool_of s.world)
              ∙ not_itself f (is_submitted d f s.world.resources.history)))
            (waits_on (c ∷ pool.history) f),
      )
