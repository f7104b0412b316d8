-- ===== src/Queues/OneShot.antt =====
-- src/queue.cpp: `SubmitOneShot`, which records and submits one command buffer of its own.
use compat_layer.Prelude.{
  ℕ, ◌==◌, Bool, not, ◌||◌, List, [], ◌∷◌, Option, none, some, Dict, find, if◌then◌else◌,
}
use compat_layer.Device.{Device}
use compat_layer.Driver.{Driver, Call, Object, Submit, VkResult, is_success}
use compat_layer.Batches.{is_submitted}
use compat_layer.Commands.{
  Layer, layer_history, calling, allocate_command_buffers, free_command_buffers,
  begin_command_buffer,
}
use compat_layer.Queues.{Queue, queue_submit}

-- What the caller asks for; `queue` is the queue to submit to, and `family` the one it is of.
pub record OneShot : Type 0 where
  pub queue : ℕ
  pub family : ℕ
  pub waits : List ℕ
  pub signals : List ℕ
  pub signal_fence : ℕ
  pub async : Bool

abbrev pub first_handle : List ℕ → ℕ
first_handle [] = 0
first_handle (p ∷ ps) = p

module _ (d : Driver) (dev : Device) (queues : Dict Queue) (r : OneShot) where
  -- The label `cleanup_registry`
  unfoldable pub clean_up_registry :
      (pool buffer : ℕ) → VkResult → Layer → Option (VkResult × Layer)
  clean_up_registry pool buffer result s =
      elim (free_command_buffers d (some dev) pool (buffer ∷ []) s) [
        | none ↦ none
        | some s' ↦ some (result, calling (Call.destroy Object.command_pool pool) s')
      ]

  abbrev pub own_submit : (buffer : ℕ) → Submit
  own_submit buffer = record { waits = r.waits; buffers = buffer ∷ []; signals = r.signals }

  abbrev pub empty_submit : Submit
  empty_submit = record { waits = []; buffers = []; signals = [] }

  -- After a wait for its own fence, the caller's fence is signalled with an empty submission.
  unfoldable pub signal_caller : (pool buffer : ℕ) → Layer → Option (VkResult × Layer)
  signal_caller pool buffer s =
      let c = Call.queue_submit r.queue (empty_submit ∷ []) r.signal_fence in
      if r.signal_fence == 0
      then clean_up_registry pool buffer VkResult.success s
      else clean_up_registry pool buffer (d.result (layer_history s) c) (calling c s)

  -- `none` where the wait does not return; an error of it is passed over.
  unfoldable pub await_fence : (pool buffer fence : ℕ) → Layer → Option (VkResult × Layer)
  await_fence pool buffer fence s =
      if is_submitted d fence (layer_history s)
        || not (is_success (d.result (layer_history s) (Call.wait_for_fences fence)))
      then signal_caller pool buffer
          (calling (Call.destroy Object.fence fence) (calling (Call.wait_for_fences fence) s))
      else none

  unfoldable pub submit_fenced : (pool buffer fence : ℕ) → Layer → Option (VkResult × Layer)
  submit_fenced pool buffer fence s =
      elim (queue_submit d (some dev) queues r.queue (own_submit buffer ∷ []) fence s) [
        | none ↦ none
        | some (result, s') ↦
            if not (is_success result)
            then clean_up_registry pool buffer result s'
            else if r.async
            then clean_up_registry pool buffer result s'
            else await_fence pool buffer fence s'
      ]

  -- The fence and the submission
  unfoldable pub submit_own : (pool buffer : ℕ) → Layer → Option (VkResult × Layer)
  submit_own pool buffer s =
      let c = Call.create Object.fence [] in
      if r.async
      then submit_fenced pool buffer r.signal_fence s
      else if is_success (d.result (layer_history s) c)
      then submit_fenced pool buffer (d.handle (layer_history s) c) (calling c s)
      else clean_up_registry pool buffer (d.result (layer_history s) c) (calling c s)

  -- The recording, from the command buffer that was allocated
  unfoldable pub record_own :
      (record_func : ℕ → Layer → Layer) (pool buffer : ℕ) → Layer → Option (VkResult × Layer)
  record_own record_func pool buffer s =
      let c = Call.end_command_buffer buffer in
      elim (begin_command_buffer d buffer s) [
        | none ↦ none
        | some (begun, s1) ↦
            let s2 = record_func buffer s1 in
            let ended = d.result (layer_history s2) c in
            if not (is_success begun)
            then clean_up_registry pool buffer begun s1
            else if is_success ended
            then submit_own pool buffer (calling c s2)
            else clean_up_registry pool buffer ended (calling c s2)
      ]

  -- A command buffer that is not found leaves the pool behind.
  unfoldable pub record_found :
      (record_func : ℕ → Layer → Layer) (pool buffer : ℕ) → Layer → Option (VkResult × Layer)
  record_found record_func pool buffer s = elim (find buffer s.commands) [
    | none ↦ some (VkResult.error_unknown, s)
    | some cb ↦ record_own record_func pool buffer s
  ]

  unfoldable pub submit_one_shot :
      (record_func : ℕ → Layer → Layer) → Layer → Option (VkResult × Layer)
  submit_one_shot record_func s =
      let c = Call.create Object.command_pool (r.family ∷ []) in
      let pool = d.handle (layer_history s) c in
      if not (is_success (d.result (layer_history s) c))
      then some (d.result (layer_history s) c, calling c s)
      else elim (allocate_command_buffers d (some dev) pool 1 (calling c s)) [
        | none ↦ none
        | some (result, handles, s1) ↦
            if is_success result
            then record_found record_func pool (first_handle handles) s1
            else some (result, calling (Call.destroy Object.command_pool pool) s1)
      ]
