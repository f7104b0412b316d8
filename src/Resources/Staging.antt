-- ===== src/Resources/Staging.antt =====
-- src/buffer.cpp and src/staging_resources.cpp: staging buffers, which the layer makes for itself
-- and `StagingResources::Cleanup` gives back. Labels are left out.
pub mod Give
pub mod Life
mod Tests
use compat_layer.Prelude.{
  ℕ, ◌+◌, ◌*◌, ◌/◌, ◌%◌, ◌^◌, Bool, true, not, [], ◌∷◌, Option, none, some, Dict, find, insert,
  ◌==◌, if◌then◌else◌,
}
use compat_layer.Device.{Device}
use compat_layer.Driver.{Driver, History, Call, Object, VkResult, is_success}
use compat_layer.Memory.{find_memory_type, any_property}
use compat_layer.Resources.{State, Buffer, call, bind_buffer_memory}
use compat_layer.Resources.Buffers.{create_buffer, destroy_buffer}

-- `(size + 15) & ~15`
abbrev pub round_up : ℕ → ℕ
round_up size = (size + 15) % 2 ^ 64 / 16 * 16

-- A write through the pointer that `find_buffer` gave
unfoldable pub update : (Buffer → Buffer) → (handle : ℕ) → Dict Buffer → Dict Buffer
update f handle m = elim (find handle m) [ none ↦ m | some b ↦ insert handle (f b) m ]

-- `stagingBuf->owns_memory = true`
abbrev pub own_memory : Buffer → Buffer
own_memory b = record b { owns_memory = true }

-- `bufferIdCounter.fetch_add(1)`, on the 32 bits of an int
unfoldable pub give_id : (handle : ℕ) → State → State
give_id handle s = record s {
  buffers = update (λ b. record b { id = s.next_id }) handle s.buffers;
  next_id = (s.next_id + 1) % 2 ^ 32;
}

module _ (d : Driver) (dev : Device) where
  -- The memory to bind: the caller's, or memory that the buffer owns.
  unfoldable pub obtain_memory : (handle memory : ℕ) → State → Option ℕ × State
  obtain_memory handle memory s =
      let reqs = d.requirements s.history Object.buffer handle in
      let c =
        Call.create Object.memory
          (reqs.size ∷ find_memory_type dev reqs.type_bits any_property ∷ []) in
      let allocated = call c s in
      if not (memory == 0)
      then (some memory, s)
      else (if is_success (d.result s.history c)
          then (
            some (d.handle s.history c),
            record allocated { buffers = update own_memory handle s.buffers },
          )
          else (none, destroy_buffer (some dev) handle allocated))

  unfoldable pub bind_staging : (handle given memory : ℕ) → State → Option ℕ × State
  bind_staging handle given memory s =
      let (result, s1) = bind_buffer_memory d (some dev) handle memory 0 s in
      if is_success result then (some handle, give_id handle s1) else (
        none,
        destroy_buffer (some dev) handle
            (if not (given == 0) then s1 else call (Call.destroy Object.memory memory) s1),
      )

  unfoldable pub bind_obtained : (handle given : ℕ) → Option ℕ × State → Option ℕ × State
  bind_obtained handle given (none, s) = (none, s)
  bind_obtained handle given (some memory, s) = bind_staging handle given memory s

  unfoldable pub give_memory : (handle memory : ℕ) → State → Option ℕ × State
  give_memory handle memory s = bind_obtained handle memory (obtain_memory handle memory s)

  -- What is left to do after `CreateBuffer`: `find_buffer`, then the memory.
  unfoldable pub stage : (memory : ℕ) → VkResult × ℕ × State → Option ℕ × State
  stage memory (result, handle, s) =
      if is_success result
      then (elim (find handle s.buffers) [
        | none ↦ (none, s)
        | some b ↦ give_memory handle memory s
      ])
      else (none, s)

  -- The answer is the handle of the buffer that the pointer leads to, if any. `get_device` finds
  -- the device itself.
  unfoldable pub create_staging_buffer :
      (env : Option ℕ) (submit : (History → History) → History → VkResult × History)
      (size usage memory : ℕ)
      → State
      → Option ℕ × State
  create_staging_buffer env submit size usage memory s =
      stage memory (create_buffer d env submit (some dev) 0 (round_up size) usage s)

-- One round of the loop of `Cleanup` over staging buffers
unfoldable pub drop_staging_buffer : Device → (handle : ℕ) → State → State
drop_staging_buffer dev handle s = elim (find handle s.buffers) [
  | none ↦ s
  | some b ↦
      destroy_buffer (some dev) handle
        (if b.owns_memory then call (Call.destroy Object.memory b.memory) s else s)
]
