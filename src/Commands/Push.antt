-- ===== src/Commands/Push.antt =====
-- src/push_descriptors.cpp: the descriptor set behind an emulated push descriptor, which lives as
-- long as the recording of its command buffer.
use compat_layer.Prelude.{
  ℕ, ◌+◌, ◌<◌, ◌^◌, ◌≡◌, refl, false, List, [], ◌∷◌, ◌++◌, some, find, insert, Distinct,
  insert-Distinct, find-insert_self, count, length, arith,
}
use compat_layer.Driver.{Driver, VkResult, is_success}
use compat_layer.Descriptors.Tracking.{track_descriptor_sets, track_layouts}
use compat_layer.Allocator
use compat_layer.Allocator.{Outcome, allocated, failed}
use compat_layer.Allocator.Failing.{IsHonest, allocate-IsHonest}
use compat_layer.Allocator.Allocate.{live_after, allocate-IsValid}
use compat_layer.Allocator.Invariant.{IsValid, MakesNewPools}
use compat_layer.Batches.{with_history}
use compat_layer.Commands.{CommandBuffer, Layer}
use compat_layer.Commands.Held.{
  IsHeld, allocator_of, live_pools, pools_in, reorder, count-pools, length-pools,
}

abbrev pub with_allocator : Allocator.State → Layer → Layer
with_allocator a s = record s {
  world = record (with_history a.history s.world) { allocator = a.allocator };
}

abbrev pub with_live : (pool set : ℕ) → CommandBuffer → CommandBuffer
with_live pool set cb = record cb { live = cb.live ++ (pool, set) ∷ [] }

-- `AllocateDescriptorSet` after the allocator's answer: the result and the set
unfoldable pub record_set :
    (handle : ℕ) → CommandBuffer → (layout : ℕ) → Outcome → Layer → VkResult × ℕ × Layer
record_set handle cb layout (failed r) s = (r, 0, s)
record_set handle cb layout (allocated pool set) s = (
  VkResult.success,
  set,
  record s {
    world = record s.world {
      tracking = track_descriptor_sets pool ((set, layout) ∷ []) s.world.tracking;
    };
    commands = insert handle (with_live pool set cb) s.commands;
  },
)

-- For the command buffer of the handle
unfoldable pub allocate_descriptor_set :
    Driver → (handle : ℕ) → CommandBuffer → (layout : ℕ) → Layer → VkResult × ℕ × Layer
allocate_descriptor_set d handle cb layout s =
    let (o, a) = Allocator.allocate d layout (allocator_of s.world) in
    record_set handle cb layout o (with_allocator a s)

-- A success leaves the set with the command buffer and its layout tracked; a failure leaves the
-- command buffers and the layouts as they were, and is reported as one.
pub data Recorded (handle : ℕ) (cb : CommandBuffer) (layout : ℕ) (s : Layer)
    : VkResult × ℕ × Layer → Type 0 where
  pushed :
      (pool set : ℕ) (s' : Layer)
      → find handle s'.commands ≡ some (with_live pool set cb)
      → find set s'.world.tracking.sets ≡ some layout
      → Recorded handle cb layout s (VkResult.success, set, s')
  refused :
      (r : VkResult) (s' : Layer)
      → is_success r ≡ false
      → s'.commands ≡ s.commands
      → s'.world.tracking ≡ s.world.tracking
      → Recorded handle cb layout s (r, 0, s')

record_set-Recorded :
    (handle : ℕ) (cb : CommandBuffer) (layout : ℕ) (o : Outcome) (a : Allocator.State) (s : Layer)
    → IsHonest o
    → Recorded handle cb layout s (record_set handle cb layout o (with_allocator a s))
unfolding record_set track_descriptor_sets track_layouts
record_set-Recorded handle cb layout (failed r) a s e = refused r _ e refl refl
record_set-Recorded handle cb layout (allocated pool set) a s e =
    pushed pool set _ (find-insert_self handle (with_live pool set cb) s.commands)
      (find-insert_self set layout s.world.tracking.sets)

length-pools_in :
    (pool set : ℕ) (xs : List (ℕ × ℕ))
    → length (pools_in (xs ++ (pool, set) ∷ [])) ≡ 1 + length (pools_in xs)
length-pools_in pool set [] = refl
length-pools_in pool set (x ∷ xs) = omega (arith, length-pools_in pool set xs)

count-pools_in :
    (q pool set : ℕ) (xs : List (ℕ × ℕ))
    → count q (pools_in (xs ++ (pool, set) ∷ [])) ≡ count q (pool ∷ []) + count q (pools_in xs)
count-pools_in q pool set [] = ground arith
count-pools_in q pool set (x ∷ xs) = ground (arith, count-pools_in q pool set xs)

module _ (d : Driver) (handle : ℕ) (cb : CommandBuffer) (layout : ℕ) (s : Layer)
    (e : find handle s.commands ≡ some cb) where
  record_set-IsHeld :
      (o : Outcome) (a : Allocator.State)
      → length (live_pools s.commands) + 1 < 2 ^ 32
      → Distinct s.commands
      → IsValid d (live_after o (live_pools s.commands)) a
      → IsHeld d (record_set handle cb layout o (with_allocator a s)).2
  unfolding record_set
  record_set-IsHeld (failed r) a small distinct v = record {
    valid = v;
    small = omega arith;
    distinct = distinct;
  }
  record_set-IsHeld (allocated pool set) a small distinct v =
      let new = with_live pool set cb in
      let m = insert handle new s.commands in
      let size = length-pools handle cb new s.commands e in
      let longer = length-pools_in pool set cb.live in
      record {
        valid =
            reorder d (pool ∷ live_pools s.commands) (live_pools m) a
              (λ q. ground (
                arith,
                count-pools q handle cb new s.commands e,
                count-pools_in q pool set cb.live,
              ))
              (omega (arith, size, longer)) v;
        small = omega (arith, size, longer);
        distinct = insert-Distinct handle new s.commands distinct;
      }

pub allocate_descriptor_set-Recorded :
    (d : Driver) (handle : ℕ) (cb : CommandBuffer) (layout : ℕ) (s : Layer)
    → Recorded handle cb layout s (allocate_descriptor_set d handle cb layout s)
unfolding allocate_descriptor_set
allocate_descriptor_set-Recorded d handle cb layout s =
    let (o, a) = Allocator.allocate d layout (allocator_of s.world) in
    record_set-Recorded handle cb layout o a s (allocate-IsHonest d layout (allocator_of s.world))

-- A push descriptor's set is one more set in use, of the command buffer that recorded it, and the
-- allocator's counters stay those of the sets in use. A failure is reported, and no set is recorded.
pub allocate_descriptor_set-IsHeld :
    (d : Driver) (handle : ℕ) (cb : CommandBuffer) (layout : ℕ) (s : Layer)
    → MakesNewPools d
    → find handle s.commands ≡ some cb
    → length (live_pools s.commands) + 1 < 2 ^ 32
    → IsHeld d s
    → let r = allocate_descriptor_set d handle cb layout s in
      Recorded handle cb layout s r × IsHeld d r.2
unfolding allocate_descriptor_set
allocate_descriptor_set-IsHeld d handle cb layout s new e small held =
    let (o, a) = Allocator.allocate d layout (allocator_of s.world) in
    (
      allocate_descriptor_set-Recorded d handle cb layout s,
      record_set-IsHeld d handle cb layout s e o a small held.distinct (
          allocate-IsValid d (live_pools s.commands) layout (allocator_of s.world) new small
            held.valid),
    )
