-- ===== src/Commands/Sample.antt =====
-- src/command_buffer.cpp: a command buffer of a device with one descriptor pool, for tests.
use compat_layer.Prelude.{ℕ, ◌≡◌, ◌<◌, ◌+◌, refl, [], ◌∷◌, find, length, arith}
use compat_layer.Driver.{Driver, History, Call}
use compat_layer.Driver.Sample.{numbering, succeeds}
use compat_layer.Descriptors.Tracking.{empty}
use compat_layer.Allocator.{init}
use compat_layer.Allocator.Invariant.{MakesNewPools, opened}
use compat_layer.Allocator.Runs.{init-IsSound}
use compat_layer.Batches.{new_batch}
use compat_layer.Commands.{CommandBuffer, Layer}
use compat_layer.Commands.Held.{IsHeld}

abbrev pub driver : Driver
driver = numbering succeeds

opened-driver : (p : ℕ) (h : History) → length h < p → opened driver p h ≡ 0
unfolding opened
opened-driver p [] k = refl
opened-driver p (Call.create_descriptor_pool ∷ h) k = ground (arith, opened-driver p h)
opened-driver p (Call.destroy_descriptor_pool q ∷ h) k = ground (arith, opened-driver p h)
opened-driver p (_ ∷ h) k = opened-driver p h (omega arith)

pub driver-MakesNewPools : MakesNewPools driver
driver-MakesNewPools h e = (omega arith, opened-driver (length h + 1) h (omega arith))

abbrev pub idle : CommandBuffer
idle = record { pool = 3; batch = new_batch; live = [] }

-- Pool 1 of the allocator is made; command buffer 9 stands alone in command pool 3.
abbrev pub start : Layer
start = record {
  world = record {
    resources = record {
      buffers = [];
      images = [];
      committed = 0;
      next_id = 0;
      history = (init driver []).history;
    };
    free_fences = [];
    free_semaphores = [];
    allocator = (init driver []).allocator;
    tracking = empty;
  };
  commands = (9, idle) ∷ [];
  pools = (3, 9 ∷ []) ∷ [];
  pending = [];
}

pub start-IsHeld : IsHeld driver start
unfolding opened find
start-IsHeld = record {
  valid = (init-IsSound driver [] empty driver-MakesNewPools (λ p. refl)).valid;
  small = omega arith;
  distinct = (refl, tt);
}
