-- ===== src/Queues/Sample.antt =====
-- src/queue.cpp: a command buffer with an image view to give back, for tests.
use mathlib.Core.Option.{some-injective, none-ne-some}
use compat_layer.Prelude.{
  ℕ, ◌≡◌, ◌==◌, refl, subst, List, [], ◌∷◌, some, Dict, find, Bool-cases, inl, inr,
}
use compat_layer.Driver.{Driver, Submit}
use compat_layer.Driver.Objects.{opened}
use compat_layer.Batches.{new_batch, add_staging_image_view}
use compat_layer.Commands.{CommandBuffer, Layer}
use compat_layer.Queues.{Queue}
use compat_layer.Queues.Taken.{IsFresh}
use compat_layer.Queues.Scheduled.{IsScheduled}

-- Command buffer 9 holds image view 7.
abbrev pub recording : CommandBuffer
recording = record { pool = 3; batch = add_staging_image_view 7 new_batch; live = [] }

abbrev pub start : Layer
start = record {
  world = record {
    resources = record { buffers = []; images = []; committed = 0; next_id = 0; history = [] };
    free_fences = [];
    free_semaphores = [];
    allocator = record {
      active_pool = 0;
      exhausted_pools = [];
      occupancy = [];
      allocated_count = 0;
    };
    tracking = record { sets = []; pools = [] };
  };
  commands = (9, recording) ∷ [];
  pools = (3, 9 ∷ []) ∷ [];
  pending = [];
}

-- Queue 4
abbrev pub queues : Dict Queue
queues = (4, record { family_index = 0; queue_index = 0 }) ∷ []

abbrev pub submits : List Submit
submits = record { waits = []; buffers = 9 ∷ []; signals = [] } ∷ []

start-IsFresh : (p : ℕ) (cb : CommandBuffer) → find p start.commands ≡ some cb → IsFresh cb.batch
unfolding find
start-IsFresh p cb e = elim (Bool-cases (9 == p)) [
  | inl k ↦
      subst (λ c. IsFresh c.batch) (some-injective recording cb (rw k at e))
        (record { completed = refl; semaphore = refl; freed = refl; waited = refl; sets = refl })
  | inr k ↦ absurd (none-ne-some cb (rw k at e))
]

pub start-IsScheduled : (d : Driver) → IsScheduled d start
unfolding opened
start-IsScheduled d = (
  [],
  [],
  record {
    owned = record { fence = λ p. refl; semaphore = λ p. refl };
    fresh = start-IsFresh;
    waits = tt;
  },
)

pub queue-found : find 4 queues ≡ some (record { family_index = 0; queue_index = 0 })
unfolding find
queue-found = refl
