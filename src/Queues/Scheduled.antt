-- ===== src/Queues/Scheduled.antt =====
-- src/queue.cpp: `QueueSubmit` and `QueueSubmit2` as a whole.
use compat_layer.Prelude.{ℕ, ◌≡◌, true, List, [], Option, some, holds, All}
use compat_layer.Device.{Device}
use compat_layer.Driver.{Driver, Submit, VkResult, is_success}
use compat_layer.Commands.{Layer}
use compat_layer.Queues.Taken.{Taking}

-- Between two submissions: what the pool has made is free or held, the batches of the command
-- buffers are new, and the fence of every batch that waits for the finalizer was submitted.
abbrev pub IsScheduled : Driver → Layer → Type 0
IsScheduled d s = (fences : List ℕ) × (semaphores : List ℕ) × Taking d [] fences semaphores s

-- The layer knows every command buffer of the submissions.
abbrev pub Known : Layer → List Submit → Type 0
Known s submits = All (λ submit. All (λ p. holds p s.commands ≡ 1) submit.buffers) submits

-- The operation returns; if it returns a success, the state is again one between submissions.
abbrev pub Schedules : Driver → Option (VkResult × Layer) → Type 0
Schedules d o = (r : VkResult × Layer) × (o ≡ some r) × (is_success r.0 ≡ true → IsScheduled d r.1)
