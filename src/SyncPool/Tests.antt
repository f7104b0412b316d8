-- ===== src/SyncPool/Tests.antt =====
-- src/layer.cpp: the theorems on `SyncPool` at a pool that has handed out one pair and has
-- another one free.
use compat_layer.Prelude.{◌≡◌, refl, [], ◌∷◌, count, arith}
use compat_layer.Driver.{Driver, Call, Object}
use compat_layer.Driver.Objects.{Supplies, opened}
use compat_layer.Driver.Sample.{numbering, numbering-MakesNewObjects, succeeds}
use compat_layer.SyncPool.{Pool, acquire, take_fence, take_semaphore}
use compat_layer.SyncPool.Ownership.{IsOwned, acquire-IsOwned}

abbrev driver : Driver
driver = numbering succeeds

driver-Supplies : Supplies driver
driver-Supplies h o args = (refl, omega arith)

-- Fences 1 and 3 and semaphores 2 and 4 are made; fence 3 and semaphore 4 are with a submission.
abbrev sample : Pool
sample = record {
  free_fences = 1 ∷ [];
  free_semaphores = 2 ∷ [];
  history =
      Call.create Object.semaphore []
      ∷ Call.create Object.fence []
      ∷ Call.create Object.semaphore []
      ∷ Call.create Object.fence []
      ∷ [];
}

sample-IsOwned : IsOwned driver (3 ∷ []) (4 ∷ []) sample
unfolding opened
sample-IsOwned = record { fence = λ p. ground arith; semaphore = λ p. ground arith }

acquire-sample : acquire driver sample ≡ (
  2,
  1,
  record sample {
    free_fences = [];
    free_semaphores = [];
    history = Call.reset_fence 1 ∷ sample.history;
  },
)
unfolding acquire take_semaphore take_fence
acquire-sample = refl

acquire-IsOwned_example :
    let (semaphore, fence, after) = acquire driver sample in
    IsOwned driver (fence ∷ 3 ∷ []) (semaphore ∷ 4 ∷ []) after
    × (count fence (3 ∷ []) ≡ 0)
    × (count semaphore (4 ∷ []) ≡ 0)
acquire-IsOwned_example =
    acquire-IsOwned driver (numbering-MakesNewObjects succeeds) driver-Supplies (3 ∷ []) (4 ∷ [])
      sample sample-IsOwned
