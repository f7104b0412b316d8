-- ===== src/SyncPool.antt =====
-- src/layer.cpp and src/layer.hpp: `SyncPool`, which hands out fences and semaphores and takes
-- them back. The device is found. The back of a vector is the head of its list.
pub mod Closed
pub mod Ownership
mod Tests
use compat_layer.Prelude.{ℕ, List, [], ◌∷◌}
use compat_layer.Driver.{Driver, History, Call, Object}

pub record Pool : Type 0 where
  pub free_fences : List ℕ
  pub free_semaphores : List ℕ
  pub history : History

abbrev pub new_pool : History → Pool
new_pool h = record { free_fences = []; free_semaphores = []; history = h }

-- A failure of the driver is not looked at: the handle is then what `d.handle` says, which stands
-- for the unwritten local.
unfoldable pub take_fence : Driver → List ℕ → Pool → ℕ × Pool
take_fence d [] s =
    let c = Call.create Object.fence [] in
    (d.handle s.history c, record s { history = c ∷ s.history })
take_fence d (f ∷ fs) s =
    (f, record s { free_fences = fs; history = Call.reset_fence f ∷ s.history })

unfoldable pub take_semaphore : Driver → List ℕ → Pool → ℕ × Pool
take_semaphore d [] s =
    let c = Call.create Object.semaphore [] in
    (d.handle s.history c, record s { history = c ∷ s.history })
take_semaphore d (p ∷ ps) s = (p, record s { free_semaphores = ps })

-- The semaphore and the fence
unfoldable pub acquire : Driver → Pool → ℕ × ℕ × Pool
acquire d s =
    let (fence, s1) = take_fence d s.free_fences s in
    let (semaphore, s2) = take_semaphore d s1.free_semaphores s1 in (semaphore, fence, s2)

unfoldable pub release : ℕ → ℕ → Pool → Pool
release semaphore fence s = record s {
  free_semaphores = semaphore ∷ s.free_semaphores;
  free_fences = fence ∷ s.free_fences;
}

unfoldable pub destroy_each : Object → List ℕ → History → History
destroy_each o [] h = h
destroy_each o (p ∷ ps) h = destroy_each o ps (Call.destroy o p ∷ h)

-- The destructor
unfoldable pub destroy_pool : Pool → History
destroy_pool s =
    destroy_each Object.semaphore s.free_semaphores
      (destroy_each Object.fence s.free_fences s.history)
