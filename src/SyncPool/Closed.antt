-- ===== src/SyncPool/Closed.antt =====
-- src/layer.cpp: the destructor of `SyncPool`.
use compat_layer.Prelude.{
  ℕ, ◌≡◌, refl, ◌∙◌, false, List, [], ◌∷◌, count, ltb, ◌==◌, if◌then◌else◌, arith,
}
use compat_layer.Driver.{Driver, History, Call, Object}
use compat_layer.Driver.Objects.{opened, number, opened-destroy_other}
use compat_layer.SyncPool.{Pool, destroy_each, destroy_pool}
use compat_layer.SyncPool.Ownership.{IsOwned}

module _ (d : Driver) (o : Object) where
  opened-destroy_each :
      (p : ℕ) (ps : List ℕ) (h : History)
      → opened d o p (destroy_each o ps h) ≡ (if ltb 0 (count p ps) then 0 else opened d o p h)
  unfolding destroy_each opened
  opened-destroy_each p [] h = ground arith
  opened-destroy_each p (q ∷ qs) h = ground (arith, opened-destroy_each p qs (Call.destroy o q ∷ h))

  opened-destroy_each_other :
      (o' : Object) (p : ℕ) (ps : List ℕ) (h : History)
      → (number o' == number o) ≡ false
      → opened d o p (destroy_each o' ps h) ≡ opened d o p h
  unfolding destroy_each
  opened-destroy_each_other o' p [] h e = refl
  opened-destroy_each_other o' p (q ∷ qs) h e =
      opened-destroy_each_other o' p qs (Call.destroy o' q ∷ h) e
      ∙ opened-destroy_other d o o' p h q e

-- When no submission holds anything, the destructor closes every fence and every semaphore that
-- is open.
pub destroy_pool-closed :
    (d : Driver) (s : Pool)
    → IsOwned d [] [] s
    → (p : ℕ)
    → (opened d Object.fence p (destroy_pool s) ≡ 0)
      × (opened d Object.semaphore p (destroy_pool s) ≡ 0)
unfolding destroy_pool
destroy_pool-closed d s v p =
    let fences = destroy_each Object.fence s.free_fences s.history in
    let last = opened-destroy_each d Object.semaphore p s.free_semaphores fences in
    let other =
      opened-destroy_each_other d Object.fence Object.semaphore p s.free_semaphores fences refl in
    let closed = opened-destroy_each d Object.fence p s.free_fences s.history in
    let kept =
      opened-destroy_each_other d Object.semaphore Object.fence p s.free_fences s.history refl in
    (ground (arith, other, closed, v.fence p), ground (arith, last, kept, v.semaphore p))
