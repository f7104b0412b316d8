-- ===== src/Batches/Submitted.antt =====
-- src/staging_resources.cpp: which operations on a batch change whether a fence was submitted.
use compat_layer.Prelude.{ℕ, ◌≡◌, refl, ◌∙◌, ◌&&◌, not, List, [], ◌∷◌, ◌==◌, Bool-cases, inl, inr}
use compat_layer.Driver.{Driver, History, Call}
use compat_layer.Descriptors.Tracking.{Tracking}
use compat_layer.Allocator
use compat_layer.Allocator.Quiet.{OnSome}
use compat_layer.SyncPool.{Pool, take_fence, take_semaphore, acquire}
use compat_layer.Batches.{Block, is_submitted, read_results, free_sets}
use compat_layer.Batches.Closing.{Closed, close_all, free_sets-view}

module _ (d : Driver) (f : ℕ) where
  take_fence-submitted :
      (free : List ℕ) (s : Pool)
      → let r = take_fence d free s in
        is_submitted d f r.1.history ≡ not (r.0 == f) && is_submitted d f s.history
  unfolding take_fence is_submitted
  take_fence-submitted [] s = refl
  take_fence-submitted (p ∷ ps) s = refl

  take_semaphore-submitted :
      (free : List ℕ) (s : Pool)
      → is_submitted d f (take_semaphore d free s).1.history ≡ is_submitted d f s.history
  unfolding take_semaphore is_submitted
  take_semaphore-submitted [] s = refl
  take_semaphore-submitted (p ∷ ps) s = refl

  -- The fence that is handed out is not submitted, and the others are as they were.
  pub acquire-submitted :
      (s : Pool)
      → let (semaphore, fence, after) = acquire d s in
        is_submitted d f after.history ≡ not (fence == f) && is_submitted d f s.history
  unfolding acquire
  acquire-submitted s =
      take_semaphore-submitted _ (take_fence d s.free_fences s).1
      ∙ take_fence-submitted s.free_fences s

  pub close_all-submitted :
      (xs : Closed) (h : History) → is_submitted d f (close_all xs h) ≡ is_submitted d f h
  unfolding is_submitted
  close_all-submitted [] h = refl
  close_all-submitted ((o, p) ∷ xs) h = close_all-submitted xs (Call.destroy o p ∷ h)

  pub read_results-submitted :
      (ps : List Block) (h : History)
      → is_submitted d f (read_results d ps h).1 ≡ is_submitted d f h
  unfolding read_results is_submitted
  read_results-submitted [] h = refl
  read_results-submitted (b ∷ ps) h = elim (Bool-cases (read_results d ps h).0) [
    | inl e ↦ rw e (read_results-submitted ps h)
    | inr e ↦ rw e (read_results-submitted ps h)
  ]

  pub free_sets-submitted :
      (sets : List (ℕ × ℕ)) (s : Allocator.State) (t : Tracking)
      → OnSome
          (free_sets sets (s, t))
          (λ r. is_submitted d f r.0.history ≡ is_submitted d f s.history)
  unfolding is_submitted
  free_sets-submitted sets s t =
      free_sets-view (is_submitted d f) (λ q h. refl) (λ q v h. refl) sets s t
