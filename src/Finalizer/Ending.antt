-- ===== src/Finalizer/Ending.antt =====
-- src/layer.cpp: `DestroyDevice` closes what the layer made, if the finalizer has left nothing.
use compat_layer.Prelude.{ℕ, ◌≡◌, refl, sym, ◌∙◌, List, [], ◌∷◌, some, ◌==◌, Bool-cases, inl, inr}
use compat_layer.Device.{Device}
use compat_layer.Driver.{Driver, History, Call, Object}
use compat_layer.Driver.Objects.{opened}
use compat_layer.SyncPool.{Pool, destroy_pool, destroy_each}
use compat_layer.SyncPool.Ownership.{IsOwned}
use compat_layer.SyncPool.Closed.{destroy_pool-closed}
use compat_layer.Allocator
use compat_layer.Allocator.{State, destroy_all}
use compat_layer.Allocator.Invariant
use compat_layer.Allocator.Invariant.{IsValid}
use compat_layer.Allocator.Runs.{cleanup-opened}
use compat_layer.Batches.{World, history_of, pool_of}
use compat_layer.Commands.{Layer, calling}
use compat_layer.Commands.Held.{allocator_of}
use compat_layer.Finalizer.{clean_each, drop_pools, destroy_device}

module _ (d : Driver) where
  opened-destroy_all :
      (o : Object) (p : ℕ) (ps : List ℕ) (h : History)
      → opened d o p (destroy_all ps h) ≡ opened d o p h
  unfolding opened destroy_all
  opened-destroy_all o p [] h = refl
  opened-destroy_all o p (q ∷ ps) h = opened-destroy_all o p ps (Call.destroy_descriptor_pool q ∷ h)

  opened-cleanup :
      (o : Object) (p : ℕ) (s : State)
      → opened d o p (Allocator.cleanup s).history ≡ opened d o p s.history
  unfolding Allocator.cleanup opened
  opened-cleanup o p s = elim (Bool-cases (s.active_pool == 0)) [
    | inl e ↦ rw e (opened-destroy_all o p s.exhausted_pools s.history)
    | inr e ↦ rw e (
        opened-destroy_all o p s.exhausted_pools
          (Call.destroy_descriptor_pool s.active_pool ∷ s.history))
  ]

  pools-destroy_each :
      (o : Object) (p : ℕ) (ps : List ℕ) (h : History)
      → Invariant.opened d p (destroy_each o ps h) ≡ Invariant.opened d p h
  unfolding Invariant.opened destroy_each
  pools-destroy_each o p [] h = refl
  pools-destroy_each o p (q ∷ ps) h = pools-destroy_each o p ps (Call.destroy o q ∷ h)

  pools-destroy_pool :
      (p : ℕ) (s : Pool) → Invariant.opened d p (destroy_pool s) ≡ Invariant.opened d p s.history
  unfolding destroy_pool
  pools-destroy_pool p s =
      pools-destroy_each Object.semaphore p s.free_semaphores _
      ∙ pools-destroy_each Object.fence p s.free_fences s.history

  -- No fence, no semaphore and no descriptor pool of the layer is open.
  abbrev pub AllClosed : History → Type 0
  AllClosed h =
      (p : ℕ)
      → (opened d Object.fence p h ≡ 0)
        × (opened d Object.semaphore p h ≡ 0)
        × (Invariant.opened d p h ≡ 0)

  drop_pools-closed :
      (live : List ℕ) (w : World)
      → IsOwned d [] [] (pool_of w)
      → IsValid d live (allocator_of w)
      → AllClosed (history_of (drop_pools w))
  unfolding drop_pools
  drop_pools-closed live w owned v p =
      let pool = pool_of w in
      let s : State = record { allocator = w.allocator; history = destroy_pool pool } in
      let closed = destroy_pool-closed d pool owned p in
      let valid : IsValid d live s = record {
        counted = v.counted;
        held = v.held;
        owned = λ q. v.owned q ∙ sym (pools-destroy_pool q pool);
        null = v.null;
        total = v.total;
      } in
      (
        opened-cleanup Object.fence p s ∙ closed.0,
        opened-cleanup Object.semaphore p s ∙ closed.1,
        cleanup-opened d live s p valid,
      )

  -- When no batch is left and nothing is held, `DestroyDevice` closes every fence, every semaphore
  -- and every descriptor pool that the layer has open.
  pub destroy_device-closed :
      (dev : Device) (live : List ℕ) (s : Layer)
      → IsOwned d [] [] (pool_of s.world)
      → IsValid d live (allocator_of s.world)
      → s.pending ≡ []
      → (s' : Layer) × (destroy_device d (some dev) s ≡ some s') × AllClosed (history_of s'.world)
  unfolding destroy_device clean_each opened Invariant.opened
  destroy_device-closed dev live s owned v e =
      let idle : World = (calling Call.device_wait_idle s).world in
      let valid : IsValid d live (allocator_of idle) = record {
        counted = v.counted;
        held = v.held;
        owned = v.owned;
        null = v.null;
        total = v.total;
      } in
      (
        record s { world = drop_pools idle; pending = [] },
        rw (e, destroy_device) refl,
        drop_pools-closed live idle (record { fence = owned.fence; semaphore = owned.semaphore })
            valid,
      )
