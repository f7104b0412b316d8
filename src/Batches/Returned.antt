-- ===== src/Batches/Returned.antt =====
-- src/staging_resources.cpp: `Cleanup` gives back what a batch holds, and nothing else.
use compat_layer.Prelude.{
  ℕ, ◌≡◌, refl, sym, subst, ◌∙◌, true, false, Bool, ◌&&◌, ◌||◌, [], ◌∷◌, ◌++◌, Dict, none, some,
  if◌then◌else◌, Bool-cases, inl, inr, arith,
}
use compat_layer.Device.{Device}
use compat_layer.Driver.{Driver, Object}
use compat_layer.Driver.Objects.{opened}
use compat_layer.Allocator.Quiet.{OnSome}
use compat_layer.Resources
use compat_layer.SyncPool
use compat_layer.Batches.{
  is_submitted, World, history_of, Batch, is_empty, has_pair, release_pair, locks, emptied,
  free_sets, free_world_sets, read_queries, give_back_buffers, give_back_pools, give_back, cleanup,
}
use compat_layer.Batches.Closing.{closes, closed_buffers, closed_handles}
use compat_layer.Batches.GivenBack.{holdings, closed_after, GivesBack, give_back-GivesBack}

-- What has become of the batch and the world
pub record IsReturned (d : Driver) (b : Batch) (w : World) (b' : Batch) (w' : World) : Type 0 where
  pub closed :
      (o : Object) (p : ℕ)
      → opened d o p (history_of w')
        ≡ (if closes (holdings b w) o p then 0 else opened d o p (history_of w))
  pub fences : w'.free_fences ≡ (if has_pair b then b.completed ∷ w.free_fences else w.free_fences)
  pub semaphores :
      w'.free_semaphores
      ≡ (if has_pair b then b.semaphore ∷ w.free_semaphores else w.free_semaphores)
  pub submitted : (f : ℕ) → is_submitted d f (history_of w') ≡ is_submitted d f (history_of w)
  pub freed : b'.freed ≡ true

module _ (d : Driver) where
  -- The pair, if there is one, is back in the pool; no object is opened or closed.
  release_pair-fences :
      (b : Batch) (w : World)
      → (release_pair b w).free_fences
        ≡ (if has_pair b then b.completed ∷ w.free_fences else w.free_fences)
  unfolding SyncPool.release
  release_pair-fences b w = ground arith

  release_pair-semaphores :
      (b : Batch) (w : World)
      → (release_pair b w).free_semaphores
        ≡ (if has_pair b then b.semaphore ∷ w.free_semaphores else w.free_semaphores)
  unfolding SyncPool.release
  release_pair-semaphores b w = ground arith

  release_pair-opened :
      (b : Batch) (w : World) (o : Object) (p : ℕ)
      → opened d o p (history_of (release_pair b w)) ≡ opened d o p (history_of w)
  unfolding SyncPool.release opened
  release_pair-opened b w o p = ground arith

  release_pair-submitted :
      (b : Batch) (w : World) (f : ℕ)
      → is_submitted d f (history_of (release_pair b w)) ≡ is_submitted d f (history_of w)
  unfolding SyncPool.release
  release_pair-submitted b w f = elim (Bool-cases (has_pair b)) [
    | inl e ↦ rw e refl
    | inr e ↦ rw e refl
  ]

  release_pair-buffers :
      (b : Batch) (w : World) → (release_pair b w).resources.buffers ≡ w.resources.buffers
  unfolding SyncPool.release
  release_pair-buffers b w = ground arith

  give_back-some :
      (dev : Device) (b : Batch) (w : World)
      → b.descriptor_sets ≡ []
      → (w' : World) × give_back d dev b w ≡ some w'
  unfolding give_back free_sets
  give_back-some dev b w e =
      let before = give_back_buffers dev b (read_queries d dev b w) in
      subst
        (λ sets.
          (w' : World) × (elim (free_world_sets sets before) [
            | none ↦ none
            | some w' ↦ some (give_back_pools b w')
          ]
            ≡ some w'))
        (sym e) (_, refl)

  released_lem :
      (b : Batch) (w : World) (o : Object) (p : ℕ) (m : Dict Resources.Buffer)
      → m ≡ w.resources.buffers
      → (if closes
            (closed_buffers b.staging_buffers m
              ++ closed_handles Object.image_view b.staging_image_views
              ++ closed_after b)
            o
            p
          then 0
          else opened d o p (history_of (release_pair b w)))
        ≡ (if closes (holdings b w) o p then 0 else opened d o p (history_of w))
  released_lem b w o p m e = rw (e, release_pair-opened b w o p) refl

  returned_lem :
      (dev : Device) (b : Batch) (w w' : World)
      → GivesBack d b (release_pair b w) w'
      → IsReturned d b w (emptied b) w'
  returned_lem dev b w w' r = record {
    closed = λ o p. r.closed o p ∙ released_lem b w o p _ (release_pair-buffers b w);
    fences = r.fences ∙ release_pair-fences b w;
    semaphores = r.semaphores ∙ release_pair-semaphores b w;
    submitted = λ f. r.submitted f ∙ release_pair-submitted b w f;
    freed = refl;
  }

  module _ (dev : Device) (b : Batch) (w : World) where
    cleanup-some :
        (held : Bool) (w' : World)
        → b.freed || is_empty b ≡ false
        → held && locks b w ≡ false
        → give_back d dev b (release_pair b w) ≡ some w'
        → cleanup d held (some dev) b w ≡ some (emptied b, w')
    unfolding cleanup
    cleanup-some held w' e k q = rw (e, k, q) refl

    -- A batch that holds something is cleaned up unless the thread would wait for itself: the
    -- objects it holds are closed, no other object is, its fence and semaphore are back in the
    -- pool, and it is marked as freed. It has no descriptor sets, as no batch of the layer.
    pub cleanup-IsReturned :
        (held : Bool)
        → b.freed || is_empty b ≡ false
        → b.descriptor_sets ≡ []
        → held && locks b w ≡ false
        → (r : Batch × World) × (cleanup d held (some dev) b w ≡ some r) × IsReturned d b w r.0 r.1
    cleanup-IsReturned held e q k =
        let (w', gives) = give_back-some dev b (release_pair b w) q in
        let returned : GivesBack d b (release_pair b w) w' =
          subst (λ x. OnSome x (GivesBack d b (release_pair b w))) gives
            (give_back-GivesBack d dev b (release_pair b w)) in
        ((emptied b, w'), cleanup-some held w' e k gives, returned_lem dev b w w' returned)
