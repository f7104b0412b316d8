-- ===== src/Queues/Taken.antt =====
-- src/queue.cpp: the batches that a submission takes from its command buffers.
use compat_layer.Prelude.{
  ℕ, ◌≡◌, refl, sym, ap, subst, ◌∙◌, true, false, Bool, ◌||◌, ◌&&◌, not, List, [], ◌∷◌, ◌++◌, map,
  Option, some, Dict, find, insert, holds, find-insert, found-insert, All, ◌==◌, Bool-cases, inl,
  inr, arith,
}
use compat_layer.Device.{Device}
use compat_layer.Driver.{Driver, History, Call, Object}
use compat_layer.Driver.Objects.{MakesNewObjects, Supplies, opened}
use compat_layer.SyncPool.{Pool, acquire}
use compat_layer.SyncPool.Ownership.{IsOwned, acquire-IsOwned}
use compat_layer.Batches.{
  World, Batch, new_batch, pool_of, with_pool, is_empty, make_fence, is_submitted, has_pair,
  cleanup,
}
use compat_layer.Batches.Submitted.{acquire-submitted}
use compat_layer.Commands.{CommandBuffer, Layer, layer_history, destroy_batch}
use compat_layer.Commands.Live.{among}
use compat_layer.Queues.{keep, take_found}

-- A batch that nothing was submitted with
pub record IsFresh (b : Batch) : Type 0 where
  pub completed : b.completed ≡ 0
  pub semaphore : b.semaphore ≡ 0
  pub freed : b.freed ≡ false
  pub waited : b.has_completed ≡ false
  pub sets : b.descriptor_sets ≡ []

-- A batch that waits for the finalizer: its fence is submitted, or about to be.
pub record Waits (d : Driver) (h : History) (taken : List ℕ) (b : Batch) : Type 0 where
  pub signalled : is_submitted d b.completed h || among taken b.completed ≡ true
  pub pair : has_pair b ≡ true
  pub freed : b.freed ≡ false
  pub sets : b.descriptor_sets ≡ []

-- The state in the middle of a submission that has taken some fences
pub record Taking (d : Driver) (taken fences semaphores : List ℕ) (s : Layer) : Type 0 where
  pub owned : IsOwned d fences semaphores (pool_of s.world)
  pub fresh : (p : ℕ) (cb : CommandBuffer) → find p s.commands ≡ some cb → IsFresh cb.batch
  pub waits : All (Waits d (layer_history s) taken) s.pending

pub All-map {ℓ κ μ} :
    {A : Type ℓ}
    → (P : A → Type κ) → (Q : A → Type μ) → ((a : A) → P a → Q a)
    → (xs : List A) → All P xs
    → All Q xs
All-map P Q f [] k = tt
All-map P Q f (x ∷ xs) k = (f x k.0, All-map P Q f xs k.1)

pub All-snoc {ℓ κ} :
    {A : Type ℓ} → (P : A → Type κ) → (xs : List A) (a : A) → All P xs → P a → All P (xs ++ a ∷ [])
All-snoc P [] a k p = (p, tt)
All-snoc P (x ∷ xs) a k p = (k.0, All-snoc P xs a k.1 p)

IsFresh-insert :
    (handle : ℕ) (cb : CommandBuffer) (m : Dict CommandBuffer)
    → ((p : ℕ) (c : CommandBuffer) → find p m ≡ some c → IsFresh c.batch)
    → (p : ℕ) (c : CommandBuffer)
    → find p (insert handle (record cb { batch = new_batch }) m) ≡ some c
    → IsFresh c.batch
IsFresh-insert handle cb m f p c e =
    elim (found-insert handle p (record cb { batch = new_batch }) c m e) [
      | inl q ↦
          subst (λ x. IsFresh x.batch) (sym q)
            (record {
              completed = refl;
              semaphore = refl;
              freed = refl;
              waited = refl;
              sets = refl;
            })
      | inr q ↦ f p c q
    ]

module _ (d : Driver) (dev : Device) (b : Batch) where
  make_fence-empty :
      (w : World)
      → is_empty b ≡ true
      → make_fence d (some dev) b w ≡ ((b.semaphore, b.completed), b, w)
  unfolding make_fence
  make_fence-empty w e = elim (Bool-cases (not (b.completed == 0))) [
    | inl k ↦ rw (e, k) refl
    | inr k ↦ rw (e, k) refl
  ]

  make_fence-full :
      (w : World)
      → b.completed ≡ 0
      → is_empty b ≡ false
      → let (semaphore, fence, pool) = acquire d (pool_of w) in
        make_fence d (some dev) b w ≡ (
          (semaphore, fence),
          record b { completed = fence; semaphore = semaphore },
          with_pool pool w,
        )
  unfolding make_fence
  make_fence-full w k e =
      let null : (b.completed == 0) ≡ true = ap (λ x. x == 0) k in rw (null, e) refl

  keep-empty :
      (s : Layer)
      → is_empty b ≡ true
      → b.freed ≡ false
      → b.semaphore ≡ 0
      → keep d (some dev) (b.semaphore, b.completed) b s ≡ some ([], s)
  unfolding keep destroy_batch cleanup
  keep-empty s e f k =
      let null : (b.semaphore == 0) ≡ true = ap (λ x. x == 0) k in rw (null, e, f, cleanup) refl

module _ (d : Driver) (dev : Device) (pair : ℕ × ℕ) (b : Batch) (s : Layer) where
  keep-full :
      (pair.0 == 0) ≡ false
      → keep d (some dev) pair b s ≡ some (pair ∷ [], record s { pending = s.pending ++ b ∷ [] })
  unfolding keep
  keep-full e = rw e refl

abbrev pub fences_of : List (ℕ × ℕ) → List ℕ
fences_of = map (λ e. e.1)

abbrev pub Keeps : Layer → Layer → Type 0
Keeps s s' = (p : ℕ) → holds p s.commands ≡ 1 → holds p s'.commands ≡ 1

-- The fences are taken, the state is one in the middle of a submission again, and no command
-- buffer is lost.
abbrev pub Takes : Driver → (taken : List ℕ) → Layer → Option (List (ℕ × ℕ) × Layer) → Type 0
Takes d taken s o =
    (r : List (ℕ × ℕ) × Layer) × (fences : List ℕ) × (semaphores : List ℕ) × (o ≡ some r)
    × Taking d (fences_of r.0 ++ taken) fences semaphores r.1
    × Keeps s r.1

opened-null : (d : Driver) (o : Object) (h : History) → Supplies d → opened d o 0 h ≡ 0
unfolding opened
opened-null d o [] supplies = refl
opened-null d o (Call.create o' args ∷ h) supplies =
    ground (arith, opened-null d o h supplies, (supplies h o' args).1)
opened-null d o (Call.destroy o' p ∷ h) supplies = ground (arith, opened-null d o h supplies)
opened-null d o (_ ∷ h) supplies = opened-null d o h supplies

-- A wait that was on its way is on its way when one more fence is taken.
one_more :
    (d : Driver) (h h' : History) (taken : List ℕ) (fence : ℕ) (b : Batch)
    → is_submitted d b.completed h' ≡ not (fence == b.completed) && is_submitted d b.completed h
    → Waits d h taken b
    → Waits d h' (fence ∷ taken) b
one_more d h h' taken fence b e k = record {
  signalled = rw e (
      merge (fence == b.completed) (is_submitted d b.completed h) (among taken b.completed)
        k.signalled);
  pair = k.pair;
  freed = k.freed;
  sets = k.sets;
}
  where
    merge : (x y z : Bool) → y || z ≡ true → (not x && y) || (x || z) ≡ true
    merge true y z e = refl
    merge false y z e = e

module _ (d : Driver) (dev : Device) where
  take_found-empty :
      (handle : ℕ) (cb : CommandBuffer) (s : Layer)
      → IsFresh cb.batch
      → is_empty cb.batch ≡ true
      → take_found d (some dev) handle cb s
        ≡ some
            ([], record s { commands = insert handle (record cb { batch = new_batch }) s.commands })
  unfolding take_found
  take_found-empty handle cb s fresh e =
      let m = insert handle (record cb { batch = new_batch }) s.commands in
      ap (λ x. keep d (some dev) x.0 x.1 (record s { world = x.2; commands = m }))
        (make_fence-empty d dev cb.batch s.world e)
      ∙ keep-empty d dev cb.batch (record s { commands = m }) e fresh.freed fresh.semaphore

  pub take_found-full :
      (handle : ℕ) (cb : CommandBuffer) (s : Layer)
      → IsFresh cb.batch
      → is_empty cb.batch ≡ false
      → let (semaphore, fence, pool) = acquire d (pool_of s.world) in
        (semaphore == 0) ≡ false
        → take_found d (some dev) handle cb s
          ≡ some (
            (semaphore, fence) ∷ [],
            record s {
              world = with_pool pool s.world;
              commands = insert handle (record cb { batch = new_batch }) s.commands;
              pending =
                  s.pending ++ record cb.batch { completed = fence; semaphore = semaphore } ∷ [];
            },
          )
  unfolding take_found
  take_found-full handle cb s fresh e k =
      let m = insert handle (record cb { batch = new_batch }) s.commands in
      let (semaphore, fence, pool) = acquire d (pool_of s.world) in
      ap (λ x. keep d (some dev) x.0 x.1 (record s { world = x.2; commands = m }))
        (make_fence-full d dev cb.batch s.world fresh.completed e)
      ∙ keep-full d dev (semaphore, fence)
          (record cb.batch { completed = fence; semaphore = semaphore })
          (record s { world = with_pool pool s.world; commands = m }) k

module _ (d : Driver) (new : MakesNewObjects d) (supplies : Supplies d) (dev : Device)
    (taken fences semaphores : List ℕ) (handle : ℕ) (cb : CommandBuffer) (s : Layer)
    (e : find handle s.commands ≡ some cb) (taking : Taking d taken fences semaphores s) where
  abbrev acquired : ℕ × ℕ × Pool
  acquired = acquire d (pool_of s.world)

  pub semaphore-null : (acquired.0 == 0) ≡ false
  semaphore-null =
      let after =
        (acquire-IsOwned d new supplies fences semaphores (pool_of s.world) taking.owned).0 in
      let none_open = opened-null d Object.semaphore acquired.2.history supplies in
      elim (Bool-cases (acquired.0 == 0)) [
        | inl k ↦ absurd (ground (arith, after.semaphore 0, none_open, k))
        | inr k ↦ k
      ]

  pub fence-null : (acquired.1 == 0) ≡ false
  fence-null =
      let after =
        (acquire-IsOwned d new supplies fences semaphores (pool_of s.world) taking.owned).0 in
      let none_open = opened-null d Object.fence acquired.2.history supplies in
      elim (Bool-cases (acquired.1 == 0)) [
        | inl k ↦ absurd (ground (arith, after.fence 0, none_open, k))
        | inr k ↦ k
      ]

  kept :
      (p : ℕ)
      → holds p s.commands ≡ 1
      → holds p (insert handle (record cb { batch = new_batch }) s.commands) ≡ 1
  kept p k = ground (arith, k, find-insert handle p (record cb { batch = new_batch }) s.commands)

  take_found-Takes_full :
      is_empty cb.batch ≡ false → Takes d taken s (take_found d (some dev) handle cb s)
  take_found-Takes_full k =
      let fresh = taking.fresh handle cb e in
      let (semaphore, fence, pool) = acquire d (pool_of s.world) in
      let b : Batch = record cb.batch { completed = fence; semaphore = semaphore } in
      let waits = Waits d pool.history (fence ∷ taken) in
      let old : All waits s.pending =
        All-map (Waits d (layer_history s) taken) waits
          (λ b'.
            one_more d (layer_history s) pool.history taken fence b'
              (acquire-submitted d b'.completed (pool_of s.world)))
          s.pending taking.waits in
      (
        _,
        fence ∷ fences,
        semaphore ∷ semaphores,
        take_found-full d dev handle cb s fresh k semaphore-null,
        record {
          owned =
              (acquire-IsOwned d new supplies fences semaphores (pool_of s.world) taking.owned).0;
          fresh = IsFresh-insert handle cb s.commands taking.fresh;
          waits = All-snoc waits s.pending b old (record {
            signalled = ground (arith);
            pair = rw (fence-null, semaphore-null) refl;
            freed = fresh.freed;
            sets = fresh.sets;
          });
        },
        kept,
      )

  pub take_found-Takes : Takes d taken s (take_found d (some dev) handle cb s)
  take_found-Takes = elim (Bool-cases (is_empty cb.batch)) [
    | inl k ↦ (
      _,
      fences,
      semaphores,
      take_found-empty d dev handle cb s (taking.fresh handle cb e) k,
      record {
        owned = taking.owned;
        fresh = IsFresh-insert handle cb s.commands taking.fresh;
        waits = taking.waits;
      },
      kept,
    )
    | inr k ↦ take_found-Takes_full k
  ]
