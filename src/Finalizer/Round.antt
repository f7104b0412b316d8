-- ===== src/Finalizer/Round.antt =====
-- src/layer.cpp: `FinalizerThread` comes to the end of its queue when every fence in it was
-- submitted, and every batch is then cleaned up.
use compat_layer.Prelude.{
  ℕ, ◌≡◌, refl, ap, ◌∙◌, true, false, Bool, false≢true, ◌||◌, ◌&&◌, not, List, [], ◌∷◌, ◌++◌, map,
  some, All, ◌==◌, if◌then◌else◌, Bool-cases, inl, inr,
}
use compat_layer.Device.{Device}
use compat_layer.Driver.{Driver, Call, Object}
use compat_layer.Driver.Objects.{opened}
use compat_layer.Batches.{
  World, Batch, history_of, called, is_submitted, is_empty, has_pair, wait_for_completion, cleanup,
}
use compat_layer.Batches.Closing.{Closed, closes, closed_buffers, closed_handles}
use compat_layer.Batches.GivenBack.{holdings, closed_after, closes-append}
use compat_layer.Batches.Returned.{cleanup-IsReturned}
use compat_layer.Commands.{Layer}
use compat_layer.Queues.Taken.{Waits, All-map, All-snoc}
use compat_layer.Queues.Submitted.{or_false}
use compat_layer.Queues.Scheduled.{IsScheduled}
use compat_layer.Finalizer.{finalize, finalizer_round, back_first}

-- What a batch holds, but for its staging buffers
abbrev pub kept : Batch → Closed
kept b = closed_handles Object.image_view b.staging_image_views ++ closed_after b

-- One batch is cleaned up: its pair is free, what it held but for its staging buffers is
-- closed, nothing is opened.
record Cleaned (d : Driver) (b : Batch) (w w' : World) : Type 0 where
  fences : w'.free_fences ≡ b.completed ∷ w.free_fences
  semaphores : w'.free_semaphores ≡ b.semaphore ∷ w.free_semaphores
  submitted : (f : ℕ) → is_submitted d f (history_of w') ≡ is_submitted d f (history_of w)
  still : (o : Object) (p : ℕ) → opened d o p (history_of w) ≡ 0 → opened d o p (history_of w') ≡ 0
  closed : (o : Object) (p : ℕ) → closes (kept b) o p ≡ true → opened d o p (history_of w') ≡ 0

if_null : (b : Bool) (n : ℕ) → n ≡ 0 → (if b then 0 else n) ≡ 0
if_null true n e = refl
if_null false n e = e

and_pair : (r s c : Bool) → not c && not s ≡ true → (r && s) && c ≡ false
and_pair r s true k = absurd (false≢true k)
and_pair r true false k = absurd (false≢true k)
and_pair true false false k = refl
and_pair false false false k = refl

or_right : (u v a : Bool) → v || a ≡ true → (u || v) || a ≡ true
or_right true v a e = refl
or_right false v a e = e

module _ (d : Driver) (dev : Device) (b : Batch) where
  pub not_empty : b.freed ≡ false → has_pair b ≡ true → b.freed || is_empty b ≡ false
  unfolding is_empty
  not_empty e k = rw e (and_pair _ (b.semaphore == 0) (b.completed == 0) k)

  holds-kept :
      (w : World) (o : Object) (p : ℕ)
      → closes (kept b) o p ≡ true
      → closes (holdings b w) o p ≡ true
  holds-kept w o p e =
      let buffers = closed_buffers b.staging_buffers w.resources.buffers in
      let views = closed_handles Object.image_view b.staging_image_views in
      rw
        (closes-append d (buffers ++ views) (closed_after b) o p, closes-append d buffers views o p)
        (or_right (closes buffers o p) (closes views o p) (closes (closed_after b) o p)
          (rw (closes-append d views (closed_after b) o p) at e))

  -- `c` is whether the batch was waited for.
  cleaned :
      (c : Bool) (w w1 : World)
      → b.freed ≡ false
      → has_pair b ≡ true
      → b.descriptor_sets ≡ []
      → w1.free_fences ≡ w.free_fences
      → w1.free_semaphores ≡ w.free_semaphores
      → ((f : ℕ) → is_submitted d f (history_of w1) ≡ is_submitted d f (history_of w))
      → ((o : Object) (p : ℕ) → opened d o p (history_of w1) ≡ opened d o p (history_of w))
      → (r : Batch × World) × (cleanup d false (some dev) (record b { has_completed = c }) w1
          ≡ some r)
        × Cleaned d b w r.1
  unfolding is_empty
  cleaned c w w1 e k q fences semaphores submitted quiet =
      let (r, done, back) =
        cleanup-IsReturned d dev (record b { has_completed = c }) w1 false (not_empty e k) q refl in
      (
        r,
        done,
        record {
          fences = (rw k at back.fences) ∙ ap (λ x. b.completed ∷ x) fences;
          semaphores = (rw k at back.semaphores) ∙ ap (λ x. b.semaphore ∷ x) semaphores;
          submitted = λ f. back.submitted f ∙ submitted f;
          still = λ o p z. back.closed o p ∙ if_null _ _ (quiet o p ∙ z);
          closed = λ o p z. back.closed o p ∙ rw (holds-kept w1 o p z) refl;
        },
      )

  wait_then_clean :
      (w : World)
      → Waits d (history_of w) [] b
      → (r : Batch × World) × (r' : Batch × World) × (wait_for_completion d (some dev) b w ≡ some r)
        × (cleanup d false (some dev) r.0 r.1 ≡ some r')
        × Cleaned d b w r'.1
  unfolding wait_for_completion is_submitted opened
  wait_then_clean w k = elim (Bool-cases (b.has_completed || b.completed == 0)) [
    | inl e ↦
        let (r', done, back) =
          cleaned b.has_completed w w k.freed k.pair k.sets refl refl (λ f. refl) (λ o p. refl) in
        ((b, w), r', rw (e, wait_for_completion) refl, done, back)
    | inr e ↦
        let w1 = called (Call.wait_for_fences b.completed) w in
        let signalled : is_submitted d b.completed (history_of w) ≡ true =
          or_false (is_submitted d b.completed (history_of w)) k.signalled in
        let (r', done, back) =
          cleaned true w w1 k.freed k.pair k.sets refl refl (λ f. refl) (λ o p. refl) in
        (
          (record b { has_completed = true }, w1),
          r',
          rw (e, signalled, wait_for_completion) refl,
          done,
          back,
        )
  ]

-- The fences and the semaphores of the batches, put on a free list one by one
abbrev pub put_back : List ℕ → List ℕ → List ℕ
put_back [] free = free
put_back (x ∷ xs) free = put_back xs (x ∷ free)

-- Every batch is cleaned up.
pub record Finished (d : Driver) (bs : List Batch) (w w' : World) : Type 0 where
  pub fences : w'.free_fences ≡ put_back (map (λ b. b.completed) bs) w.free_fences
  pub semaphores : w'.free_semaphores ≡ put_back (map (λ b. b.semaphore) bs) w.free_semaphores
  pub still :
      (o : Object) (p : ℕ) → opened d o p (history_of w) ≡ 0 → opened d o p (history_of w') ≡ 0
  pub closed :
      All
        (λ b. (o : Object) (p : ℕ) → closes (kept b) o p ≡ true → opened d o p (history_of w') ≡ 0)
        bs

abbrev pub never : ℕ → Bool
never n = false

module _ (d : Driver) (dev : Device) where
  finalize-Finished :
      (bs : List Batch) (w : World)
      → All (Waits d (history_of w) []) bs
      → (w' : World) × (finalize d (some dev) never bs w ≡ some w') × Finished d bs w w'
  unfolding finalize
  finalize-Finished [] w k =
      (w, refl, record { fences = refl; semaphores = refl; still = λ o p e. e; closed = tt })
  finalize-Finished (b ∷ bs) w k =
      let (r, r', e, e', one) = wait_then_clean d dev b w k.0 in
      let waits : All (Waits d (history_of r'.1) []) bs =
        All-map (Waits d (history_of w) []) (Waits d (history_of r'.1) [])
          (λ b' x. record {
            signalled = rw (one.submitted b'.completed) x.signalled;
            pair = x.pair;
            freed = x.freed;
            sets = x.sets;
          })
          bs k.1 in
      let (w', done, rest) = finalize-Finished bs r'.1 waits in
      (
        w',
        rw (e, e', finalize) done,
        record {
          fences = rest.fences ∙ ap (put_back (map (λ x. x.completed) bs)) one.fences;
          semaphores = rest.semaphores ∙ ap (put_back (map (λ x. x.semaphore) bs)) one.semaphores;
          still = λ o p z. rest.still o p (one.still o p z);
          closed = (λ o p z. rest.still o p (one.closed o p z), rest.closed);
        },
      )

All-back_first {ℓ κ} :
    {A : Type ℓ} → (P : A → Type κ) → (xs : List A) → All P xs → All P (back_first xs)
All-back_first P [] k = tt
All-back_first P (x ∷ xs) k = All-snoc P (back_first xs) x (All-back_first P xs k.1) k.0

-- Between two submissions, a round of the thread that nobody stops comes to its end: it leaves no
-- batch, the fence and the semaphore of every batch are free again, and the image views, the query
-- pools and the staging semaphores that the batches held are closed.
pub finalizer_round-Finished :
    (d : Driver) (dev : Device) (s : Layer)
    → IsScheduled d s
    → (s' : Layer) × (finalizer_round d (some dev) never s ≡ some s')
      × (s'.pending ≡ [])
      × Finished d (back_first s.pending) s.world s'.world
unfolding finalizer_round
finalizer_round-Finished d dev s (fences, semaphores, k) =
    let bs = back_first s.pending in
    let waits = All-back_first (Waits d (history_of s.world) []) s.pending k.waits in
    let (w, e, done) = finalize-Finished d dev bs s.world waits in
    (record s { world = w; pending = [] }, rw (e, finalizer_round) refl, refl, done)
