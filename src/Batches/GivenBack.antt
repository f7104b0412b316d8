-- ===== src/Batches/GivenBack.antt =====
-- src/staging_resources.cpp: what `Cleanup` does with what a batch holds, besides its pair.
use compat_layer.Prelude.{
  ℕ, ◌≡◌, refl, sym, ap, subst, ◌∙◌, true, false, Bool, ◌&&◌, ◌||◌, not, List, [], ◌∷◌, ◌++◌,
  if◌then◌else◌, Bool-cases, Option-cases, inl, inr, arith,
}
use compat_layer.Device.{Device}
use compat_layer.Driver.{Driver, Object}
use compat_layer.Driver.Objects.{opened, is_it}
use compat_layer.Allocator
use compat_layer.Allocator.Quiet.{OnSome}
use compat_layer.Batches.{
  is_submitted, World, history_of, Batch, is_nil, free_sets, free_world_sets, read_queries,
  give_back_buffers, give_back_pools, give_back,
}
use compat_layer.Batches.Submitted.{
  close_all-submitted, read_results-submitted, free_sets-submitted,
}
use compat_layer.Batches.Closing.{
  Closed, closes, close_all, closed_buffers, closed_handles, closed_blocks, close_all-append,
  close_all-destroy_handles, close_all-destroy_blocks, close_all-drop_buffers, opened-close_all,
  opened-read_results, free_sets-opened,
}

-- What the batch holds that is closed before the descriptor sets are freed, and after
abbrev pub closed_before : Batch → World → Closed
closed_before b w =
    closed_buffers b.staging_buffers w.resources.buffers
    ++ closed_handles Object.image_view b.staging_image_views

abbrev pub closed_after : Batch → Closed
closed_after b = closed_blocks b.query_pools ++ closed_handles Object.semaphore b.staging_semaphores

-- Every object that the batch holds
abbrev pub holdings : Batch → World → Closed
holdings b w = closed_before b w ++ closed_after b

-- What has become of the world in the part of `Cleanup` after the pair is released
pub record GivesBack (d : Driver) (b : Batch) (w w' : World) : Type 0 where
  pub closed :
      (o : Object) (p : ℕ)
      → opened d o p (history_of w')
        ≡ (if closes (holdings b w) o p then 0 else opened d o p (history_of w))
  pub fences : w'.free_fences ≡ w.free_fences
  pub submitted : (f : ℕ) → is_submitted d f (history_of w') ≡ is_submitted d f (history_of w)
  pub semaphores : w'.free_semaphores ≡ w.free_semaphores

module _ (d : Driver) where
  -- Nothing is opened, closed or pooled.
  abbrev Quiet : World → World → Type 0
  Quiet w w' =
      ((o : Object) (p : ℕ) → opened d o p (history_of w') ≡ opened d o p (history_of w))
      × ((f : ℕ) → is_submitted d f (history_of w') ≡ is_submitted d f (history_of w))
      × (w'.free_fences ≡ w.free_fences)
      × (w'.free_semaphores ≡ w.free_semaphores)

  free_world_sets-Quiet :
      (sets : List (ℕ × ℕ)) (w : World) → OnSome (free_world_sets sets w) (Quiet w)
  free_world_sets-Quiet sets w =
      let s : Allocator.State = record { allocator = w.allocator; history = history_of w } in
      elim (Option-cases (free_sets sets (s, w.tracking))) [
        | inl e ↦ rw (e, OnSome) tt
        | inr (r, e) ↦
            rw (e, OnSome)
              (
                λ o p.
                    subst (λ x. OnSome x (λ y. opened d o p y.0.history ≡ opened d o p s.history)) e
                      (free_sets-opened d sets o p s w.tracking),
                λ f.
                    subst
                      (λ x.
                        OnSome x (λ y. is_submitted d f y.0.history ≡ is_submitted d f s.history))
                      e (free_sets-submitted d f sets s w.tracking),
                refl,
                refl,
              )
      ]

  read_queries-Quiet :
      (dev : Device) (b : Batch) (w : World)
      → let w' = read_queries d dev b w in
        ((o : Object) (p : ℕ) → opened d o p (history_of w') ≡ opened d o p (history_of w))
        × (w'.resources.buffers ≡ w.resources.buffers)
        × ((f : ℕ) → is_submitted d f (history_of w') ≡ is_submitted d f (history_of w))
        × (w'.free_fences ≡ w.free_fences)
        × (w'.free_semaphores ≡ w.free_semaphores)
  unfolding read_queries
  read_queries-Quiet dev b w =
      elim (Bool-cases
        (dev.profile_transfers && not (is_nil b.query_pools) && not (is_nil b.tracked_queries))) [
          | inl e ↦
              rw (e, read_queries)
                (
                  λ o p. opened-read_results d b.query_pools o p (history_of w),
                  refl,
                  λ f. read_results-submitted d f b.query_pools (history_of w),
                  refl,
                  refl,
                )
          | inr e ↦ rw (e, read_queries) (λ o p. refl, refl, λ f. refl, refl, refl)
        ]

  history_of-give_back_buffers :
      (dev : Device) (b : Batch) (w : World)
      → history_of (give_back_buffers dev b w) ≡ close_all (closed_before b w) (history_of w)
  unfolding give_back_buffers
  history_of-give_back_buffers dev b w =
      close_all-destroy_handles Object.image_view b.staging_image_views _
      ∙ ap (close_all (closed_handles Object.image_view b.staging_image_views))
          (close_all-drop_buffers dev b.staging_buffers w.resources)
      ∙ sym (
          close_all-append (closed_buffers b.staging_buffers w.resources.buffers)
            (closed_handles Object.image_view b.staging_image_views) (history_of w))

  history_of-give_back_pools :
      (b : Batch) (w : World)
      → history_of (give_back_pools b w) ≡ close_all (closed_after b) (history_of w)
  unfolding give_back_pools
  history_of-give_back_pools b w =
      close_all-destroy_handles Object.semaphore b.staging_semaphores _
      ∙ ap (close_all (closed_handles Object.semaphore b.staging_semaphores))
          (close_all-destroy_blocks b.query_pools (history_of w))
      ∙ sym (
          close_all-append (closed_blocks b.query_pools)
            (closed_handles Object.semaphore b.staging_semaphores) (history_of w))

  or_assoc : (x y z : Bool) → (x || (y || z)) ≡ ((x || y) || z)
  or_assoc true y z = refl
  or_assoc false y z = refl

  if_nested :
      (x y : Bool) (n : ℕ) → (if y then 0 else if x then 0 else n) ≡ (if x || y then 0 else n)
  if_nested x true n = ground arith
  if_nested x false n = ground arith

  pub closes-append :
      (xs ys : Closed) (o : Object) (p : ℕ)
      → closes (xs ++ ys) o p ≡ (closes xs o p || closes ys o p)
  closes-append [] ys o p = refl
  closes-append ((o', p') ∷ xs) ys o p =
      ap (λ x. is_it o' p' o p || x) (closes-append xs ys o p)
      ∙ or_assoc (is_it o' p' o p) (closes xs o p) (closes ys o p)

  -- The four steps of a batch that is given back, put together
  closed_lem :
      (b : Batch) (w before w' : World) (o : Object) (p : ℕ)
      → opened d o p (history_of before)
        ≡ (if closes (closed_before b w) o p then 0 else opened d o p (history_of w))
      → opened d o p (history_of w') ≡ opened d o p (history_of before)
      → opened d o p (history_of (give_back_pools b w'))
        ≡ (if closes (holdings b w) o p then 0 else opened d o p (history_of w))
  closed_lem b w before w' o p e k =
      let after =
        ap (opened d o p) (history_of-give_back_pools b w')
        ∙ opened-close_all d (closed_after b) o p (history_of w') in
      after
      ∙ ap (λ x. if closes (closed_after b) o p then 0 else x) (k ∙ e)
      ∙ if_nested (closes (closed_before b w) o p) (closes (closed_after b) o p) _
      ∙ ap (λ x. if x then 0 else opened d o p (history_of w))
          (sym (closes-append (closed_before b w) (closed_after b) o p))

  before_lem :
      (dev : Device) (b : Batch) (w read : World) (o : Object) (p : ℕ)
      → opened d o p (history_of read) ≡ opened d o p (history_of w)
      → read.resources.buffers ≡ w.resources.buffers
      → opened d o p (history_of (give_back_buffers dev b read))
        ≡ (if closes (closed_before b w) o p then 0 else opened d o p (history_of w))
  before_lem dev b w read o p e k =
      ap (opened d o p) (history_of-give_back_buffers dev b read)
      ∙ opened-close_all d (closed_before b read) o p (history_of read)
      ∙ ap (λ x. if closes (closed_before b read) o p then 0 else x) e
      ∙ ap
          (λ m.
            if closes
              (closed_buffers b.staging_buffers m
                ++ closed_handles Object.image_view b.staging_image_views)
              o p
            then 0
            else opened d o p (history_of w))
          k

  pub give_back-GivesBack :
      (dev : Device) (b : Batch) (w : World) → OnSome (give_back d dev b w) (GivesBack d b w)
  unfolding give_back give_back_buffers give_back_pools
  give_back-GivesBack dev b w =
      let read = read_queries d dev b w in
      let before = give_back_buffers dev b read in
      elim (Option-cases (free_world_sets b.descriptor_sets before)) [
        | inl e ↦ rw (e, OnSome) tt
        | inr (w', e) ↦
            rw (e, OnSome)
              (let (q, m, u, f, g) = read_queries-Quiet dev b w in
                let t : Quiet before w' =
                  subst (λ x. OnSome x (Quiet before)) e
                    (free_world_sets-Quiet b.descriptor_sets before) in
                let (q', u', f', g') = t in
                record {
                  closed = λ o p.
                      closed_lem b w before w' o p (before_lem dev b w read o p (q o p) m) (q' o p);
                  submitted = λ f.
                      ap (is_submitted d f) (history_of-give_back_pools b w')
                      ∙ close_all-submitted d f (closed_after b) (history_of w')
                      ∙ u' f
                      ∙ ap (is_submitted d f) (history_of-give_back_buffers dev b read)
                      ∙ close_all-submitted d f (closed_before b read) (history_of read)
                      ∙ u f;
                  fences = f' ∙ f;
                  semaphores = g' ∙ g;
                })
      ]
