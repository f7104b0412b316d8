-- ===== src/Resources/Failures.antt =====
-- src/buffer.cpp and src/image.cpp: a creation that fails leaves nothing behind.
use compat_layer.Prelude.{
  ℕ, ◌^◌, ◌<◌, ◌≡◌, refl, true, false, true≢false, Bool, List, [], ◌∷◌, Option, none, some,
  if◌then◌else◌, Bool-cases, inl, inr,
}
use compat_layer.Device.{Device}
use compat_layer.Driver.{Driver, History, Call, Object, VkResult, Requirements, is_success}
use compat_layer.Driver.Objects.{MakesNewObjects, opened}
use compat_layer.Sparse.Budget.{get_sparse_budget, reserve_budget}
use compat_layer.Sparse.Budget.Threads.{refused_committed, released_committed}
use compat_layer.Resources.{State, call}
use compat_layer.Resources.Balance.{Same, HasSizes, opened-failed, opened-destroy_create}
use compat_layer.Resources.Shadow.{
  allocation, allocate_shadow, bind_sparse_buffer, bind_sparse_image,
}
use compat_layer.Resources.Buffers.{without_sparse, create_buffer, finish_buffer, is_sparse}
use compat_layer.Resources.Images.{create_image, finish_image, ImageInfo}

module _ (d : Driver) (env : Option ℕ) (dev : Device) (new : MakesNewObjects d) where
  abbrev created : (o : Object) (args : List ℕ) (s : State) → ℕ
  created o args s = d.handle s.history (Call.create o args)

  -- After the object was created, a failure to give it memory destroys it.
  allocate_shadow-Same :
      (o : Object) (args : List ℕ) (s : State) (reqs : Requirements)
      → reqs.size < 2 ^ 64
      → s.committed < 2 ^ 64
      → is_success (d.result s.history (Call.create o args)) ≡ true
      → let r = allocate_shadow d env dev o (created o args s) reqs (call (Call.create o args) s) in
        is_success r.0 ≡ false → Same d s r.2
  unfolding allocate_shadow opened
  allocate_shadow-Same o args s reqs h k e =
      elim (Bool-cases (reserve_budget (get_sparse_budget env) reqs.size s.committed).0) [
        | inr r ↦
            rw (r, allocate_shadow)
              (λ f. record {
                buffers = λ p. refl;
                images = λ p. refl;
                committed = refused_committed (get_sparse_budget env) reqs.size s.committed h k r;
                open_objects = λ o' p. opened-destroy_create d o o' args p s.history new e;
              })
        | inl r ↦
            elim (Bool-cases (
              is_success (d.result (Call.create o args ∷ s.history) (allocation d env dev reqs)))) [
                | inl q ↦ rw (r, q, allocate_shadow) (rw q (λ f. absurd (true≢false f)))
                | inr q ↦
                    rw (r, q, allocate_shadow)
                      (λ f. record {
                        buffers = λ p. refl;
                        images = λ p. refl;
                        committed =
                            released_committed (get_sparse_budget env) reqs.size s.committed h k r;
                        open_objects = λ o' p.
                            rw
                              (opened-failed d Object.memory o' _ p (Call.create o args ∷ s.history)
                                q)
                              (opened-destroy_create d o o' args p s.history new e);
                      })
              ]
      ]

-- The call itself failed.
pub not_created-Same :
    (d : Driver) (o : Object) (args : List ℕ) (s : State)
    → is_success (d.result s.history (Call.create o args)) ≡ false
    → Same d s (call (Call.create o args) s)
not_created-Same d o args s e = record {
  buffers = λ p. refl;
  images = λ p. refl;
  committed = refl;
  open_objects = λ o' p. opened-failed d o o' args p s.history e;
}

Same-refl : (d : Driver) (s : State) → Same d s s
Same-refl d s = record {
  buffers = λ p. refl;
  images = λ p. refl;
  committed = refl;
  open_objects = λ o p. refl;
}

module _ (d : Driver) (env : Option ℕ) (submit : (History → History) → History → VkResult × History)
    (new : MakesNewObjects d) (sizes : HasSizes d) where
  bind_sparse_buffer-Same :
      (dev : Device) (args : List ℕ) (size : ℕ) (s : State)
      → s.committed < 2 ^ 64
      → is_success (d.result s.history (Call.create Object.buffer args)) ≡ true
      → let handle = d.handle s.history (Call.create Object.buffer args) in
        let r = finish_buffer handle size (
          bind_sparse_buffer d env dev submit handle size
            (call (Call.create Object.buffer args) s)) in
        is_success r.0 ≡ false → Same d s r.2
  unfolding bind_sparse_buffer finish_buffer
  bind_sparse_buffer-Same dev args size s k e =
      let c = Call.create Object.buffer args in
      let handle = d.handle s.history c in
      let reqs = d.requirements (c ∷ s.history) Object.buffer handle in
      let shadow = allocate_shadow d env dev Object.buffer handle reqs (call c s) in
      elim (Bool-cases (is_success shadow.0)) [
        | inl q ↦ rw (q, bind_sparse_buffer, finish_buffer) (λ f. absurd (true≢false f))
        | inr q ↦
            rw (q, bind_sparse_buffer, finish_buffer)
              (rw q (λ f.
                allocate_shadow-Same d env dev new Object.buffer args s reqs
                  (sizes (c ∷ s.history) Object.buffer handle) k e q))
      ]

  create_buffer_on-Same :
      (dev : Device) (flags size usage : ℕ) (s : State)
      → s.committed < 2 ^ 64
      → let r = create_buffer d env submit (some dev) flags size usage s in
        is_success r.0 ≡ false → Same d s r.2
  unfolding create_buffer finish_buffer
  create_buffer_on-Same dev flags size usage s k =
      let made = λ (flags : ℕ). Call.create Object.buffer (flags ∷ size ∷ usage ∷ []) in
      let base = without_sparse flags in
      elim (Bool-cases (is_sparse dev flags)) [
        | inr n ↦
            rw (n, create_buffer)
              (elim (Bool-cases (is_success (d.result s.history (made flags)))) [
                | inr e ↦ rw e (λ f. not_created-Same d Object.buffer _ s e)
                | inl e ↦ rw (e, finish_buffer) (λ f. absurd (true≢false f))
              ])
        | inl y ↦
            rw (y, create_buffer)
              (elim (Bool-cases (is_success (d.result s.history (made base)))) [
                | inr e ↦ rw e (λ f. not_created-Same d Object.buffer _ s e)
                | inl e ↦ rw e (bind_sparse_buffer-Same dev (base ∷ size ∷ usage ∷ []) size s k e)
              ])
      ]

  -- A buffer that is not created leaves nothing behind: no buffer or memory open, no entry of the
  -- maps and no bytes committed that were not there before.
  pub create_buffer-Same :
      (dev : Option Device) (flags size usage : ℕ) (s : State)
      → s.committed < 2 ^ 64
      → is_success (create_buffer d env submit dev flags size usage s).0 ≡ false
      → Same d s (create_buffer d env submit dev flags size usage s).2
  unfolding create_buffer
  create_buffer-Same none flags size usage s k f = Same-refl d s
  create_buffer-Same (some dev) flags size usage s k f =
      create_buffer_on-Same dev flags size usage s k f

module _ (d : Driver) (env : Option ℕ) (new : MakesNewObjects d) (sizes : HasSizes d) where
  bind_sparse_image-Same :
      (dev : Device) (args : List ℕ) (format : ℕ) (is_depth : Bool) (s : State)
      → s.committed < 2 ^ 64
      → is_success (d.result s.history (Call.create Object.image args)) ≡ true
      → let handle = d.handle s.history (Call.create Object.image args) in
        let r = finish_image handle format (
          bind_sparse_image d env dev handle format is_depth
            (call (Call.create Object.image args) s)) in
        is_success r.0 ≡ false → Same d s r.2
  unfolding bind_sparse_image finish_image
  bind_sparse_image-Same dev args format is_depth s k e =
      let c = Call.create Object.image args in
      let handle = d.handle s.history c in
      let reqs = d.requirements (c ∷ s.history) Object.image handle in
      let shadow = allocate_shadow d env dev Object.image handle reqs (call c s) in
      elim (Bool-cases (is_success shadow.0)) [
        | inl q ↦ rw (q, bind_sparse_image, finish_image) (λ f. absurd (true≢false f))
        | inr q ↦
            rw (q, bind_sparse_image, finish_image)
              (rw q (λ f.
                allocate_shadow-Same d env dev new Object.image args s reqs
                  (sizes (c ∷ s.history) Object.image handle) k e q))
      ]

  create_image_on-Same :
      (dev : Device) (info : ImageInfo) (s : State)
      → s.committed < 2 ^ 64
      → let r = create_image d env (some dev) info s in is_success r.0 ≡ false → Same d s r.2
  unfolding create_image finish_image
  create_image_on-Same dev info s k =
      let args =
        λ (flags : ℕ). flags ∷ info.format ∷ (if info.is_depth then 1 else 0) ∷ info.rest in
      let made = λ (flags : ℕ). Call.create Object.image (args flags) in
      let base = without_sparse info.flags in
      elim (Bool-cases (is_sparse dev info.flags)) [
        | inr n ↦
            rw (n, create_image)
              (elim (Bool-cases (is_success (d.result s.history (made info.flags)))) [
                | inr e ↦ rw e (λ f. not_created-Same d Object.image _ s e)
                | inl e ↦ rw (e, finish_image) (λ f. absurd (true≢false f))
              ])
        | inl y ↦
            rw (y, create_image)
              (elim (Bool-cases (is_success (d.result s.history (made base)))) [
                | inr e ↦ rw e (λ f. not_created-Same d Object.image _ s e)
                | inl e ↦
                    rw e (bind_sparse_image-Same dev (args base) info.format info.is_depth s k e)
              ])
      ]

  -- An image that is not created leaves nothing behind: no image or memory open, no entry of the
  -- maps and no bytes committed that were not there before.
  pub create_image-Same :
      (dev : Option Device) (info : ImageInfo) (s : State)
      → s.committed < 2 ^ 64
      → is_success (create_image d env dev info s).0 ≡ false
      → Same d s (create_image d env dev info s).2
  unfolding create_image
  create_image-Same none info s k f = Same-refl d s
  create_image-Same (some dev) info s k f = create_image_on-Same dev info s k f
