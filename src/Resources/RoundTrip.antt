-- ===== src/Resources/RoundTrip.antt =====
-- src/image.cpp and src/buffer.cpp: what is created and destroyed again.
use compat_layer.Prelude.{
  ℕ, ◌≡◌, refl, sym, ap, ◌∙◌, true, false, false≢true, Bool, List, ◌∷◌, Option, none, some, find,
  find-insert_self, find-erase-insert, holds-none, ◌==◌, if◌then◌else◌, Bool-cases, inl, inr,
}
use compat_layer.Device.{Device}
use compat_layer.Driver.{Driver, History, Call, Object, Requirements, is_success}
use compat_layer.Driver.Objects.{
  MakesNewObjects, number, opened, is_it, opened-is_it, opened-create_other,
}
use compat_layer.Sparse.Budget.{get_sparse_budget, reserve_budget, release_budget}
use compat_layer.Sparse.Budget.Threads.{released_committed}
use compat_layer.Resources.{State, Image, DenseSparseResource, call}
use compat_layer.Resources.Balance.{Same, HasSizes, opened-destroy_create}
use compat_layer.Resources.Tracked.{IsTracked}
use compat_layer.Resources.Shadow.{allocation, allocate_shadow, bind_sparse_image, destroy_sparse}
use compat_layer.Resources.Buffers.{without_sparse, is_sparse}
use compat_layer.Resources.Images.{create_image, finish_image, add_image, ImageInfo, destroy_image}

module _ (d : Driver) (new : MakesNewObjects d) where
  -- Two objects of different kinds are created, and destroyed in the same order.
  pub opened-destroy_both :
      (o1 o2 o : Object) (args1 args2 : List ℕ) (p : ℕ) (h : History)
      → (number o1 == number o2) ≡ false
      → is_success (d.result h (Call.create o1 args1)) ≡ true
      → is_success (d.result (Call.create o1 args1 ∷ h) (Call.create o2 args2)) ≡ true
      → let h1 = Call.create o1 args1 ∷ h in
        (if is_it o2 (d.handle h1 (Call.create o2 args2)) o p
          then 0
          else (if is_it o1 (d.handle h (Call.create o1 args1)) o p
              then 0
              else opened d o p (Call.create o2 args2 ∷ h1)))
        ≡ opened d o p h
  unfolding opened
  opened-destroy_both o1 o2 o args1 args2 p h n e1 e2 =
      let h1 = Call.create o1 args1 ∷ h in
      let p1 = d.handle h (Call.create o1 args1) in
      let p2 = d.handle h1 (Call.create o2 args2) in
      elim (Bool-cases (is_it o2 p2 o p)) [
        | inl k ↦ rw k (
            sym (
              opened-is_it d o o2 p p2 h k
              ∙ sym (opened-create_other d o2 o1 p2 h args1 n)
              ∙ (new h1 o2 args2 e2).1))
        | inr k ↦ rw k (elim (Bool-cases (is_it o1 p1 o p)) [
          | inl j ↦ rw j (sym (opened-is_it d o o1 p p1 h j ∙ (new h o1 args1 e1).1))
          | inr j ↦ rw (e1, e2, j) refl
        ])
      ]

  module _ (env : Option ℕ) (dev : Device) where
    -- What a success of `allocate_shadow` says of its parts.
    pub allocate_shadow-success :
        (o : Object) (handle : ℕ) (reqs : Requirements) (s : State)
        → let r = allocate_shadow d env dev o handle reqs s in
          let b = reserve_budget (get_sparse_budget env) reqs.size s.committed in
          let c = allocation d env dev reqs in
          is_success r.0 ≡ true
          → (b.0 ≡ true)
            × (is_success (d.result s.history c) ≡ true)
            × (r.1 ≡ d.handle s.history c)
            × (r.2 ≡ call c (record s { committed = b.1 }))
    unfolding allocate_shadow
    allocate_shadow-success o handle reqs s =
        elim (Bool-cases (reserve_budget (get_sparse_budget env) reqs.size s.committed).0) [
          | inr r ↦ rw (r, allocate_shadow) (λ f. absurd (false≢true f))
          | inl r ↦
              rw (r, allocate_shadow)
                (elim (Bool-cases (is_success (d.result s.history (allocation d env dev reqs)))) [
                  | inr q ↦ rw q (rw q (λ f. absurd (false≢true f)))
                  | inl q ↦ rw q (λ f. (refl, refl, refl, refl))
                ])
        ]

    destroy_image-add :
        (handle format : ℕ) (res : DenseSparseResource) (s t : State)
        → find handle s.images ≡ none
        → t.images ≡ s.images
        → t.buffers ≡ s.buffers
        → release_budget res.virtual_size t.committed ≡ s.committed
        → ((o : Object) (p : ℕ)
            → opened d o p (
                Call.destroy Object.memory res.shadow_memory
                ∷ Call.destroy Object.image handle
                ∷ t.history)
              ≡ opened d o p s.history)
        → Same d s (destroy_image (some dev) handle (add_image handle format (some res) t))
    unfolding destroy_image add_image destroy_sparse
    destroy_image-add handle format res s t n i b k h =
        let img : Image = record { format = format; sparse = some res } in
        rw (find-insert_self handle img t.images, destroy_image)
          (record {
            buffers = λ p. ap (find p) b;
            images = λ p.
                find-erase-insert handle p img t.images (ap (find handle) i ∙ n) ∙ ap (find p) i;
            committed = k;
            open_objects = h;
          })

    opened-shadow :
        (o : Object) (args args' : List ℕ) (p memory : ℕ) (h' h : History)
        → is_success (d.result h (Call.create Object.image args)) ≡ true
        → let h1 = Call.create Object.image args ∷ h in
          let c = Call.create Object.memory args' in
          is_success (d.result h1 c) ≡ true
          → memory ≡ d.handle h1 c
          → h' ≡ c ∷ h1
          → let handle = d.handle h (Call.create Object.image args) in
            opened d o p (
              Call.destroy Object.memory memory
              ∷ Call.destroy Object.image handle
              ∷ Call.bind_image_memory handle memory 0
              ∷ h')
            ≡ opened d o p h
    unfolding opened
    opened-shadow o args args' p memory h' h e q m t =
        rw (m, t) (opened-destroy_both Object.image Object.memory o args args' p h refl e q)

    -- The memory of a sparse image goes with it, and the bytes that were committed for it.
    sparse_image-Same :
        (args : List ℕ) (format : ℕ) (is_depth : Bool) (s : State)
        → HasSizes d
        → IsTracked d s
        → is_success (d.result s.history (Call.create Object.image args)) ≡ true
        → let handle = d.handle s.history (Call.create Object.image args) in
          let r = finish_image handle format (
            bind_sparse_image d env dev handle format is_depth
              (call (Call.create Object.image args) s)) in
          is_success r.0 ≡ true → Same d s (destroy_image (some dev) r.1 r.2)
    unfolding bind_sparse_image finish_image add_image destroy_image destroy_sparse
    sparse_image-Same args format is_depth s sizes v e =
        let c = Call.create Object.image args in
        let handle = d.handle s.history c in
        let reqs = d.requirements (c ∷ s.history) Object.image handle in
        let shadow = allocate_shadow d env dev Object.image handle reqs (call c s) in
        elim (Bool-cases (is_success shadow.0)) [
          | inr q ↦
              rw (q, bind_sparse_image, finish_image) (rw q (rw q (λ f. absurd (false≢true f))))
          | inl q ↦
              rw (q, bind_sparse_image, finish_image)
                (λ f.
                  let (r, q', m, t) =
                    allocate_shadow-success Object.image handle reqs (call c s) q in
                  destroy_image-add handle format _ s _
                    (holds-none handle s.images
                      (v.images handle ∙ (new s.history Object.image args e).1))
                    (ap (λ x. x.images) t) (ap (λ x. x.buffers) t)
                    (ap (λ x. release_budget reqs.size x.committed) t
                      ∙ released_committed (get_sparse_budget env) reqs.size s.committed
                          (sizes (c ∷ s.history) Object.image handle) v.small r)
                    (λ o p.
                      opened-shadow o args _ p shadow.1 (shadow.2).history s.history e q' m
                        (ap (λ x. x.history) t)))
        ]

    plain_image-Same :
        (args : List ℕ) (format : ℕ) (s : State)
        → IsTracked d s
        → is_success (d.result s.history (Call.create Object.image args)) ≡ true
        → let c = Call.create Object.image args in
          Same d s (
            destroy_image
              (some dev)
              (d.handle s.history c)
              (add_image (d.handle s.history c) format none (call c s)))
    unfolding destroy_image add_image destroy_sparse opened
    plain_image-Same args format s v e =
        let c = Call.create Object.image args in
        let handle = d.handle s.history c in
        let img : Image = record { format = format; sparse = none } in
        rw (find-insert_self handle img s.images, destroy_image)
          (record {
            buffers = λ p. refl;
            images = λ p. find-erase-insert handle p img s.images (
                holds-none handle s.images
                  (v.images handle ∙ (new s.history Object.image args e).1));
            committed = refl;
            open_objects = λ o p. opened-destroy_create d Object.image o args p s.history new e;
          })

    -- An image that is created, sparse or not, and destroyed leaves nothing behind: no image or
    -- memory open, no entry of the maps and no bytes committed that were not there before.
    pub destroy_image-create :
        (info : ImageInfo) (s : State)
        → HasSizes d
        → IsTracked d s
        → let r = create_image d env (some dev) info s in
          is_success r.0 ≡ true → Same d s (destroy_image (some dev) r.1 r.2)
    unfolding create_image finish_image
    destroy_image-create info s sizes v =
        let args =
          λ (flags : ℕ). flags ∷ info.format ∷ (if info.is_depth then 1 else 0) ∷ info.rest in
        let made = λ (flags : ℕ). Call.create Object.image (args flags) in
        let base = without_sparse info.flags in
        elim (Bool-cases (is_sparse dev info.flags)) [
          | inr n ↦
              rw (n, create_image)
                (elim (Bool-cases (is_success (d.result s.history (made info.flags)))) [
                  | inr e ↦ rw e (rw e (λ f. absurd (false≢true f)))
                  | inl e ↦
                      rw (e, finish_image)
                        (λ f. plain_image-Same (args info.flags) info.format s v e)
                ])
          | inl y ↦
              rw (y, create_image)
                (elim (Bool-cases (is_success (d.result s.history (made base)))) [
                  | inr e ↦ rw e (rw e (λ f. absurd (false≢true f)))
                  | inl e ↦
                      rw e (sparse_image-Same (args base) info.format info.is_depth s sizes v e)
                ])
        ]
