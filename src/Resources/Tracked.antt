-- ===== src/Resources/Tracked.antt =====
-- src/buffer.cpp and src/image.cpp: when the maps hold the buffers and images that are open in the
-- driver, and that destroying one keeps it so.
use compat_layer.Prelude.{
  ℕ, ◌≡◌, refl, ◌^◌, ◌<◌, true, List, Option, none, some, find, holds, find-insert, find-erase, inl,
  inr, arith, Option-cases,
}
use compat_layer.Device.{Device}
use compat_layer.Driver.{Driver, Call, Object, is_success}
use compat_layer.Driver.Objects.{opened, opened-create_other, opened-destroy_other}
use compat_layer.Sparse.Budget.{release_budget}
use compat_layer.Resources.{State, DenseSparseResource, call}
use compat_layer.Resources.Balance.{Same}
use compat_layer.Resources.Steps.{Keeps}
use compat_layer.Resources.Shadow.{destroy_sparse}
use compat_layer.Resources.Buffers.{add_buffer, new_buffer, destroy_buffer}
use compat_layer.Resources.Images.{add_image, destroy_image}

pub record IsTracked (d : Driver) (s : State) : Type 0 where
  pub small : s.committed < 2 ^ 64
  pub buffers : (p : ℕ) → holds p s.buffers ≡ opened d Object.buffer p s.history
  pub images : (p : ℕ) → holds p s.images ≡ opened d Object.image p s.history

module _ (d : Driver) where
  pub Same-IsTracked : (s s' : State) → Same d s s' → IsTracked d s → IsTracked d s'
  Same-IsTracked s s' e v = record {
    small = omega (arith, e.committed, v.small);
    buffers = λ p. ground (arith, e.buffers p, e.open_objects Object.buffer p, v.buffers p);
    images = λ p. ground (arith, e.images p, e.open_objects Object.image p, v.images p);
  }

  pub Keeps-IsTracked : (s s' : State) → Keeps d s s' → IsTracked d s → IsTracked d s'
  Keeps-IsTracked s s' k v = record {
    small = k.small;
    buffers = λ p. omega (arith, k.buffers p, k.open_buffers p, v.buffers p);
    images = λ p. omega (arith, k.images p, k.open_images p, v.images p);
  }

  pub add_buffer-IsTracked :
      (args : List ℕ) (size : ℕ) (sparse : Option DenseSparseResource) (s s' : State)
      → is_success (d.result s.history (Call.create Object.buffer args)) ≡ true
      → Keeps d (call (Call.create Object.buffer args) s) s'
      → IsTracked d s
      → IsTracked d
          (add_buffer (d.handle s.history (Call.create Object.buffer args)) size sparse s')
  unfolding add_buffer opened
  add_buffer-IsTracked args size sparse s s' e k v =
      let handle = d.handle s.history (Call.create Object.buffer args) in
      record {
        small = k.small;
        buffers = λ p. ground (
          arith,
          find-insert handle p (new_buffer size sparse) s'.buffers,
          k.buffers p,
          k.open_buffers p,
          v.buffers p,
          e,
        );
        images = λ p. omega (
          arith,
          k.images p,
          k.open_images p,
          v.images p,
          opened-create_other d Object.image Object.buffer p s.history args refl,
        );
      }

  pub add_image-IsTracked :
      (args : List ℕ) (format : ℕ) (sparse : Option DenseSparseResource) (s s' : State)
      → is_success (d.result s.history (Call.create Object.image args)) ≡ true
      → Keeps d (call (Call.create Object.image args) s) s'
      → IsTracked d s
      → IsTracked d
          (add_image (d.handle s.history (Call.create Object.image args)) format sparse s')
  unfolding add_image opened
  add_image-IsTracked args format sparse s s' e k v =
      let handle = d.handle s.history (Call.create Object.image args) in
      record {
        small = k.small;
        images = λ p. ground (
          arith,
          find-insert handle p (record { format = format; sparse = sparse }) s'.images,
          k.images p,
          k.open_images p,
          v.images p,
          e,
        );
        buffers = λ p. omega (
          arith,
          k.buffers p,
          k.open_buffers p,
          v.buffers p,
          opened-create_other d Object.buffer Object.image p s.history args refl,
        );
      }

  pub plain-Keeps :
      (o : Object) (args : List ℕ) (s : State)
      → s.committed < 2 ^ 64
      → Keeps d (call (Call.create o args) s) (call (Call.create o args) s)
  plain-Keeps o args s k = record {
    small = k;
    buffers = λ p. refl;
    images = λ p. refl;
    open_buffers = λ p. refl;
    open_images = λ p. refl;
  }

  destroy_sparse-Keeps :
      (sparse : Option DenseSparseResource) (s : State)
      → s.committed < 2 ^ 64
      → Keeps d s (destroy_sparse sparse s).1
  unfolding destroy_sparse release_budget
  destroy_sparse-Keeps none s k = record {
    small = k;
    buffers = λ p. refl;
    images = λ p. refl;
    open_buffers = λ p. refl;
    open_images = λ p. refl;
  }
  destroy_sparse-Keeps (some res) s k = record {
    small = omega arith;
    buffers = λ p. refl;
    images = λ p. refl;
    open_buffers = λ p. opened-destroy_other d Object.buffer Object.memory p s.history _ refl;
    open_images = λ p. opened-destroy_other d Object.image Object.memory p s.history _ refl;
  }

  pub destroy_buffer-IsTracked :
      (dev : Option Device) (handle : ℕ) (s : State)
      → IsTracked d s
      → IsTracked d (destroy_buffer dev handle s)
  unfolding destroy_buffer opened
  destroy_buffer-IsTracked none handle s v = v
  destroy_buffer-IsTracked (some dev) handle s v = elim (Option-cases (find handle s.buffers)) [
    | inl e ↦ rw (e, destroy_buffer) v
    | inr (b, e) ↦
        let s1 = call (Call.destroy Object.buffer handle) s in
        let s2 = (destroy_sparse b.sparse s1).1 in
        let k = destroy_sparse-Keeps b.sparse s1 v.small in
        rw (e, destroy_buffer)
          (record {
            small = k.small;
            buffers = λ p.
                ground (
                  arith,
                  find-erase handle p s2.buffers,
                  k.buffers p,
                  k.open_buffers p,
                  v.buffers p,
                );
            images = λ p. omega (
              arith,
              k.images p,
              k.open_images p,
              v.images p,
              opened-destroy_other d Object.image Object.buffer p s.history handle refl,
            );
          })
  ]

  pub destroy_image-IsTracked :
      (dev : Option Device) (handle : ℕ) (s : State)
      → IsTracked d s
      → IsTracked d (destroy_image dev handle s)
  unfolding destroy_image opened
  destroy_image-IsTracked none handle s v = v
  destroy_image-IsTracked (some dev) handle s v = elim (Option-cases (find handle s.images)) [
    | inl e ↦ rw (e, destroy_image) v
    | inr (b, e) ↦
        let s1 = call (Call.destroy Object.image handle) s in
        let s2 = (destroy_sparse b.sparse s1).1 in
        let k = destroy_sparse-Keeps b.sparse s1 v.small in
        rw (e, destroy_image)
          (record {
            small = k.small;
            images = λ p.
                ground
                  (arith, find-erase handle p s2.images, k.images p, k.open_images p, v.images p);
            buffers = λ p. omega (
              arith,
              k.buffers p,
              k.open_buffers p,
              v.buffers p,
              opened-destroy_other d Object.buffer Object.image p s.history handle refl,
            );
          })
  ]
