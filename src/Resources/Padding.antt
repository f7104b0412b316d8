-- ===== src/Resources/Padding.antt =====
-- src/sparse_binding.cpp: a sparse buffer reserves what the driver requires for it, and releases
-- the size that the application asked for.
use compat_layer.Prelude.{
  ℕ, ◌+◌, ◌-◌, ◌%◌, ◌^◌, ◌<◌, ◌≡◌, refl, ap, ◌∙◌, true, false≢true, List, [], ◌∷◌, Option, some,
  find-insert_self, Bool-cases, inl, inr,
}
use compat_layer.Device.{Device}
use compat_layer.Driver.{Driver, History, Call, Object, VkResult, is_success}
use compat_layer.Driver.Objects.{MakesNewObjects}
use compat_layer.Sparse.Budget.{get_sparse_budget, release_budget}
use compat_layer.Sparse.Budget.Threads.{reserved_committed}
use compat_layer.Resources.{State, DenseSparseResource, call, bind_buffer_memory}
use compat_layer.Resources.RoundTrip.{allocate_shadow-success}
use compat_layer.Resources.Shadow.{
  allocate_shadow, bind_sparse_buffer, destroy_sparse, clear_resource,
}
use compat_layer.Resources.Buffers.{
  without_sparse, create_buffer, finish_buffer, add_buffer, new_buffer, is_sparse, destroy_buffer,
}

module _ (d : Driver) (env : Option ℕ) (submit : (History → History) → History → VkResult × History)
    (new : MakesNewObjects d) (dev : Device) where
  bind_buffer_memory-committed :
      (buffer memory offset : ℕ) (s : State)
      → (bind_buffer_memory d (some dev) buffer memory offset s).1.committed ≡ s.committed
  unfolding bind_buffer_memory
  bind_buffer_memory-committed buffer memory offset s =
      elim (Bool-cases
        (is_success (d.result s.history (Call.bind_buffer_memory buffer memory offset)))) [
          | inl e ↦ rw (e, bind_buffer_memory) refl
          | inr e ↦ rw (e, bind_buffer_memory) refl
        ]

  destroy_buffer-add :
      (handle size : ℕ) (res : DenseSparseResource) (t : State)
      → (destroy_buffer (some dev) handle (add_buffer handle size (some res) t)).committed
        ≡ release_budget res.virtual_size t.committed
  unfolding destroy_buffer add_buffer destroy_sparse
  destroy_buffer-add handle size res t =
      rw (find-insert_self handle (new_buffer size (some res)) t.buffers, destroy_buffer) refl

  sparse_buffer-committed :
      (args : List ℕ) (size : ℕ) (s : State)
      → s.committed < 2 ^ 64
      → size < 2 ^ 64
      → let c = Call.create Object.buffer args in
        let handle = d.handle s.history c in
        let reqs = d.requirements (c ∷ s.history) Object.buffer handle in
        let r =
          finish_buffer handle size (bind_sparse_buffer d env dev submit handle size (call c s)) in
        is_success r.0 ≡ true
        → (destroy_buffer (some dev) r.1 r.2).committed
          ≡ (s.committed + reqs.size + 2 ^ 64 - size) % 2 ^ 64
  unfolding bind_sparse_buffer finish_buffer clear_resource
  sparse_buffer-committed args size s k l =
      let c = Call.create Object.buffer args in
      let handle = d.handle s.history c in
      let reqs = d.requirements (c ∷ s.history) Object.buffer handle in
      let shadow = allocate_shadow d env dev Object.buffer handle reqs (call c s) in
      elim (Bool-cases (is_success shadow.0)) [
        | inr q ↦
            rw (q, bind_sparse_buffer, finish_buffer) (rw q (rw q (λ f. absurd (false≢true f))))
        | inl q ↦
            rw (q, bind_sparse_buffer, finish_buffer)
              (λ f.
                let (r, q', m, t) =
                  allocate_shadow-success d new env dev Object.buffer handle reqs (call c s) q in
                destroy_buffer-add handle size _ _
                ∙ ap (release_budget size) (
                    bind_buffer_memory-committed handle shadow.1 0 shadow.2
                    ∙ ap (λ x. x.committed) t)
                ∙ reserved_committed (get_sparse_budget env) reqs.size size s.committed l r)
      ]

  -- After a sparse buffer is created and destroyed the committed bytes have grown by what the
  -- driver required for it beyond its size, so they return to what they were only if that is
  -- nothing.
  pub destroy_buffer-create :
      (flags size usage : ℕ) (s : State)
      → s.committed < 2 ^ 64
      → size < 2 ^ 64
      → is_sparse dev flags ≡ true
      → let c = Call.create Object.buffer (without_sparse flags ∷ size ∷ usage ∷ []) in
        let reqs = d.requirements (c ∷ s.history) Object.buffer (d.handle s.history c) in
        let r = create_buffer d env submit (some dev) flags size usage s in
        is_success r.0 ≡ true
        → (destroy_buffer (some dev) r.1 r.2).committed
          ≡ (s.committed + reqs.size + 2 ^ 64 - size) % 2 ^ 64
  unfolding create_buffer
  destroy_buffer-create flags size usage s k l y =
      let args = without_sparse flags ∷ size ∷ usage ∷ [] in
      let made = Call.create Object.buffer args in
      rw (y, create_buffer)
        (elim (Bool-cases (is_success (d.result s.history made))) [
          | inr e ↦ rw e (rw e (λ f. absurd (false≢true f)))
          | inl e ↦ rw e (sparse_buffer-committed args size s k l)
        ])
