-- ===== src/Resources/Steps.antt =====
-- src/buffer.cpp, src/image.cpp and src/sparse_binding.cpp: what the steps of a creation after the
-- driver's call keep.
use compat_layer.Prelude.{
  ℕ, ◌≡◌, refl, sym, false≢true, Option-cases, ◌∙◌, ◌^◌, ◌<◌, true, Bool, List, [], ◌∷◌, Option,
  none, some, Dict, find, holds, find-insert, Bool-cases, inl, inr, arith,
}
use compat_layer.Device.{Device}
use compat_layer.Driver.{Driver, History, Call, Object, VkResult, Requirements, is_success}
use compat_layer.Driver.Objects.{opened, opened-create_other}
use compat_layer.Resources.{
  State, Buffer, DenseSparseResource, Kind, of_buffer, of_image, color, depth, call, set_memory,
  set_memories, bind_buffer_memory,
}
use compat_layer.Sparse.Budget.{get_sparse_budget, reserve_budget}
use compat_layer.Sparse.Budget.Threads.{reserve_budget-small}
use compat_layer.Resources.Shadow.{
  allocation, allocate_shadow, clear_resource, record_clear, bind_sparse_buffer, bind_sparse_image,
}

-- A recording that opens and closes nothing is submitted without opening or closing a buffer or
-- an image.
abbrev pub KeepsObjects : Driver → ((History → History) → History → VkResult × History) → Type 0
KeepsObjects d submit =
    (f : History → History)
    → ((o : Object) (p : ℕ) (h : History) → opened d o p (f h) ≡ opened d o p h)
    → (p : ℕ) (h : History)
    → (opened d Object.buffer p (submit f h).1 ≡ opened d Object.buffer p h)
      × (opened d Object.image p (submit f h).1 ≡ opened d Object.image p h)

-- What the later steps of a creation keep: the keys of the maps, and what is open.
pub record Keeps (d : Driver) (s s' : State) : Type 0 where
  pub small : s'.committed < 2 ^ 64
  pub buffers : (p : ℕ) → holds p s'.buffers ≡ holds p s.buffers
  pub images : (p : ℕ) → holds p s'.images ≡ holds p s.images
  pub open_buffers :
      (p : ℕ) → opened d Object.buffer p s'.history ≡ opened d Object.buffer p s.history
  pub open_images : (p : ℕ) → opened d Object.image p s'.history ≡ opened d Object.image p s.history

holds-set_memory :
    (p buffer memory offset : ℕ) (m : Dict Buffer)
    → holds p (set_memory buffer memory offset m) ≡ holds p m
unfolding set_memory
holds-set_memory p buffer memory offset m = elim (Option-cases (find buffer m)) [
  | inl e ↦ rw (e, set_memory) refl
  | inr (b, e) ↦
      rw (e, set_memory)
        (ground (arith, e, find-insert buffer p (record b { memory = memory; offset = offset }) m))
]

pub holds-set_memories :
    (p : ℕ) (binds : List (ℕ × ℕ × ℕ)) (m : Dict Buffer)
    → holds p (set_memories binds m) ≡ holds p m
unfolding set_memories
holds-set_memories p [] m = refl
holds-set_memories p ((buffer, memory, offset) ∷ rest) m =
    holds-set_memories p rest (set_memory buffer memory offset m)
    ∙ holds-set_memory p buffer memory offset m

opened-record_clear :
    (d : Driver) (kind : Kind) (offset size : ℕ) (o : Object) (p : ℕ) (h : History)
    → opened d o p (record_clear kind offset size h) ≡ opened d o p h
unfolding opened record_clear
opened-record_clear d (of_buffer buffer) offset size o p h = refl
opened-record_clear d (of_image image color g resident) offset size o p h = refl
opened-record_clear d (of_image image depth g resident) offset size o p h = refl

module _ (d : Driver) where
  pub call-Keeps :
      (c : Call) (s : State)
      → s.committed < 2 ^ 64
      → ((p : ℕ) → opened d Object.buffer p (c ∷ s.history) ≡ opened d Object.buffer p s.history)
      → ((p : ℕ) → opened d Object.image p (c ∷ s.history) ≡ opened d Object.image p s.history)
      → Keeps d s (call c s)
  call-Keeps c s k b i = record {
    small = k;
    buffers = λ p. refl;
    images = λ p. refl;
    open_buffers = b;
    open_images = i;
  }

  pub bind_buffer_memory-Keeps :
      (dev : Option Device) (buffer memory offset : ℕ) (s : State)
      → s.committed < 2 ^ 64
      → Keeps d s (bind_buffer_memory d dev buffer memory offset s).1
  unfolding bind_buffer_memory opened
  bind_buffer_memory-Keeps none buffer memory offset s k = record {
    small = k;
    buffers = λ p. refl;
    images = λ p. refl;
    open_buffers = λ p. refl;
    open_images = λ p. refl;
  }
  bind_buffer_memory-Keeps (some dev) buffer memory offset s k =
      let c = Call.bind_buffer_memory buffer memory offset in
      elim (Bool-cases (is_success (d.result s.history c))) [
        | inl e ↦
            rw (e, bind_buffer_memory)
              (record {
                small = k;
                buffers = λ p. holds-set_memory p buffer memory offset s.buffers;
                images = λ p. refl;
                open_buffers = λ p. refl;
                open_images = λ p. refl;
              })
        | inr e ↦ rw (e, bind_buffer_memory) (call-Keeps c s k (λ p. refl) (λ p. refl))
      ]

  allocate_shadow-Keeps :
      (env : Option ℕ) (dev : Device) (o : Object) (handle : ℕ) (reqs : Requirements) (s : State)
      → let r = allocate_shadow d env dev o handle reqs s in is_success r.0 ≡ true → Keeps d s r.2
  unfolding allocate_shadow opened
  allocate_shadow-Keeps env dev o handle reqs s =
      elim (Bool-cases (reserve_budget (get_sparse_budget env) reqs.size s.committed).0) [
        | inr r ↦ rw (r, allocate_shadow) (λ f. absurd (false≢true f))
        | inl r ↦
            rw (r, allocate_shadow)
              (elim (Bool-cases (is_success (d.result s.history (allocation d env dev reqs)))) [
                | inr q ↦ rw q (λ f. absurd (false≢true (sym q ∙ f)))
                | inl q ↦ rw q (λ f. record {
                  small = reserve_budget-small (get_sparse_budget env) reqs.size s.committed;
                  buffers = λ p. refl;
                  images = λ p. refl;
                  open_buffers =
                      λ p. opened-create_other d Object.buffer Object.memory p s.history _ refl;
                  open_images =
                      λ p. opened-create_other d Object.image Object.memory p s.history _ refl;
                })
              ])
      ]

  Keeps-trans : (s t u : State) → Keeps d s t → Keeps d t u → Keeps d s u
  Keeps-trans s t u k l = record {
    small = l.small;
    buffers = λ p. l.buffers p ∙ k.buffers p;
    images = λ p. l.images p ∙ k.images p;
    open_buffers = λ p. l.open_buffers p ∙ k.open_buffers p;
    open_images = λ p. l.open_images p ∙ k.open_images p;
  }

  clear_resource-Keeps :
      (env : Option ℕ) (dev : Device) (submit : (History → History) → History → VkResult × History)
      (res : DenseSparseResource) (offset size : ℕ) (s : State)
      → KeepsObjects d submit
      → s.committed < 2 ^ 64
      → Keeps d s (clear_resource d env dev submit res offset size s)
  unfolding clear_resource
  clear_resource-Keeps env dev submit res offset size s keeps k =
      let kept =
        keeps (record_clear res.kind offset size) (opened-record_clear d res.kind offset size) in
      record {
        small = k;
        buffers = λ p. refl;
        images = λ p. refl;
        open_buffers = λ p. (kept p s.history).0;
        open_images = λ p. (kept p s.history).1;
      }

  pub bind_sparse_buffer-Keeps :
      (env : Option ℕ) (dev : Device) (submit : (History → History) → History → VkResult × History)
      (handle size : ℕ) (s : State)
      → KeepsObjects d submit
      → let r = bind_sparse_buffer d env dev submit handle size s in
        is_success r.0 ≡ true → Keeps d s r.2
  unfolding bind_sparse_buffer
  bind_sparse_buffer-Keeps env dev submit handle size s keeps =
      let reqs = d.requirements s.history Object.buffer handle in
      let shadow = allocate_shadow d env dev Object.buffer handle reqs s in
      elim (Bool-cases (is_success shadow.0)) [
        | inr q ↦ rw (q, bind_sparse_buffer) (rw q (λ f. absurd (false≢true f)))
        | inl q ↦
            rw (q, bind_sparse_buffer)
              (λ f.
                let k = allocate_shadow-Keeps env dev Object.buffer handle reqs s q in
                let b = bind_buffer_memory-Keeps (some dev) handle shadow.1 0 shadow.2 k.small in
                Keeps-trans s _ _ k (
                  Keeps-trans _ _ _ b
                    (clear_resource-Keeps env dev submit _ 0 size _ keeps b.small)))
      ]

  pub bind_sparse_image-Keeps :
      (env : Option ℕ) (dev : Device) (handle format : ℕ) (is_depth : Bool) (s : State)
      → let r = bind_sparse_image d env dev handle format is_depth s in
        is_success r.0 ≡ true → Keeps d s r.2
  unfolding bind_sparse_image opened
  bind_sparse_image-Keeps env dev handle format is_depth s =
      let reqs = d.requirements s.history Object.image handle in
      let shadow = allocate_shadow d env dev Object.image handle reqs s in
      elim (Bool-cases (is_success shadow.0)) [
        | inr q ↦ rw (q, bind_sparse_image) (rw q (λ f. absurd (false≢true f)))
        | inl q ↦
            rw (q, bind_sparse_image)
              (λ f.
                let k = allocate_shadow-Keeps env dev Object.image handle reqs s q in
                Keeps-trans s _ _ k (call-Keeps _ shadow.2 k.small (λ p. refl) (λ p. refl)))
      ]
