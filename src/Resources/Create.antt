-- ===== src/Resources/Create.antt =====
-- src/buffer.cpp and src/image.cpp: a creation keeps the maps in step with the driver.
use compat_layer.Prelude.{
  ℕ, ◌≡◌, true, false≢true, List, [], ◌∷◌, Option, none, some, if◌then◌else◌, Bool-cases, inl, inr,
}
use compat_layer.Device.{Device}
use compat_layer.Driver.{Driver, History, Call, Object, VkResult, is_success}
use compat_layer.Driver.Objects.{MakesNewObjects}
use compat_layer.Resources.{State, call}
use compat_layer.Resources.Balance.{HasSizes}
use compat_layer.Resources.Steps.{
  Keeps, KeepsObjects, bind_sparse_buffer-Keeps, bind_sparse_image-Keeps,
}
use compat_layer.Resources.Failures.{create_buffer-Same, create_image-Same}
use compat_layer.Resources.Tracked.{
  IsTracked, Same-IsTracked, add_buffer-IsTracked, add_image-IsTracked, plain-Keeps,
}
use compat_layer.Resources.Buffers.{without_sparse, create_buffer, finish_buffer, is_sparse}
use compat_layer.Resources.Images.{create_image, finish_image, ImageInfo}

module _ (d : Driver) (env : Option ℕ) where
  finish_buffer-IsTracked :
      (args : List ℕ) (size : ℕ) (b : VkResult × Option _ × State) (s : State)
      → is_success (d.result s.history (Call.create Object.buffer args)) ≡ true
      → (is_success b.0 ≡ true → Keeps d (call (Call.create Object.buffer args) s) b.2)
      → IsTracked d s
      → let r = finish_buffer (d.handle s.history (Call.create Object.buffer args)) size b in
        is_success r.0 ≡ true → IsTracked d r.2
  unfolding finish_buffer
  finish_buffer-IsTracked args size b s e k v = elim (Bool-cases (is_success b.0)) [
    | inl q ↦ rw (q, finish_buffer) (λ f. add_buffer-IsTracked d args size b.1 s b.2 e (k q) v)
    | inr q ↦ rw (q, finish_buffer) (rw q (λ f. absurd (false≢true f)))
  ]

  finish_image-IsTracked :
      (args : List ℕ) (format : ℕ) (b : VkResult × Option _ × State) (s : State)
      → is_success (d.result s.history (Call.create Object.image args)) ≡ true
      → (is_success b.0 ≡ true → Keeps d (call (Call.create Object.image args) s) b.2)
      → IsTracked d s
      → let r = finish_image (d.handle s.history (Call.create Object.image args)) format b in
        is_success r.0 ≡ true → IsTracked d r.2
  unfolding finish_image
  finish_image-IsTracked args format b s e k v = elim (Bool-cases (is_success b.0)) [
    | inl q ↦ rw (q, finish_image) (λ f. add_image-IsTracked d args format b.1 s b.2 e (k q) v)
    | inr q ↦ rw (q, finish_image) (rw q (λ f. absurd (false≢true f)))
  ]

  created_buffer-IsTracked :
      (submit : (History → History) → History → VkResult × History) (dev : Device)
      (flags size usage : ℕ) (s : State)
      → KeepsObjects d submit
      → IsTracked d s
      → let r = create_buffer d env submit (some dev) flags size usage s in
        is_success r.0 ≡ true → IsTracked d r.2
  unfolding create_buffer
  created_buffer-IsTracked submit dev flags size usage s keeps v =
      let args = λ (flags : ℕ). flags ∷ size ∷ usage ∷ [] in
      let made = λ (flags : ℕ). Call.create Object.buffer (args flags) in
      let base = without_sparse flags in
      elim (Bool-cases (is_sparse dev flags)) [
        | inr n ↦
            rw (n, create_buffer)
              (elim (Bool-cases (is_success (d.result s.history (made flags)))) [
                | inr e ↦ rw e (rw e (λ f. absurd (false≢true f)))
                | inl e ↦ rw e (
                    finish_buffer-IsTracked (args flags) size _ s e
                      (λ q. plain-Keeps d Object.buffer (args flags) s v.small) v)
              ])
        | inl y ↦
            rw (y, create_buffer)
              (elim (Bool-cases (is_success (d.result s.history (made base)))) [
                | inr e ↦ rw e (rw e (λ f. absurd (false≢true f)))
                | inl e ↦ rw e (
                    finish_buffer-IsTracked (args base) size _ s e
                      (bind_sparse_buffer-Keeps d env dev submit (d.handle s.history (made base))
                        size (call (made base) s) keeps)
                      v)
              ])
      ]

  created_image-IsTracked :
      (dev : Device) (info : ImageInfo) (s : State)
      → IsTracked d s
      → let r = create_image d env (some dev) info s in is_success r.0 ≡ true → IsTracked d r.2
  unfolding create_image
  created_image-IsTracked dev info s v =
      let args =
        λ (flags : ℕ). flags ∷ info.format ∷ (if info.is_depth then 1 else 0) ∷ info.rest in
      let made = λ (flags : ℕ). Call.create Object.image (args flags) in
      let base = without_sparse info.flags in
      elim (Bool-cases (is_sparse dev info.flags)) [
        | inr n ↦
            rw (n, create_image)
              (elim (Bool-cases (is_success (d.result s.history (made info.flags)))) [
                | inr e ↦ rw e (rw e (λ f. absurd (false≢true f)))
                | inl e ↦ rw e (
                    finish_image-IsTracked (args info.flags) info.format _ s e
                      (λ q. plain-Keeps d Object.image (args info.flags) s v.small) v)
              ])
        | inl y ↦
            rw (y, create_image)
              (elim (Bool-cases (is_success (d.result s.history (made base)))) [
                | inr e ↦ rw e (rw e (λ f. absurd (false≢true f)))
                | inl e ↦ rw e (
                    finish_image-IsTracked (args base) info.format _ s e
                      (bind_sparse_image-Keeps d env dev (d.handle s.history (made base))
                        info.format info.is_depth (call (made base) s))
                      v)
              ])
      ]

module _ (d : Driver) (env : Option ℕ) (submit : (History → History) → History → VkResult × History)
    (new : MakesNewObjects d) (sizes : HasSizes d) where
  pub create_buffer-IsTracked :
      (dev : Option Device) (flags size usage : ℕ) (s : State)
      → KeepsObjects d submit
      → IsTracked d s
      → IsTracked d (create_buffer d env submit dev flags size usage s).2
  unfolding create_buffer
  create_buffer-IsTracked none flags size usage s keeps v = v
  create_buffer-IsTracked (some dev) flags size usage s keeps v =
      elim (Bool-cases (is_success (create_buffer d env submit (some dev) flags size usage s).0)) [
        | inl e ↦ created_buffer-IsTracked d env submit dev flags size usage s keeps v e
        | inr e ↦
            Same-IsTracked d s _
              (create_buffer-Same d env submit new sizes (some dev) flags size usage s v.small e) v
      ]

  pub create_image-IsTracked :
      (dev : Option Device) (info : ImageInfo) (s : State)
      → IsTracked d s
      → IsTracked d (create_image d env dev info s).2
  unfolding create_image
  create_image-IsTracked none info s v = v
  create_image-IsTracked (some dev) info s v =
      elim (Bool-cases (is_success (create_image d env (some dev) info s).0)) [
        | inl e ↦ created_image-IsTracked d env dev info s v e
        | inr e ↦
            Same-IsTracked d s _ (create_image-Same d env new sizes (some dev) info s v.small e) v
      ]
