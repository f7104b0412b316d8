-- ===== src/Resources/Runs.antt =====
-- src/buffer.cpp and src/image.cpp: the maps hold the buffers and images that are open in the
-- driver, after any sequence of requests.
use compat_layer.Prelude.{ℕ, List, [], ◌∷◌, Option, none, some, Bool-cases, inl, inr, refl}
use compat_layer.Device.{Device}
use compat_layer.Driver.{Driver, History, Call, Object, VkResult, is_success}
use compat_layer.Driver.Objects.{MakesNewObjects, opened, opened-create_other}
use compat_layer.Resources.{State, bind_buffer_memory, bind_buffer_memory2}
use compat_layer.Resources.Balance.{HasSizes}
use compat_layer.Resources.Steps.{
  Keeps, KeepsObjects, call-Keeps, holds-set_memories, bind_buffer_memory-Keeps,
}
use compat_layer.Resources.Tracked.{
  IsTracked, Keeps-IsTracked, destroy_buffer-IsTracked, destroy_image-IsTracked,
}
use compat_layer.Resources.Create.{create_buffer-IsTracked, create_image-IsTracked}
use compat_layer.Resources.Buffers.{create_buffer, destroy_buffer}
use compat_layer.Resources.Images.{create_image, ImageInfo, create_image_view, destroy_image}

-- A call of an entry point by the application.
pub data Request : Type 0 where
  creates_buffer : Option Device → (flags size usage : ℕ) → Request
  destroys_buffer : Option Device → (handle : ℕ) → Request
  binds : Option Device → (buffer memory offset : ℕ) → Request
  binds2 : Option Device → List (ℕ × ℕ × ℕ) → Request
  creates_image : Option Device → ImageInfo → Request
  creates_view : (image view_type format : ℕ) → Request
  destroys_image : Option Device → (handle : ℕ) → Request

module _ (d : Driver) (env : Option ℕ)
    (submit : (History → History) → History → VkResult × History) where
  unfoldable pub serve : Request → State → State
  serve (creates_buffer dev flags size usage) s =
      (create_buffer d env submit dev flags size usage s).2
  serve (destroys_buffer dev handle) s = destroy_buffer dev handle s
  serve (binds dev buffer memory offset) s = (bind_buffer_memory d dev buffer memory offset s).1
  serve (binds2 dev list) s = (bind_buffer_memory2 d dev list s).1
  serve (creates_image dev info) s = (create_image d env dev info s).2
  serve (creates_view image view_type format) s = (create_image_view d image view_type format s).2
  serve (destroys_image dev handle) s = destroy_image dev handle s

  unfoldable pub serve_all : List Request → State → State
  serve_all [] s = s
  serve_all (r ∷ rs) s = serve_all rs (serve r s)

module _ (d : Driver) (env : Option ℕ) (submit : (History → History) → History → VkResult × History)
    (new : MakesNewObjects d) (sizes : HasSizes d) (keeps : KeepsObjects d submit) where
  bind_buffer_memory2-Keeps :
      (dev : Option Device) (list : List (ℕ × ℕ × ℕ)) (s : State)
      → IsTracked d s
      → Keeps d s (bind_buffer_memory2 d dev list s).1
  unfolding bind_buffer_memory2 opened
  bind_buffer_memory2-Keeps none list s v = record {
    small = v.small;
    buffers = λ p. refl;
    images = λ p. refl;
    open_buffers = λ p. refl;
    open_images = λ p. refl;
  }
  bind_buffer_memory2-Keeps (some dev) list s v =
      elim (Bool-cases (is_success (d.result s.history (Call.bind_buffer_memory2 list)))) [
        | inl e ↦
            rw (e, bind_buffer_memory2)
              (record {
                small = v.small;
                buffers = λ p. holds-set_memories p list s.buffers;
                images = λ p. refl;
                open_buffers = λ p. refl;
                open_images = λ p. refl;
              })
        | inr e ↦ rw (e, bind_buffer_memory2) (call-Keeps d _ s v.small (λ p. refl) (λ p. refl))
      ]

  serve-IsTracked : (r : Request) (s : State) → IsTracked d s → IsTracked d (serve d env submit r s)
  unfolding serve create_image_view
  serve-IsTracked (creates_buffer dev flags size usage) s v =
      create_buffer-IsTracked d env submit new sizes dev flags size usage s keeps v
  serve-IsTracked (destroys_buffer dev handle) s v = destroy_buffer-IsTracked d dev handle s v
  serve-IsTracked (binds dev buffer memory offset) s v =
      Keeps-IsTracked d s _ (bind_buffer_memory-Keeps d dev buffer memory offset s v.small) v
  serve-IsTracked (binds2 dev list) s v =
      Keeps-IsTracked d s _ (bind_buffer_memory2-Keeps dev list s v) v
  serve-IsTracked (creates_image dev info) s v =
      create_image-IsTracked d env submit new sizes dev info s v
  serve-IsTracked (creates_view image view_type format) s v =
      Keeps-IsTracked d s _
        (call-Keeps d _ s v.small
          (λ p. opened-create_other d Object.buffer Object.image_view p s.history _ refl)
          (λ p. opened-create_other d Object.image Object.image_view p s.history _ refl))
        v
  serve-IsTracked (destroys_image dev handle) s v = destroy_image-IsTracked d dev handle s v

  -- Whatever buffers and images are created, bound and destroyed, and whatever fails on the way,
  -- the maps hold exactly the buffers and images that are open in the driver, as long as a one-shot
  -- submission creates and destroys none.
  pub serve_all-IsTracked :
      (rs : List Request) (s : State) → IsTracked d s → IsTracked d (serve_all d env submit rs s)
  unfolding serve_all
  serve_all-IsTracked [] s v = v
  serve_all-IsTracked (r ∷ rs) s v =
      serve_all-IsTracked rs (serve d env submit r s) (serve-IsTracked r s v)
