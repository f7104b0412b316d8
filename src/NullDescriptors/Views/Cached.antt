-- ===== src/NullDescriptors/Views/Cached.antt =====
-- src/null_descriptors.cpp: a view is made once.
use compat_layer.Prelude.{
  ℕ, ◌≡◌, refl, ◌||◌, none, some, find, find-insert_self, ◌==◌, Bool-cases, inl, inr, Option,
}
use compat_layer.Device.{Device}
use compat_layer.Driver.{Driver}
use compat_layer.NullDescriptors.Key.{get_image_shape_key}
use compat_layer.NullDescriptors.Views.{
  NullState, NullImage, answer_shape, answer_format, get_null_buffer_view, shaped_image_view,
  get_null_image_view, is_default_shape, create_null_image, create_null_buffer_view,
}

module _ (d : Driver) (env : Option ℕ) (dev : Device) where
  answer_shape-again :
      (view_type format samples : ℕ) (o : Option NullImage) (n : NullState)
      → find (get_image_shape_key view_type format samples) n.images_by_shape ≡ o
      → let r = answer_shape d env dev view_type format samples o n in
        shaped_image_view d env dev view_type format samples r.1 ≡ r
  unfolding shaped_image_view answer_shape
  answer_shape-again view_type format samples (some i) n e = rw (e, answer_shape) refl
  answer_shape-again view_type format samples none n e =
      let key = get_image_shape_key view_type format samples in
      let i = (create_null_image d env dev view_type format samples n.resources).0 in
      rw (find-insert_self key i n.images_by_shape, answer_shape) refl

  answer_format-again :
      (format : ℕ) (o : Option ℕ) (n : NullState)
      → find format n.buffer_views ≡ o
      → let r = answer_format d env dev format o n in
        answer_format d env dev format (find format r.1.buffer_views) r.1 ≡ r
  unfolding answer_format
  answer_format-again format (some view) n e = rw (e, answer_format) refl
  answer_format-again format none n e =
      let view = (create_null_buffer_view d env dev n.null_buffer format n.resources).0 in
      rw (find-insert_self format view n.buffer_views, answer_format) refl

  -- An image view that was asked for is answered again, and nothing is made or changed a second
  -- time.
  pub get_null_image_view-again :
      (view_type format samples : ℕ) (n : NullState)
      → let r = get_null_image_view d env dev view_type format samples n in
        get_null_image_view d env dev view_type format samples r.1 ≡ r
  unfolding get_null_image_view shaped_image_view
  get_null_image_view-again view_type format samples n =
      elim (Bool-cases (is_default_shape d env dev view_type format samples)) [
        | inl e ↦ rw (e, get_null_image_view) refl
        | inr e ↦ rw (e, get_null_image_view) (answer_shape-again _ _ samples _ n refl)
      ]

  pub get_null_buffer_view-again :
      (format : ℕ) (n : NullState)
      → let r = get_null_buffer_view d env dev format n in
        get_null_buffer_view d env dev format r.1 ≡ r
  unfolding get_null_buffer_view
  get_null_buffer_view-again format n = elim (Bool-cases (format == 0 || format == 98)) [
    | inl e ↦ rw (e, get_null_buffer_view) refl
    | inr e ↦
        rw (e, get_null_buffer_view)
          (answer_format-again format (find format n.buffer_views) n refl)
  ]
