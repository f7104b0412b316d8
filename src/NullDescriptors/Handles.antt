-- ===== src/NullDescriptors/Handles.antt =====
-- src/null_descriptors.cpp: on a driver that creates what it is asked for, the null resources and
-- the views of them are handles.
use compat_layer.Prelude.{
  ℕ, ◌≤◌, ◌<◌, ◌≡◌, ◌≢◌, refl, sym, ap, ◌∙◌, false, ◌||◌, [], ◌∷◌, Option, none, some, length, find,
  find-insert, found-insert, ◌==◌, if◌then◌else◌, Bool-cases, inl, inr, arith,
}
use compat_layer.Device.{Device}
use compat_layer.Driver.{Driver, Call, Object}
use compat_layer.Driver.Objects.{Supplies}
use compat_layer.Memory.{find_memory_type, any_property}
use compat_layer.Memory.Choice.{find_memory_type-lt}
use compat_layer.Resources.{State}
use compat_layer.Resources.Buffers.{is_sparse}
use compat_layer.Resources.Images.{create_image, finish_image, create_image_view}
use compat_layer.NullDescriptors.Key.{get_image_shape_key}
use compat_layer.NullDescriptors.Views.{
  NullState, NullImage, null_image_info, is_cube, max_view_type, no_memory_type, finish_null_image,
  give_memory, create_null_image, create_null_buffer_view, answer_format, get_null_buffer_view,
  is_default_shape, answer_shape, shaped_image_view, get_null_image_view,
}

-- At most 32 memory types, of which the device uses one.
abbrev pub HasTypes : Device → Type 0
HasTypes dev = (length dev.memory_types ≤ 32) × (dev.memory_index < 32)

pub record HasHandles (n : NullState) : Type 0 where
  pub buffer : n.null_buffer ≢ 0
  pub buffer_view : n.null_buffer_view ≢ 0
  pub sampler : n.null_sampler ≢ 0
  pub image_view : n.null_image.view ≢ 0
  pub formats : (k v : ℕ) → find k n.buffer_views ≡ some v → v ≢ 0
  pub shapes : (k : ℕ) (i : NullImage) → find k n.images_by_shape ≡ some i → i.view ≢ 0

module _ (d : Driver) (env : Option ℕ) (dev : Device) (supplies : Supplies d)
    (types : HasTypes dev) where
  not_sparse : (view_type : ℕ) → is_sparse dev (if is_cube view_type then 16 else 0) ≡ false
  not_sparse view_type = ground arith

  finish_null_image-view :
      (view_type format image memory : ℕ) (s : State)
      → (finish_null_image d env dev view_type format image memory s).0.view ≢ 0
  unfolding finish_null_image create_image_view
  finish_null_image-view view_type format image memory s =
      let h = Call.bind_image_memory image memory 0 ∷ s.history in
      let ok =
        supplies h Object.image_view
          (image ∷ (if view_type == max_view_type then 1 else view_type) ∷ format ∷ []) in
      rw (ok.0, finish_null_image) ok.1

  give_memory-view :
      (view_type format image : ℕ) (s : State)
      → (give_memory d env dev view_type format image s).0.view ≢ 0
  unfolding give_memory
  give_memory-view view_type format image s =
      let reqs = d.requirements s.history Object.image image in
      let memory_type = find_memory_type dev reqs.type_bits any_property in
      let ok = supplies s.history Object.memory (reqs.size ∷ memory_type ∷ []) in
      let some_type : (memory_type == no_memory_type) ≡ false =
        ground (arith, find_memory_type-lt dev reqs.type_bits any_property 32 types.0 types.1) in
      rw (some_type, ok.0, give_memory) (finish_null_image-view view_type format image _ _)

  create_null_image-view :
      (view_type format samples : ℕ) (s : State)
      → (create_null_image d env dev view_type format samples s).0.view ≢ 0
  unfolding create_null_image create_image finish_image null_image_info
  create_null_image-view view_type format samples s =
      let info = null_image_info view_type format samples in
      let ok =
        supplies s.history Object.image
          (info.flags ∷ info.format ∷ (if info.is_depth then 1 else 0) ∷ info.rest) in
      rw (not_sparse view_type, create_null_image, create_image)
        (rw (ok.0, finish_image) (give_memory-view view_type format _ _))

  create_null_buffer_view-handle :
      (null_buffer format : ℕ) (s : State)
      → (create_null_buffer_view d env dev null_buffer format s).0 ≢ 0
  unfolding create_null_buffer_view
  create_null_buffer_view-handle null_buffer format s =
      let ok = supplies s.history Object.buffer_view (null_buffer ∷ format ∷ []) in
      rw (ok.0, create_null_buffer_view) ok.1

  -- The answer is a handle, and the state keeps its own.
  abbrev Answers : ℕ × NullState → Type 0
  Answers r = (r.0 ≢ 0) × HasHandles r.1

  answer_format-Answers :
      (format : ℕ) (o : Option ℕ) (n : NullState)
      → find format n.buffer_views ≡ o
      → HasHandles n
      → Answers (answer_format d env dev format o n)
  unfolding answer_format
  answer_format-Answers format (some view) n e h = (h.formats format view e, h)
  answer_format-Answers format none n e h =
      let view = (create_null_buffer_view d env dev n.null_buffer format n.resources).0 in
      let handle = create_null_buffer_view-handle n.null_buffer format n.resources in
      (
        handle,
        record {
          buffer = h.buffer;
          buffer_view = h.buffer_view;
          sampler = h.sampler;
          image_view = h.image_view;
          formats = λ k v q.
              ground (arith, find-insert format k view n.buffer_views, q, handle, h.formats k v);
          shapes = h.shapes;
        },
      )

  answer_shape-Answers :
      (view_type format samples : ℕ) (o : Option NullImage) (n : NullState)
      → find (get_image_shape_key view_type format samples) n.images_by_shape ≡ o
      → HasHandles n
      → Answers (answer_shape d env dev view_type format samples o n)
  unfolding answer_shape
  answer_shape-Answers view_type format samples (some i) n e h = (h.shapes _ i e, h)
  answer_shape-Answers view_type format samples none n e h =
      let key = get_image_shape_key view_type format samples in
      let i = (create_null_image d env dev view_type format samples n.resources).0 in
      let handle = create_null_image-view view_type format samples n.resources in
      (
        handle,
        record {
          buffer = h.buffer;
          buffer_view = h.buffer_view;
          sampler = h.sampler;
          image_view = h.image_view;
          formats = h.formats;
          shapes = λ k v q. elim (found-insert key k i v n.images_by_shape q) [
            | inl e' ↦ λ z. handle (ap (λ x. x.view) (sym e') ∙ z)
            | inr q' ↦ h.shapes k v q'
          ];
        },
      )

  pub get_null_buffer_view-Answers :
      (format : ℕ) (n : NullState)
      → HasHandles n
      → Answers (get_null_buffer_view d env dev format n)
  unfolding get_null_buffer_view
  get_null_buffer_view-Answers format n h = elim (Bool-cases (format == 0 || format == 98)) [
    | inl e ↦ rw (e, get_null_buffer_view) (h.buffer_view, h)
    | inr e ↦
        rw (e, get_null_buffer_view)
          (answer_format-Answers format (find format n.buffer_views) n refl h)
  ]

  pub get_null_image_view-Answers :
      (view_type format samples : ℕ) (n : NullState)
      → HasHandles n
      → Answers (get_null_image_view d env dev view_type format samples n)
  unfolding get_null_image_view shaped_image_view
  get_null_image_view-Answers view_type format samples n h =
      elim (Bool-cases (is_default_shape d env dev view_type format samples)) [
        | inl e ↦ rw (e, get_null_image_view) (h.image_view, h)
        | inr e ↦ rw (e, get_null_image_view) (answer_shape-Answers _ _ samples _ n refl h)
      ]
