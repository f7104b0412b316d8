-- ===== src/NullDescriptors/Views.antt =====
-- src/null_descriptors.cpp: the device's null resources and the views of them that are made on
-- demand, one for each format or shape. A cache is looked up and filled in one step.
pub mod Cached
use compat_layer.Prelude.{
  ℕ, ◌+◌, ◌-◌, ◌^◌, Bool, true, false, not, ◌&&◌, ◌||◌, List, [], ◌∷◌, Option, none, some, Dict,
  find, insert, ◌==◌, if◌then◌else◌,
}
use compat_layer.Device.{Device}
use compat_layer.Driver.{Driver, History, Call, Object, VkResult, Requirements, is_success}
use compat_layer.Memory.{find_memory_type, any_property}
use compat_layer.Resources.{State, call}
use compat_layer.Resources.Images.{ImageInfo, create_image, create_image_view, destroy_image}
use compat_layer.NullDescriptors.Key.{get_image_shape_key}

pub record NullImage : Type 0 where
  pub image : ℕ
  pub memory : ℕ
  pub view : ℕ

abbrev pub no_image : NullImage
no_image = record { image = 0; memory = 0; view = 0 }

-- `null_descriptor_emulation`, with the layer's buffers and images
pub record NullState : Type 0 where
  pub null_buffer : ℕ
  pub null_buffer_memory : ℕ
  pub null_buffer_view : ℕ
  pub null_image : NullImage
  pub null_sampler : ℕ
  pub buffer_views : Dict ℕ
  pub images_by_shape : Dict NullImage
  pub resources : State

-- The image view types by their numbers: 1D, 2D, 3D, CUBE, 1D_ARRAY, 2D_ARRAY and CUBE_ARRAY.
abbrev pub is_cube : ℕ → Bool
is_cube view_type = view_type == 3 || view_type == 6

abbrev pub image_type : ℕ → ℕ
image_type view_type =
    if view_type == 0 || view_type == 4 then 0 else if view_type == 2 then 2 else 1

abbrev pub array_layers : ℕ → ℕ
array_layers view_type = if is_cube view_type then 6 else 1

-- VK_IMAGE_CREATE_CUBE_COMPATIBLE_BIT is 16; the usage is SAMPLED, STORAGE and INPUT_ATTACHMENT.
unfoldable pub null_image_info : (view_type format samples : ℕ) → ImageInfo
null_image_info view_type format samples = record {
  flags = if is_cube view_type then 16 else 0;
  format = format;
  is_depth = false;
  rest = image_type view_type ∷ array_layers view_type ∷ samples ∷ [];
}

abbrev pub max_view_type : ℕ
max_view_type = 2 ^ 31 - 1

abbrev pub no_memory_type : ℕ
no_memory_type = 2 ^ 32 - 1

module _ (d : Driver) (env : Option ℕ) (dev : Device) where
  -- The end of `CreateNullImageResource`, with an image that has its memory.
  unfoldable pub finish_null_image : (view_type format image memory : ℕ) → State → NullImage × State
  finish_null_image view_type format image memory s =
      let view_type' = if view_type == max_view_type then 1 else view_type in
      let (result, view, s1) =
        create_image_view d image view_type' format
          (call (Call.bind_image_memory image memory 0) s) in
      if is_success result then (record { image = image; memory = memory; view = view }, s1) else (
        record { image = 0; memory = 0; view = view },
        destroy_image (some dev) image (call (Call.destroy Object.memory memory) s1),
      )

  unfoldable pub give_memory : (view_type format image : ℕ) → State → NullImage × State
  give_memory view_type format image s =
      let reqs = d.requirements s.history Object.image image in
      let memory_type = find_memory_type dev reqs.type_bits any_property in
      let c = Call.create Object.memory (reqs.size ∷ memory_type ∷ []) in
      let memory = d.handle s.history c in
      if memory_type == no_memory_type
      then (no_image, destroy_image (some dev) image s)
      else (if is_success (d.result s.history c)
          then finish_null_image view_type format image memory (call c s)
          else (no_image, destroy_image (some dev) image (call c s)))

  unfoldable pub create_null_image : (view_type format samples : ℕ) → State → NullImage × State
  create_null_image view_type format samples s =
      let (result, image, s1) =
        create_image d env (some dev) (null_image_info view_type format samples) s in
      if is_success result then give_memory view_type format image s1 else (no_image, s1)

  unfoldable pub create_null_buffer_view : (null_buffer format : ℕ) → State → ℕ × State
  create_null_buffer_view null_buffer format s =
      let c = Call.create Object.buffer_view (null_buffer ∷ format ∷ []) in
      ((if is_success (d.result s.history c) then d.handle s.history c else 0), call c s)

  -- The cache's answer, and what is done where it has none.
  unfoldable pub answer_format : (format : ℕ) → Option ℕ → NullState → ℕ × NullState
  answer_format format (some view) n = (view, n)
  answer_format format none n =
      let (view, s) = create_null_buffer_view n.null_buffer format n.resources in
      (view, record n { buffer_views = insert format view n.buffer_views; resources = s })

  -- VK_FORMAT_UNDEFINED is 0 and VK_FORMAT_R32_UINT 98.
  unfoldable pub get_null_buffer_view : (format : ℕ) → NullState → ℕ × NullState
  get_null_buffer_view format n =
      if format == 0 || format == 98
      then (n.null_buffer_view, n)
      else answer_format format (find format n.buffer_views) n

  -- VK_FORMAT_R8G8B8A8_UNORM is 37, and VK_SAMPLE_COUNT_1_BIT 1.
  abbrev pub is_default_shape : (view_type format samples : ℕ) → Bool
  is_default_shape view_type format samples =
      (view_type == max_view_type || view_type == 1)
      && (format == 0 || format == 37)
      && samples == 1

  unfoldable pub answer_shape :
      (view_type format samples : ℕ) → Option NullImage → NullState → ℕ × NullState
  answer_shape view_type format samples (some i) n = (i.view, n)
  answer_shape view_type format samples none n =
      let key = get_image_shape_key view_type format samples in
      let (i, s) = create_null_image view_type format samples n.resources in
      (i.view, record n { images_by_shape = insert key i n.images_by_shape; resources = s })

  unfoldable pub shaped_image_view : (view_type format samples : ℕ) → NullState → ℕ × NullState
  shaped_image_view view_type format samples n =
      let key = get_image_shape_key view_type format samples in
      answer_shape view_type format samples (find key n.images_by_shape) n

  unfoldable pub get_null_image_view : (view_type format samples : ℕ) → NullState → ℕ × NullState
  get_null_image_view view_type format samples n =
      if is_default_shape view_type format samples
      then (n.null_image.view, n)
      else shaped_image_view (if view_type == max_view_type then 1 else view_type)
          (if format == 0 then 37 else format) samples n
