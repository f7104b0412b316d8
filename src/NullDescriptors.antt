-- ===== src/NullDescriptors.antt =====
-- src/null_descriptors.cpp: `null_descriptor_fixer`, which puts the device's own resources in
-- place of null handles. Memory is the word at each address, read as the descriptor type says;
-- addresses and strides count words of 8 bytes, as the alignment of a handle asks.
pub mod Fixup
pub mod Arrays
pub mod Key
pub mod Views
pub mod Writes
pub mod Handles
pub mod Patched
pub mod Answers
pub mod Sample
mod Tests
use compat_layer.Prelude.{
  ℕ, zero, suc, ◌+◌, ◌-◌, ◌*◌, ◌/◌, ◌^◌, Bool, true, false, ◌&&◌, ◌||◌, Option, none, some, ◌==◌,
  if◌then◌else◌,
}

pub data DescriptorType : Type 0 where
  sampler combined_image_sampler sampled_image storage_image : DescriptorType
  uniform_texel_buffer storage_texel_buffer uniform_buffer storage_buffer : DescriptorType
  uniform_buffer_dynamic storage_buffer_dynamic input_attachment : DescriptorType
  other : ℕ → DescriptorType

-- The cases that the switches over the type have in common.
pub data Infos : Type 0 where
  buffers images texels nothing : Infos

abbrev pub infos : DescriptorType → Infos
infos DescriptorType.sampler = images
infos DescriptorType.combined_image_sampler = images
infos DescriptorType.sampled_image = images
infos DescriptorType.storage_image = images
infos DescriptorType.input_attachment = images
infos DescriptorType.uniform_buffer = buffers
infos DescriptorType.storage_buffer = buffers
infos DescriptorType.uniform_buffer_dynamic = buffers
infos DescriptorType.storage_buffer_dynamic = buffers
infos DescriptorType.uniform_texel_buffer = texels
infos DescriptorType.storage_texel_buffer = texels
infos (DescriptorType.other n) = nothing

-- `sizeof` of an info: 24, 24 and 8 bytes
abbrev pub size_of : Infos → ℕ
size_of images = 3
size_of buffers = 3
size_of texels = 1
size_of nothing = 0

unfoldable pub get_stride : DescriptorType → ℕ
get_stride t = size_of (infos t)

abbrev pub is_sampler : DescriptorType → Bool
is_sampler DescriptorType.sampler = true
is_sampler DescriptorType.combined_image_sampler = true
is_sampler _ = false

abbrev pub is_image_view : DescriptorType → Bool
is_image_view DescriptorType.sampler = false
is_image_view _ = true

abbrev pub Memory : Type 0
Memory = ℕ → ℕ

abbrev pub write : ℕ → ℕ → Memory → Memory
write a v mem j = if j == a then v else mem j

-- `VkDescriptorImageInfo` is sampler, view and layout; `VkDescriptorBufferInfo` is buffer, offset
-- and range.
abbrev pub is_null_at : Infos → (smp view : Bool) → Memory → ℕ → Bool
is_null_at buffers smp view mem a = mem a == 0
is_null_at images smp view mem a = smp && mem a == 0 || view && mem (a + 1) == 0
is_null_at texels smp view mem a = mem a == 0
is_null_at nothing smp view mem a = false

abbrev pub is_null : DescriptorType → Memory → ℕ → Bool
is_null t = is_null_at (infos t) (is_sampler t) (is_image_view t)

unfoldable pub needs_fixup_from : DescriptorType → (count stride : ℕ) → Memory → ℕ → Bool
needs_fixup_from t zero stride mem a = false
needs_fixup_from t (suc n) stride mem a =
    is_null t mem a || needs_fixup_from t n stride mem (a + stride)

unfoldable pub needs_fixup : DescriptorType → (count stride : ℕ) → Option Memory → ℕ → Bool
needs_fixup t count stride none a = false
needs_fixup t count stride (some mem) a = needs_fixup_from t count stride mem a

-- What null handles are replaced by.
pub record Nulls : Type 0 where
  pub buffer : ℕ
  pub sampler : ℕ
  pub image_view : ℕ
  pub buffer_view : ℕ

abbrev pub whole_size : ℕ
whole_size = 2 ^ 64 - 1

-- `imageLayout = VK_IMAGE_LAYOUT_GENERAL`: the layout is the lower half of its word.
abbrev pub general : ℕ → ℕ
general w = w / 2 ^ 32 * 2 ^ 32 + 1

abbrev pub fix_buffer : Nulls → Memory → ℕ → Memory
fix_buffer nulls mem a =
    if mem a == 0
    then write (a + 2) whole_size (write (a + 1) 0 (write a nulls.buffer mem))
    else mem

abbrev pub fix_view : Nulls → Bool → Memory → ℕ → Memory
fix_view nulls view mem a =
    if view && mem (a + 1) == 0
    then write (a + 2) (general (mem (a + 2))) (write (a + 1) nulls.image_view mem)
    else mem

abbrev pub fix_sampler : Nulls → Bool → Memory → ℕ → Memory
fix_sampler nulls smp mem a = if smp && mem a == 0 then write a nulls.sampler mem else mem

abbrev pub fix_texel : Nulls → Memory → ℕ → Memory
fix_texel nulls mem a = if mem a == 0 then write a nulls.buffer_view mem else mem

unfoldable pub fix_at : Infos → (smp view : Bool) → Nulls → Memory → ℕ → Memory
fix_at buffers smp view nulls mem a = fix_buffer nulls mem a
fix_at images smp view nulls mem a = fix_sampler nulls smp (fix_view nulls view mem a) a
fix_at texels smp view nulls mem a = fix_texel nulls mem a
fix_at nothing smp view nulls mem a = mem

abbrev pub fix : DescriptorType → Nulls → Memory → ℕ → Memory
fix t = fix_at (infos t) (is_sampler t) (is_image_view t)

unfoldable pub fixup_from : DescriptorType → Nulls → (count stride : ℕ) → Memory → ℕ → Memory
fixup_from t nulls zero stride mem a = mem
fixup_from t nulls (suc n) stride mem a =
    fixup_from t nulls n stride (fix t nulls mem a) (a + stride)
