-- ===== src/NullDescriptors/Tests.antt =====
-- The patching of null descriptors, and its theorems, on two buffers of which the second is null.
use compat_layer.Prelude.{ℕ, ◌≡◌, refl, false, List, [], ◌∷◌, All, none, some, arith}
use compat_layer.Driver.Sample.{sample_device}
use compat_layer.Descriptors.Tracking.{empty}
use compat_layer.NullDescriptors.{storage_buffer, Nulls, get_stride}
use compat_layer.NullDescriptors.Key.{get_image_shape_key-injective}
use compat_layer.NullDescriptors.Views.{get_null_buffer_view}
use compat_layer.NullDescriptors.Views.Cached.{get_null_buffer_view-again}
use compat_layer.NullDescriptors.Writes.{
  Write, Entry, write_needs_fixup, fix_writes, fix_entries, data_size,
}
use compat_layer.NullDescriptors.Sample.{
  driver, supplies, types, infos_in_memory, state, state-HasHandles, writes,
}
use compat_layer.NullDescriptors.Patched.{fix_writes-patched}
use compat_layer.NullDescriptors.Answers.{fix_entries-data_size}

abbrev nulls : Nulls
nulls = record { buffer = 90; sampler = 91; image_view = 92; buffer_view = 93 }

abbrev view_2d : ℕ
view_2d = 1

abbrev rgba8 : ℕ
rgba8 = 37

abbrev four_samples : ℕ
four_samples = 4

get_image_shape_key-injective_example :
    (view_2d ≡ view_2d) × (rgba8 ≡ rgba8) × (four_samples ≡ four_samples)
get_image_shape_key-injective_example =
    get_image_shape_key-injective view_2d rgba8 four_samples view_2d rgba8 four_samples
      (omega arith, omega arith, omega arith) (omega arith, omega arith, omega arith) refl

get_null_buffer_view-again_example :
    let r = get_null_buffer_view driver none sample_device 41 state in
    get_null_buffer_view driver none sample_device 41 r.1 ≡ r
get_null_buffer_view-again_example = get_null_buffer_view-again driver none sample_device 41 state

fix_writes-patched_example :
    All
      (λ w. write_needs_fixup w ≡ false)
      (fix_writes driver none sample_device [] empty 0 writes state).1
fix_writes-patched_example =
    fix_writes-patched driver none sample_device supplies types [] empty 0 writes state
      ((refl, refl), ((refl, refl), tt)) state-HasHandles

-- A write of the first buffer alone
abbrev whole : List Write
whole =
    record {
      dst_set = 1;
      dst_binding = 0;
      type = storage_buffer;
      count = 1;
      buffer_info = some infos_in_memory;
      image_info = none;
      texel_view = none;
    }
    ∷ []

abbrev entries : List Entry
entries = record { dst_binding = 0; type = storage_buffer; count = 2; offset = 0; stride = 4 } ∷ []

fix_entries-data_size_example :
    (fix_entries driver none sample_device [] 0 entries infos_in_memory state).0 7 ≡ 0
unfolding data_size get_stride
fix_entries-data_size_example =
    fix_entries-data_size driver none sample_device [] 0 entries infos_in_memory state 7
      ((omega arith, omega arith), tt) (omega arith)
