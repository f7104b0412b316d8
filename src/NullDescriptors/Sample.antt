-- ===== src/NullDescriptors/Sample.antt =====
-- src/null_descriptors.cpp: null resources, and writes of two buffers and an image of which some
-- are null, for tests.
use mathlib.Core.Option.{none-ne-some}
use compat_layer.Prelude.{refl, List, [], ◌∷◌, none, some, arith, find}
use compat_layer.Driver.{Driver}
use compat_layer.Driver.Sample.{numbering, succeeds, sample_device}
use compat_layer.Driver.Objects.{Supplies}
use compat_layer.NullDescriptors.{storage_buffer, combined_image_sampler, Memory, write}
use compat_layer.NullDescriptors.Views.{NullState}
use compat_layer.NullDescriptors.Handles.{HasTypes, HasHandles}
use compat_layer.NullDescriptors.Writes.{Write}

abbrev pub driver : Driver
driver = numbering succeeds

pub supplies : Supplies driver
supplies h o args = (refl, omega arith)

pub types : HasTypes sample_device
types = (omega arith, omega arith)

-- Buffer 5 with offset 16 and range 32, and then zeros.
abbrev pub infos_in_memory : Memory
infos_in_memory = write 0 5 (write 1 16 (write 2 32 (λ a. 0)))

abbrev pub state : NullState
state = record {
  null_buffer = 90;
  null_buffer_memory = 94;
  null_buffer_view = 93;
  null_image = record { image = 95; memory = 96; view = 92 };
  null_sampler = 91;
  buffer_views = [];
  images_by_shape = [];
  resources = record { buffers = []; images = []; committed = 0; next_id = 0; history = [] };
}

pub state-HasHandles : HasHandles state
unfolding find
state-HasHandles = record {
  buffer = omega arith;
  buffer_view = omega arith;
  sampler = omega arith;
  image_view = omega arith;
  formats = λ k v e. absurd (none-ne-some v e);
  shapes = λ k v e. absurd (none-ne-some v e);
}

-- A write of the two buffers, and one of an image whose view is null.
abbrev pub writes : List Write
writes =
    record {
      dst_set = 1;
      dst_binding = 0;
      type = storage_buffer;
      count = 2;
      buffer_info = some infos_in_memory;
      image_info = none;
      texel_view = none;
    }
    ∷ record {
      dst_set = 1;
      dst_binding = 1;
      type = combined_image_sampler;
      count = 1;
      buffer_info = none;
      image_info = some infos_in_memory;
      texel_view = none;
    }
    ∷ []
