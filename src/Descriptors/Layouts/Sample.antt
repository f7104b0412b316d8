-- ===== src/Descriptors/Layouts/Sample.antt =====
-- src/descriptors.cpp and src/pipelines.cpp: an emulated layout in a pipeline layout, for tests.
use mathlib.Core.Option.{none-ne-some}
use compat_layer.Prelude.{◌≡◌, refl, true, true≢false, [], ◌∷◌, insert, find}
use compat_layer.Driver.Sample.{sample_device}
use compat_layer.Descriptors.Layouts.{SetLayout, PipelineLayout, Layouts}
use compat_layer.Descriptors.Layouts.Filed.{IsFiled, IsFiledLayout, insert-Each}

abbrev pub push_layout : SetLayout
push_layout = record { handle = 7; bindings = []; is_emulated_push_descriptor = true }

abbrev pub pipeline_layout : PipelineLayout
pipeline_layout = record { handle = 8; set_layouts = 7 ∷ [] }

abbrev pub no_layouts : Layouts
no_layouts = record { layouts = []; templates = []; pipeline_layouts = [] }

abbrev pub one_layout : Layouts
one_layout = record {
  layouts = insert 7 push_layout [];
  templates = [];
  pipeline_layouts = insert 8 pipeline_layout [];
}

pub no_layouts-IsFiled : IsFiled sample_device no_layouts
unfolding find
no_layouts-IsFiled = record {
  layouts = λ k v e. absurd (none-ne-some v e);
  templates = λ k v e. absurd (none-ne-some v e);
  pipeline_layouts = λ k v e. absurd (none-ne-some v e);
}

pub one_layout-IsFiled : IsFiled sample_device one_layout
one_layout-IsFiled = record {
  layouts =
      insert-Each (IsFiledLayout sample_device) 7 push_layout []
        (record { named = refl; asked = λ _. refl; bare = λ e. absurd (true≢false e) })
        no_layouts-IsFiled.layouts;
  templates = no_layouts-IsFiled.templates;
  pipeline_layouts =
      insert-Each (λ k p. p.handle ≡ k) 8 pipeline_layout [] refl
        no_layouts-IsFiled.pipeline_layouts;
}
