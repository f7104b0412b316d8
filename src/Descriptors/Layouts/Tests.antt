-- ===== src/Descriptors/Layouts/Tests.antt =====
-- src/descriptors.cpp: a push descriptor layout that is created and found, and the theorem at it.
use compat_layer.Prelude.{refl, ℕ, ◌≡◌, List, [], ◌∷◌, none, some, find, ◌==◌, if◌then◌else◌}
use compat_layer.Driver.{VkResult}
use compat_layer.Driver.Sample.{sample_device}
use compat_layer.Samplers.{Samplers}
use compat_layer.Descriptors.Layouts.{LayoutInfo, TemplateInfo, Layouts}
use compat_layer.Descriptors.Layouts.Filed.{Op, run}
use compat_layer.Descriptors.Layouts.Sample.{no_layouts}
use compat_layer.Descriptors.Layouts.Asked.{Asked, ask_all, IsAsAsked}
use compat_layer.Descriptors.Layouts.Runs.{run-IsAsAsked}

abbrev no_samplers : Samplers
no_samplers = record { ycbcr_samplers = []; fallback_sampler = 0; history = [] }

-- The driver makes layout 7 when the push descriptor bit is not set.
abbrev answer : LayoutInfo → VkResult × ℕ
answer info = if info.flags == 0 then (VkResult.success, 7) else (VkResult.error_unknown, 0)

abbrev push_template : TemplateInfo
push_template = record { template_type = 1; set_layout = 7; bind_point = 0; entries = [] }

abbrev ops : List Op
ops =
    Op.create_layout answer no_samplers (record { flags = 1; bindings = [] })
    ∷ Op.create_pipelines (λ _. (VkResult.success, 8)) (7 ∷ [])
    ∷ Op.create_template (λ info. (VkResult.success, 9)) push_template
    ∷ Op.destroy_layout 7
    ∷ []

abbrev nothing_asked : Asked
nothing_asked = record { layouts = λ k. none; templates = λ k. none; pipeline_layouts = λ k. none }

no_layouts-IsAsAsked : IsAsAsked sample_device nothing_asked no_layouts
unfolding find
no_layouts-IsAsAsked = record {
  layouts = λ k. refl;
  templates = λ k. refl;
  pipeline_layouts = λ k. refl;
}

run-IsAsAsked_example :
    (s' : Layouts) × (run sample_device ops no_layouts ≡ some s')
    × IsAsAsked sample_device (ask_all sample_device ops nothing_asked) s'
run-IsAsAsked_example =
    run-IsAsAsked sample_device ops nothing_asked no_layouts no_layouts-IsAsAsked
