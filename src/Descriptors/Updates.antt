-- ===== src/Descriptors/Updates.antt =====
-- src/descriptors.cpp: `UpdateDescriptorSets` and `UpdateDescriptorSetWithTemplate`, with what the
-- driver gets and the null resources after them. The copies of descriptors go to the driver as
-- they are.
use compat_layer.Prelude.{
  ℕ, Bool, true, false, not, ◌||◌, List, [], ◌∷◌, Option, none, some, if◌then◌else◌,
}
use compat_layer.Device.{Device}
use compat_layer.Driver.{Driver}
use compat_layer.Descriptors.Tracking.{Tracking}
use compat_layer.Descriptors.Layouts.{UpdateTemplate}
use compat_layer.NullDescriptors.{Memory}
use compat_layer.NullDescriptors.Views.{NullState}
use compat_layer.NullDescriptors.Writes.{
  Hints, Write, fix_null_descriptors, fix_null_descriptor_templates,
}

abbrev pub is_empty : {A : Type 0} → List A → Bool
is_empty [] = true
is_empty (x ∷ xs) = false

module _ (d : Driver) (env : Option ℕ) (dev : Device) (hints : Hints) where
  unfoldable pub update_descriptor_sets : Tracking → List Write → NullState → List Write × NullState
  update_descriptor_sets t ws n =
      let (answer, ws', n') = fix_null_descriptors d env dev hints t 0 ws n in
      if not dev.emulate_null_descriptor || is_empty ws then (ws, n) else (ws', n')

  -- For a template with entries and data that is not null
  abbrev update_from : UpdateTemplate → Memory → NullState → Option Memory × NullState
  update_from template mem n =
      let (patched, mem', n') =
        fix_null_descriptor_templates d env dev hints template.layout template.entries mem n in
      if not dev.emulate_null_descriptor || is_empty template.entries
      then (some mem, n)
      else (some mem', n')

  unfoldable pub update_descriptor_set_with_template :
      Option UpdateTemplate → Option Memory → NullState → Option Memory × NullState
  update_descriptor_set_with_template none source n = (source, n)
  update_descriptor_set_with_template (some template) none n = (none, n)
  update_descriptor_set_with_template (some template) (some mem) n = update_from template mem n
