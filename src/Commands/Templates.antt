-- ===== src/Commands/Templates.antt =====
-- src/push_descriptors.cpp and src/command_buffer.cpp: `CmdPushDescriptorSetWithTemplateKHR`, on
-- the layer's own descriptor set or on the driver.
mod Named
use compat_layer.Prelude.{
  ℕ, Bool, true, false, List, [], ◌∷◌, Option, none, some, find, if◌then◌else◌,
}
use compat_layer.Device.{Device}
use compat_layer.Driver.{Driver, VkResult, is_success}
use compat_layer.Descriptors.Layouts.{SetLayout, UpdateTemplate, Layouts, layout_of_template}
use compat_layer.Descriptors.Updates.{update_descriptor_set_with_template}
use compat_layer.NullDescriptors.{Memory}
use compat_layer.NullDescriptors.Views.{NullState}
use compat_layer.NullDescriptors.Writes.{Hints, fix_null_descriptor_templates}
use compat_layer.Commands.{CommandBuffer, Layer}
use compat_layer.Commands.Push.{allocate_descriptor_set}
use compat_layer.Commands.Emulated.{with_nulls_of, nulls_in}

-- A set that was written from template data and bound at its place
pub record BoundTemplate : Type 0 where
  pub place : ℕ
  pub set : ℕ
  pub source : Option Memory

module _ (d : Driver) (env : Option ℕ) (dev : Device) (hints : Hints) where
  unfoldable pub bind_template :
      Option UpdateTemplate
      → (place : ℕ) → Option Memory
      → VkResult × ℕ × Layer
      → NullState
      → Option BoundTemplate × Layer × NullState
  bind_template template place source (result, set, s) n =
      let (source', n') =
        update_descriptor_set_with_template d env dev hints template source (nulls_in s n) in
      if is_success result
      then (some (record { place = place; set = set; source = source' }), with_nulls_of n' s, n')
      else (none, s, n)

  abbrev pub bind_emulated_push_descriptor_set_template :
      (handle : ℕ)
      → CommandBuffer
      → Option UpdateTemplate
      → (layout place : ℕ) → Option Memory
      → Layer
      → NullState
      → Option BoundTemplate × Layer × NullState
  bind_emulated_push_descriptor_set_template handle cb template layout place source s n =
      bind_template template place source (allocate_descriptor_set d handle cb layout s) n

  -- What the driver is handed for a layout that is not emulated. The template is there, as the
  -- layout was found through it.
  unfoldable pub forward_template : UpdateTemplate → Memory → Layer → NullState → Memory × NullState
  forward_template t mem s n =
      let (patched, mem', n') =
        fix_null_descriptor_templates d env dev hints t.layout t.entries mem (nulls_in s n) in
      if dev.emulate_null_descriptor then (mem', n') else (mem, nulls_in s n)

  unfoldable pub push_template_to :
      (handle : ℕ)
      → CommandBuffer
      → (emulated : Bool) → UpdateTemplate
      → SetLayout
      → (place : ℕ) → Memory
      → Layer
      → NullState
      → Option Memory × Option BoundTemplate × Layer × NullState
  push_template_to handle cb true t l place mem s n =
      let (bound, s', n') =
        bind_emulated_push_descriptor_set_template handle cb (some t) l.handle place (some mem) s
          n in
      (none, bound, s', n')
  push_template_to handle cb false t l place mem s n =
      let (sent, n1) = forward_template t mem s n in
      let (bound, s', n2) =
        bind_emulated_push_descriptor_set_template handle cb (some t) l.handle place (some mem)
          (with_nulls_of n1 s) n1 in
      (some sent, bound, s', n2)

  -- `none` follows a null pointer. The data is not null, and the driver has the command, of which the
  -- code makes sure.
  unfoldable pub cmd_push_descriptor_set_with_template :
      Layouts
      → (handle template place : ℕ) → Memory
      → Layer
      → NullState
      → Option (Option Memory × Option BoundTemplate × Layer × NullState)
  cmd_push_descriptor_set_with_template layouts handle template place mem s n =
      elim (find handle s.commands) [
        | none ↦ none
        | some cb ↦ elim (find template layouts.templates) [
          | none ↦ if dev.emulate_push_descriptors then some (some mem, none, s, n) else none
          | some t ↦ elim (layout_of_template template layouts) [
            | none ↦ if dev.emulate_push_descriptors then some (some mem, none, s, n) else none
            | some (l, bind_point) ↦
                some (push_template_to handle cb l.is_emulated_push_descriptor t l place mem s n)
          ]
        ]
      ]
