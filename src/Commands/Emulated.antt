-- ===== src/Commands/Emulated.antt =====
-- src/push_descriptors.cpp and src/command_buffer.cpp: `CmdPushDescriptorSetKHR`, on the layer's
-- own descriptor set or on the driver.
pub mod Served
mod Tests
use compat_layer.Prelude.{
  ℕ, Bool, true, false, List, [], ◌∷◌, Option, none, some, find, map, if◌then◌else◌,
}
use compat_layer.Device.{Device}
use compat_layer.Driver.{Driver, VkResult, is_success}
use compat_layer.Descriptors.Layouts.{SetLayout, Layouts, layout_of_set}
use compat_layer.Descriptors.Updates.{update_descriptor_sets}
use compat_layer.NullDescriptors.Views.{NullState}
use compat_layer.NullDescriptors.Writes.{Hints, Write, fix_null_descriptors}
use compat_layer.Commands.{CommandBuffer, Layer}
use compat_layer.Commands.Push.{allocate_descriptor_set}

abbrev pub to_set : (set : ℕ) → Write → Write
to_set set w = record w { dst_set = set }

-- A set that was written and bound at its place
pub record BoundSet : Type 0 where
  pub place : ℕ
  pub set : ℕ
  pub writes : List Write

-- The null resources and the layer share the buffers and images.
abbrev pub with_nulls_of : NullState → Layer → Layer
with_nulls_of n s = record s { world = record s.world { resources = n.resources } }

abbrev pub nulls_in : Layer → NullState → NullState
nulls_in s n = record n { resources = s.world.resources }

module _ (d : Driver) (env : Option ℕ) (dev : Device) (hints : Hints) where
  -- The set is written before the next command is looked at; without a set nothing is bound.
  unfoldable pub bind_set :
      (place : ℕ)
      → List Write
      → VkResult × ℕ × Layer
      → NullState
      → Option BoundSet × Layer × NullState
  bind_set place ws (result, set, s) n =
      let (ws', n') =
        update_descriptor_sets d env dev hints s.world.tracking (map (to_set set) ws)
          (nulls_in s n) in
      if is_success result
      then (some (record { place = place; set = set; writes = ws' }), with_nulls_of n' s, n')
      else (none, s, n)

  abbrev pub bind_emulated_push_descriptor_set :
      (handle : ℕ)
      → CommandBuffer
      → (layout place : ℕ) → List Write
      → Layer
      → NullState
      → Option BoundSet × Layer × NullState
  bind_emulated_push_descriptor_set handle cb layout place ws s n =
      bind_set place ws (allocate_descriptor_set d handle cb layout s) n

  -- What the driver is handed for a layout that is not emulated, and the null resources
  unfoldable pub forward : SetLayout → List Write → Layer → NullState → List Write × NullState
  forward l ws s n =
      let (answer, ws', n') =
        fix_null_descriptors d env dev hints s.world.tracking l.handle ws (nulls_in s n) in
      if dev.emulate_null_descriptor then (ws', n') else (ws, nulls_in s n)

  -- What the driver is handed as a push descriptor, and what is bound instead. A layout that is
  -- not emulated is handed on, and then bound as well.
  unfoldable pub push_to :
      (handle : ℕ)
      → CommandBuffer
      → (emulated : Bool) → SetLayout
      → (place : ℕ) → List Write
      → Layer
      → NullState
      → Option (List Write) × Option BoundSet × Layer × NullState
  push_to handle cb true l place ws s n =
      let (bound, s', n') = bind_emulated_push_descriptor_set handle cb l.handle place ws s n in
      (none, bound, s', n')
  push_to handle cb false l place ws s n =
      let (sent, n1) = forward l ws s n in
      let (bound, s', n2) =
        bind_emulated_push_descriptor_set handle cb l.handle place ws (with_nulls_of n1 s) n1 in
      (some sent, bound, s', n2)

  -- `none` follows a null pointer. The driver has the command, of which the code makes sure.
  unfoldable pub cmd_push_descriptor_set :
      Layouts
      → (handle pipeline_layout place : ℕ) → List Write
      → Layer
      → NullState
      → Option (Option (List Write) × Option BoundSet × Layer × NullState)
  cmd_push_descriptor_set layouts handle pipeline_layout place ws s n =
      elim (find handle s.commands) [
        | none ↦ none
        | some cb ↦ elim (layout_of_set pipeline_layout place layouts) [
          | none ↦ if dev.emulate_push_descriptors then some (some ws, none, s, n) else none
          | some l ↦ some (push_to handle cb l.is_emulated_push_descriptor l place ws s n)
        ]
      ]
