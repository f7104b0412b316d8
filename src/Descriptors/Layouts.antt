-- ===== src/Descriptors/Layouts.antt =====
-- src/descriptors.cpp and src/pipelines.cpp: the maps of set layouts, of update templates and of
-- pipeline layouts, and the entry points that fill them. The driver's answer to a creation, its
-- result and the handle, is an argument, a function of what the driver is asked for. `get_device`
-- is followed without a check: without a device an operation is `none`.
pub mod Filed
pub mod Named
pub mod Asked
pub mod Runs
pub mod Sample
mod Tests
use compat_layer.Prelude.{
  ℕ, ◌-◌, ◌%◌, Bool, true, false, ◌&&◌, List, [], ◌∷◌, Option, none, some, Dict, find, insert,
  erase, get_elem?, ◌==◌, if◌then◌else◌,
}
use compat_layer.Device.{Device}
use compat_layer.Driver.{VkResult, is_success}
use compat_layer.Samplers.{Samplers, Binding, patch_ycbcr_sampler_bindings}
use compat_layer.NullDescriptors.Writes.{Entry}

-- A null array of bindings is an empty list.
pub record LayoutInfo : Type 0 where
  pub flags : ℕ
  pub bindings : List Binding

pub record SetLayout : Type 0 where
  pub handle : ℕ
  pub bindings : List Binding
  pub is_emulated_push_descriptor : Bool

pub record TemplateInfo : Type 0 where
  pub template_type : ℕ
  pub set_layout : ℕ
  pub bind_point : ℕ
  pub entries : List Entry

pub record UpdateTemplate : Type 0 where
  pub handle : ℕ
  pub layout : ℕ
  pub bind_point : ℕ
  pub is_emulated_push_descriptor : Bool
  pub entries : List Entry

pub record PipelineLayout : Type 0 where
  pub handle : ℕ
  pub set_layouts : List ℕ

-- `descriptorSetLayoutsMap`, `descriptorUpdateTemplatesMap` and `pipelineLayoutsMap`
pub record Layouts : Type 0 where
  pub layouts : Dict SetLayout
  pub templates : Dict UpdateTemplate
  pub pipeline_layouts : Dict PipelineLayout

-- VK_DESCRIPTOR_SET_LAYOUT_CREATE_PUSH_DESCRIPTOR_BIT_KHR is the lowest bit.
abbrev pub has_push_bit : (flags : ℕ) → Bool
has_push_bit flags = flags % 2 == 1

abbrev pub without_push_bit : (flags : ℕ) → ℕ
without_push_bit flags = flags - flags % 2

abbrev pub emulates_layout : Device → LayoutInfo → Bool
emulates_layout dev info = dev.emulate_push_descriptors && has_push_bit info.flags

-- What the driver is asked for
unfoldable pub sent_layout : Device → Samplers → LayoutInfo → LayoutInfo
sent_layout dev samplers info = record {
  flags = if emulates_layout dev info then without_push_bit info.flags else info.flags;
  bindings = patch_ycbcr_sampler_bindings samplers info.bindings;
}

unfoldable pub create_descriptor_set_layout :
    (answer : LayoutInfo → VkResult × ℕ)
    → Option Device
    → Samplers
    → LayoutInfo
    → Layouts
    → Option (VkResult × ℕ × Layouts)
create_descriptor_set_layout answer none samplers info s = none
create_descriptor_set_layout answer (some dev) samplers info s =
    let (result, handle) = answer (sent_layout dev samplers info) in
    let emulated = emulates_layout dev info in
    let layout : SetLayout = record {
      handle = handle;
      bindings = if emulated then info.bindings else [];
      is_emulated_push_descriptor = emulated;
    } in
    some (
      if is_success result
      then (VkResult.success, handle, record s { layouts = insert handle layout s.layouts })
      else (result, 0, s))

unfoldable pub destroy_descriptor_set_layout :
    Option Device → (handle : ℕ) → Layouts → Option Layouts
destroy_descriptor_set_layout none handle s = none
destroy_descriptor_set_layout (some dev) handle s =
    some (record s { layouts = erase handle s.layouts })

-- VK_DESCRIPTOR_UPDATE_TEMPLATE_TYPE_PUSH_DESCRIPTORS_KHR is 1, that of a descriptor set 0.
abbrev pub emulates_template : Device → TemplateInfo → Bool
emulates_template dev info = dev.emulate_push_descriptors && info.template_type == 1

unfoldable pub sent_template : Device → TemplateInfo → TemplateInfo
sent_template dev info = record info {
  template_type = if emulates_template dev info then 0 else info.template_type;
}

unfoldable pub create_descriptor_update_template :
    (answer : TemplateInfo → VkResult × ℕ)
    → Option Device
    → TemplateInfo
    → Layouts
    → Option (VkResult × ℕ × Layouts)
create_descriptor_update_template answer none info s = none
create_descriptor_update_template answer (some dev) info s =
    let (result, handle) = answer (sent_template dev info) in
    let template : UpdateTemplate = record {
      handle = handle;
      layout = info.set_layout;
      bind_point = info.bind_point;
      is_emulated_push_descriptor = emulates_template dev info;
      entries = info.entries;
    } in
    some (
      if is_success result
      then (VkResult.success, handle, record s { templates = insert handle template s.templates })
      else (result, 0, s))

unfoldable pub destroy_descriptor_update_template :
    Option Device → (handle : ℕ) → Layouts → Option Layouts
destroy_descriptor_update_template none handle s = none
destroy_descriptor_update_template (some dev) handle s =
    some (record s { templates = erase handle s.templates })

unfoldable pub create_pipeline_layout :
    (answer : List ℕ → VkResult × ℕ)
    → Option Device
    → (set_layouts : List ℕ) → Layouts
    → Option (VkResult × ℕ × Layouts)
create_pipeline_layout answer none set_layouts s = none
create_pipeline_layout answer (some dev) set_layouts s =
    let (result, handle) = answer set_layouts in
    let layout : PipelineLayout = record { handle = handle; set_layouts = set_layouts } in
    some (
      if is_success result
      then (
        VkResult.success,
        handle,
        record s { pipeline_layouts = insert handle layout s.pipeline_layouts },
      )
      else (result, 0, s))

unfoldable pub destroy_pipeline_layout : Option Device → (handle : ℕ) → Layouts → Option Layouts
destroy_pipeline_layout none handle s = none
destroy_pipeline_layout (some dev) handle s =
    some (record s { pipeline_layouts = erase handle s.pipeline_layouts })

-- `pipeline_layout::GetDescriptorSetLayout`
unfoldable pub set_layout_at : PipelineLayout → (set : ℕ) → Layouts → Option SetLayout
set_layout_at p set s = elim (get_elem? p.set_layouts set) [
  | none ↦ none
  | some layout ↦ find layout s.layouts
]

-- The two functions `GetDescriptorSetLayout` of src/push_descriptors.cpp; the second gives the bind
-- point of the template too.
unfoldable pub layout_of_set : (pipeline_layout set : ℕ) → Layouts → Option SetLayout
layout_of_set pipeline_layout set s = elim (find pipeline_layout s.pipeline_layouts) [
  | none ↦ none
  | some p ↦ set_layout_at p set s
]

unfoldable pub layout_of_template : (template : ℕ) → Layouts → Option (SetLayout × ℕ)
layout_of_template template s = elim (find template s.templates) [
  | none ↦ none
  | some t ↦ elim (find t.layout s.layouts) [ none ↦ none | some l ↦ some (l, t.bind_point) ]
]
