-- ===== src/NullDescriptors/Writes.antt =====
-- src/null_descriptors.cpp: `fixup` with the device's views, and the patching of descriptor writes
-- and of template data.
use compat_layer.Prelude.{
  ℕ, ◌+◌, ◌-◌, ◌*◌, ◌%◌, ◌^◌, Bool, true, false, not, ◌&&◌, ◌||◌, List, [], ◌∷◌, Option, none, some,
  Dict, find, ◌==◌, ltb, if◌then◌else◌,
}
use compat_layer.Device.{Device}
use compat_layer.Driver.{Driver}
use compat_layer.Descriptors.Tracking.{Tracking, get_layout_for_set}
use compat_layer.NullDescriptors.{
  DescriptorType, Infos, buffers, images, texels, nothing, infos, get_stride, is_image_view, Memory,
  needs_fixup, needs_fixup_from, Nulls, fixup_from,
}
use compat_layer.NullDescriptors.Views.{
  NullState, get_null_image_view, get_null_buffer_view, max_view_type,
}

-- `bindingHints` of each layout: the format and the view type of a binding, from its shaders.
abbrev pub Hints : Type 0
Hints = Dict (Dict (ℕ × ℕ))

abbrev pub no_hint : ℕ × ℕ
no_hint = (0, max_view_type)

unfoldable pub hint_for : Hints → (layout binding : ℕ) → ℕ × ℕ
hint_for hints layout binding = elim (find layout hints) [
  | none ↦ no_hint
  | some bindings ↦ elim (find binding bindings) [ none ↦ no_hint | some hint ↦ hint ]
]

-- VK_IMAGE_VIEW_TYPE_2D is 1.
unfoldable pub effective_view_type : DescriptorType → ℕ → ℕ
effective_view_type DescriptorType.input_attachment view_type =
    if view_type == max_view_type then 1 else view_type
effective_view_type t view_type = view_type

abbrev pub is_texels : Infos → Bool
is_texels texels = true
is_texels _ = false

-- A `VkWriteDescriptorSet`, and a `VkDescriptorUpdateTemplateEntry`
pub record Write : Type 0 where
  pub dst_set : ℕ
  pub dst_binding : ℕ
  pub type : DescriptorType
  pub count : ℕ
  pub buffer_info : Option Memory
  pub image_info : Option Memory
  pub texel_view : Option Memory

pub record Entry : Type 0 where
  pub dst_binding : ℕ
  pub type : DescriptorType
  pub count : ℕ
  pub offset : ℕ
  pub stride : ℕ

-- The first pointer that is not null
unfoldable pub src_of : Write → Option Memory
src_of w = elim w.buffer_info [
  | some mem ↦ some mem
  | none ↦ elim w.image_info [ some mem ↦ some mem | none ↦ w.texel_view ]
]

unfoldable pub write_needs_fixup : Write → Bool
write_needs_fixup w =
    not (get_stride w.type == 0) && needs_fixup w.type w.count (get_stride w.type) (src_of w) 0

-- The pointer that the type selects is replaced by one to a patched copy.
unfoldable pub patch : Infos → (Memory → Memory) → Write → Write
patch buffers f w = record w {
  buffer_info = elim w.buffer_info [ none ↦ none | some m ↦ some (f m) ];
}
patch images f w = record w { image_info = elim w.image_info [ none ↦ none | some m ↦ some (f m) ] }
patch texels f w = record w { texel_view = elim w.texel_view [ none ↦ none | some m ↦ some (f m) ] }
patch nothing f w = w

module _ (d : Driver) (env : Option ℕ) (dev : Device) where
  -- The handles that `fixup` puts in, and the state after it got them.
  unfoldable pub nulls_for : DescriptorType → (hint : ℕ × ℕ) → NullState → Nulls × NullState
  nulls_for t (format, view_type) n =
      let (image_view, n1) =
        if is_image_view t
        then get_null_image_view d env dev (effective_view_type t view_type) format 1 n
        else (0, n) in
      let (buffer_view, n2) =
        if is_texels (infos t) then get_null_buffer_view d env dev format n1 else (0, n1) in
      (
        record {
          buffer = n2.null_buffer;
          sampler = n2.null_sampler;
          image_view = image_view;
          buffer_view = buffer_view;
        },
        n2,
      )

  unfoldable pub fixup :
      DescriptorType
      → (count stride : ℕ) → (hint : ℕ × ℕ) → Memory
      → ℕ
      → NullState
      → Memory × NullState
  fixup t count stride hint mem a n =
      let (nulls, n') = nulls_for t hint n in (fixup_from t nulls count stride mem a, n')

  abbrev pub is_precise : ℕ → Bool
  is_precise layout = dev.emulate_precise_null_descriptor && not (layout == 0)

  module _ (hints : Hints) where
    unfoldable pub patch_write : (layout : ℕ) → Write → NullState → Write × NullState
    patch_write layout w n =
        let hint = if is_precise layout then hint_for hints layout w.dst_binding else no_hint in
        let (nulls, n') = nulls_for w.type hint n in
        (patch (infos w.type) (λ m. fixup_from w.type nulls w.count (get_stride w.type) m 0) w, n')

    -- One write: the layout from here on, the write that is handed on, and the state.
    unfoldable pub fix_write : Tracking → (layout : ℕ) → Write → NullState → ℕ × Write × NullState
    fix_write t layout w n =
        let layout' =
          if dev.emulate_precise_null_descriptor && layout == 0
          then get_layout_for_set w.dst_set t
          else layout in
        let (w', n') = patch_write layout' w n in
        if write_needs_fixup w then (layout', w', n') else (layout, w, n)

    -- The layout that was looked up for one write is kept for those after it.
    unfoldable pub fix_writes :
        Tracking → (layout : ℕ) → List Write → NullState → Bool × List Write × NullState
    fix_writes t layout [] n = (false, [], n)
    fix_writes t layout (w ∷ ws) n =
        let (layout', w', n1) = fix_write t layout w n in
        let (patched, ws', n2) = fix_writes t layout' ws n1 in
        (write_needs_fixup w || patched, w' ∷ ws', n2)

    -- The answer, and the writes that the receiver gets.
    unfoldable pub fix_null_descriptors :
        Tracking → (layout : ℕ) → List Write → NullState → Bool × List Write × NullState
    fix_null_descriptors t layout ws n =
        let (patched, ws', n') = fix_writes t layout ws n in (not patched, ws', n')

    -- How far the entries reach into the data. The count less one is a `uint32_t`.
    unfoldable pub data_size : List Entry → ℕ
    data_size [] = 0
    data_size (e ∷ es) =
        let rest = data_size es in
        let end = e.offset + (e.count + 2 ^ 32 - 1) % 2 ^ 32 * e.stride + get_stride e.type in
        if get_stride e.type == 0 then rest else if ltb rest end then end else rest

    unfoldable pub any_needs_fixup : List Entry → Memory → Bool
    any_needs_fixup [] mem = false
    any_needs_fixup (e ∷ es) mem =
        not (get_stride e.type == 0) && needs_fixup_from e.type e.count e.stride mem e.offset
        || any_needs_fixup es mem

    unfoldable pub fix_entries : (layout : ℕ) → List Entry → Memory → NullState → Memory × NullState
    fix_entries layout [] mem n = (mem, n)
    fix_entries layout (e ∷ es) mem n =
        let hint = if is_precise layout then hint_for hints layout e.dst_binding else no_hint in
        let (mem', n') = fixup e.type e.count e.stride hint mem e.offset n in
        fix_entries layout es mem' n'

    unfoldable pub fix_null_descriptor_templates :
        (layout : ℕ) → List Entry → Memory → NullState → Bool × Memory × NullState
    fix_null_descriptor_templates layout es mem n =
        let (mem', n') = fix_entries layout es mem n in
        if data_size es == 0 || not (any_needs_fixup es mem)
        then (false, mem, n)
        else (true, mem', n')
