-- ===== src/Commands/Templates/Named.antt =====
-- src/push_descriptors.cpp: the set that is bound for an emulated template has its layout.
use mathlib.Core.Option.{some-injective}
use compat_layer.Prelude.{ℕ, ◌≡◌, refl, sym, ap, subst, ◌∙◌, true, Option, none, some, find}
use compat_layer.Device.{Device}
use compat_layer.Driver.{Driver, VkResult}
use compat_layer.Descriptors.Layouts.{SetLayout, UpdateTemplate, Layouts, layout_of_template}
use compat_layer.Descriptors.Layouts.Filed.{IsFiled}
use compat_layer.Descriptors.Layouts.Named.{layout_of_template-handle}
use compat_layer.NullDescriptors.{Memory}
use compat_layer.NullDescriptors.Views.{NullState}
use compat_layer.NullDescriptors.Writes.{Hints}
use compat_layer.Commands.{CommandBuffer, Layer}
use compat_layer.Commands.Push.{Recorded, pushed, refused, allocate_descriptor_set-Recorded}
use compat_layer.Commands.Templates.{
  BoundTemplate, bind_template, bind_emulated_push_descriptor_set_template, push_template_to,
  cmd_push_descriptor_set_with_template,
}

-- The set that is bound was allocated with the layout.
abbrev Holds : (layout place : ℕ) → Layer → Option BoundTemplate → Type 0
Holds layout place s none = Unit {0}
Holds layout place s (some b) = (b.place ≡ place) × (find b.set s.world.tracking.sets ≡ some layout)

module _ (d : Driver) (env : Option ℕ) (dev : Device) (hints : Hints) where
  bind_template-Holds :
      (handle : ℕ) (cb : CommandBuffer) (layout place : ℕ) (template : Option UpdateTemplate)
      (source : Option Memory) (s : Layer) (r : VkResult × ℕ × Layer) (n : NullState)
      → Recorded handle cb layout s r
      → let b = bind_template d env dev hints template place source r n in
        Holds layout place b.1 b.0
  unfolding bind_template
  bind_template-Holds handle cb layout place template source s _ n (pushed pool set s' found kept) =
      (refl, kept)
  bind_template-Holds handle cb layout place template source s _ n (refused r s' e same kept) =
      rw e tt

  -- A push descriptor of an emulated template is not handed to the driver. Unless the allocator
  -- fails, a set of the template's layout is bound at the place.
  pub cmd_push_descriptor_set_with_template-Holds :
      (layouts : Layouts) (handle template place : ℕ) (mem : Memory) (s : Layer) (n : NullState)
      (cb : CommandBuffer) (t : UpdateTemplate) (l : SetLayout) (bind_point : ℕ)
      → IsFiled dev layouts
      → find handle s.commands ≡ some cb
      → find template layouts.templates ≡ some t
      → layout_of_template template layouts ≡ some (l, bind_point)
      → l.is_emulated_push_descriptor ≡ true
      → (b : Option BoundTemplate) × (s' : Layer) × (n' : NullState)
        × (cmd_push_descriptor_set_with_template d env dev hints layouts handle template place mem s
              n
            ≡ some (none, b, s', n'))
        × Holds t.layout place s' b
  unfolding cmd_push_descriptor_set_with_template push_template_to
  cmd_push_descriptor_set_with_template-Holds layouts handle template place mem s n cb t l point
        filed known there found em =
      let r =
        bind_emulated_push_descriptor_set_template d env dev hints handle cb (some t) l.handle place
          (some mem) s n in
      let (t', q, named, _) = layout_of_template-handle dev layouts filed template l point found in
      let handle_of : l.handle ≡ t.layout =
        named ∙ ap (λ x. x.layout) (sym (some-injective t t' (sym there ∙ q))) in
      (
        r.0,
        r.1,
        r.2,
        rw (known, cmd_push_descriptor_set_with_template) (rw (there, found, em) refl),
        subst (λ h. Holds h place r.1 r.0) handle_of
            (bind_template-Holds handle cb l.handle place (some t) (some mem) s _ n
              (allocate_descriptor_set-Recorded d handle cb l.handle s)),
      )
