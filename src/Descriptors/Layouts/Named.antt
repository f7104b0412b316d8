-- ===== src/Descriptors/Layouts/Named.antt =====
-- src/push_descriptors.cpp: the set layout that is looked up for a push descriptor.
use mathlib.Core.Option.{none-ne-some, some-injective}
use compat_layer.Prelude.{ℕ, ◌≡◌, sym, ap, ◌∙◌, some, find, get_elem?, Option-cases, inl, inr}
use compat_layer.Device.{Device}
use compat_layer.Descriptors.Layouts.{
  SetLayout, PipelineLayout, UpdateTemplate, Layouts, set_layout_at, layout_of_set,
  layout_of_template,
}
use compat_layer.Descriptors.Layouts.Filed.{IsFiled}

module _ (dev : Device) (s : Layouts) (f : IsFiled dev s) where
  -- The layout that is found has the handle that the pipeline layout names for the set.
  pub layout_of_set-handle :
      (pipeline_layout set : ℕ) (l : SetLayout)
      → layout_of_set pipeline_layout set s ≡ some l
      → (p : PipelineLayout) × (find pipeline_layout s.pipeline_layouts ≡ some p)
        × (get_elem? p.set_layouts set ≡ some l.handle)
  unfolding layout_of_set set_layout_at
  layout_of_set-handle pl set l e = elim (Option-cases (find pl s.pipeline_layouts)) [
    | inl q ↦ absurd (none-ne-some l (rw (q, layout_of_set) at e))
    | inr (p, q) ↦
        let e' = rw (q, layout_of_set) at e in
        elim (Option-cases (get_elem? p.set_layouts set)) [
          | inl g ↦ absurd (none-ne-some l (rw (g, set_layout_at) at e'))
          | inr (h, g) ↦
              let found = rw (g, set_layout_at) at e' in
              (p, q, g ∙ ap some (sym (f.layouts h l found).named))
        ]
  ]

  -- The layout that is found is the one that the template was created for, with its bind point.
  pub layout_of_template-handle :
      (template : ℕ) (l : SetLayout) (bind_point : ℕ)
      → layout_of_template template s ≡ some (l, bind_point)
      → (t : UpdateTemplate) × (find template s.templates ≡ some t)
        × (l.handle ≡ t.layout)
        × (bind_point ≡ t.bind_point)
  unfolding layout_of_template
  layout_of_template-handle template l b e = elim (Option-cases (find template s.templates)) [
    | inl q ↦ absurd (none-ne-some (l, b) (rw (q, layout_of_template) at e))
    | inr (t, q) ↦
        let e' = rw (q, layout_of_template) at e in
        elim (Option-cases (find t.layout s.layouts)) [
          | inl g ↦ absurd (none-ne-some (l, b) (rw g at e'))
          | inr (l', g) ↦
              let same = some-injective (l', t.bind_point) (l, b) (rw g at e') in
              let handle = sym (ap (λ x. x.0.handle) same) ∙ (f.layouts t.layout l' g).named in
              (t, q, handle, sym (ap (λ x. x.1) same))
        ]
  ]
