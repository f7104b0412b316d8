-- ===== src/Descriptors/Layouts/Filed.antt =====
-- src/descriptors.cpp and src/pipelines.cpp: what the maps of layouts and templates hold after any
-- sequence of calls.
use mathlib.Core.Option.{none-ne-some, some-injective}
use compat_layer.Prelude.{
  ℕ, ◌/◌, ◌≡◌, refl, sym, subst, ◌∙◌, Bool, true, false, List, [], ◌∷◌, Option, none, some, Dict,
  find, insert, erase, find-insert_if, find-erase_if, ◌==◌, if◌then◌else◌, Bool-cases, inl, inr,
  arith,
}
use compat_layer.Device.{Device}
use compat_layer.Driver.{VkResult}
use compat_layer.Samplers.{Samplers}
use compat_layer.Descriptors.Layouts.{
  LayoutInfo, SetLayout, TemplateInfo, Layouts, emulates_layout, has_push_bit, sent_layout,
  create_descriptor_set_layout, destroy_descriptor_set_layout, create_descriptor_update_template,
  destroy_descriptor_update_template, create_pipeline_layout, destroy_pipeline_layout,
}

-- With push descriptors emulated, the driver never sees their bit, and every other bit stays.
sent_layout-flags :
    (dev : Device) (samplers : Samplers) (info : LayoutInfo)
    → dev.emulate_push_descriptors ≡ true
    → (has_push_bit (sent_layout dev samplers info).flags ≡ false)
      × ((sent_layout dev samplers info).flags / 2 ≡ info.flags / 2)
unfolding sent_layout
sent_layout-flags dev samplers info e = elim (Bool-cases (has_push_bit info.flags)) [
  | inl b ↦ rw (e, b) (ground (arith, b), ground (arith, b))
  | inr b ↦ rw (e, b) (b, refl)
]

pub data Op : Type 0 where
  create_layout : (LayoutInfo → VkResult × ℕ) → Samplers → LayoutInfo → Op
  destroy_layout : ℕ → Op
  create_template : (TemplateInfo → VkResult × ℕ) → TemplateInfo → Op
  destroy_template : ℕ → Op
  create_pipelines : (List ℕ → VkResult × ℕ) → List ℕ → Op
  destroy_pipelines : ℕ → Op

abbrev left : Option (VkResult × ℕ × Layouts) → Option Layouts
left none = none
left (some r) = some r.2

unfoldable pub serve : Device → Op → Layouts → Option Layouts
serve dev (Op.create_layout a samplers info) s =
    left (create_descriptor_set_layout a (some dev) samplers info s)
serve dev (Op.destroy_layout h) s = destroy_descriptor_set_layout (some dev) h s
serve dev (Op.create_template a info) s =
    left (create_descriptor_update_template a (some dev) info s)
serve dev (Op.destroy_template h) s = destroy_descriptor_update_template (some dev) h s
serve dev (Op.create_pipelines a ls) s = left (create_pipeline_layout a (some dev) ls s)
serve dev (Op.destroy_pipelines h) s = destroy_pipeline_layout (some dev) h s

unfoldable pub run : Device → List Op → Layouts → Option Layouts
run dev [] s = some s
run dev (op ∷ ops) s = elim (serve dev op s) [ none ↦ none | some s' ↦ run dev ops s' ]

-- Every entry of a map meets the predicate under its key.
abbrev pub Each : {V : Type 0} → (P : ℕ → V → Type 0) → Dict V → Type 0
Each {V = V} P m = (k : ℕ) (v : V) → find k m ≡ some v → P k v

pub insert-Each :
    {V : Type 0} (P : ℕ → V → Type 0) (h : ℕ) (v : V) (m : Dict V)
    → P h v
    → Each P m
    → Each P (insert h v m)
insert-Each P h v m p q k w e = elim (Bool-cases (h == k)) [
  | inl b ↦
      let key : h ≡ k = ground (arith, b) in
      let value = some-injective v w (sym (find-insert_if h k v m true b) ∙ e) in
      subst (λ x. P k x) value (subst (λ x. P x v) key p)
  | inr b ↦ q k w (sym (find-insert_if h k v m false b) ∙ e)
]

erase-Each : {V : Type 0} (P : ℕ → V → Type 0) (h : ℕ) (m : Dict V) → Each P m → Each P (erase h m)
erase-Each P h m q k w e = elim (Bool-cases (h == k)) [
  | inl b ↦ absurd (none-ne-some w (sym (find-erase_if h k m true b) ∙ e))
  | inr b ↦ q k w (sym (find-erase_if h k m false b) ∙ e)
]

-- A layout stands under its own handle; it is emulated only if the setting asks for it, and keeps
-- its bindings only then.
pub record IsFiledLayout (dev : Device) (k : ℕ) (l : SetLayout) : Type 0 where
  pub named : l.handle ≡ k
  pub asked : l.is_emulated_push_descriptor ≡ true → dev.emulate_push_descriptors ≡ true
  pub bare : l.is_emulated_push_descriptor ≡ false → l.bindings ≡ []

pub record IsFiled (dev : Device) (s : Layouts) : Type 0 where
  pub layouts : Each (IsFiledLayout dev) s.layouts
  pub templates : Each (λ k t. t.handle ≡ k) s.templates
  pub pipeline_layouts : Each (λ k p. p.handle ≡ k) s.pipeline_layouts

module _ (dev : Device) where
  abbrev Serves : Option Layouts → Type 0
  Serves o = (s' : Layouts) × (o ≡ some s') × IsFiled dev s'

  settled-IsFiled :
      (b : Bool) (made refused : VkResult × ℕ × Layouts)
      → IsFiled dev made.2
      → IsFiled dev refused.2
      → IsFiled dev (if b then made else refused).2
  settled-IsFiled true made refused f g = f
  settled-IsFiled false made refused f g = g

  new-IsFiledLayout :
      (h : ℕ) (info : LayoutInfo)
      → let emulated = emulates_layout dev info in
        IsFiledLayout dev h (record {
          handle = h;
          bindings = if emulated then info.bindings else [];
          is_emulated_push_descriptor = emulated;
        })
  new-IsFiledLayout h info = record {
    named = refl;
    asked = λ e. ground (arith, e);
    bare = λ e. rw e refl;
  }

  serve-IsFiled : (op : Op) (s : Layouts) → IsFiled dev s → Serves (serve dev op s)
  unfolding serve create_descriptor_set_layout destroy_descriptor_set_layout
      create_descriptor_update_template destroy_descriptor_update_template create_pipeline_layout
      destroy_pipeline_layout
  serve-IsFiled (Op.create_layout a samplers info) s f =
      let h = (a (sent_layout dev samplers info)).1 in
      let made : IsFiled dev _ = record {
        layouts =
            insert-Each (IsFiledLayout dev) h _ s.layouts (new-IsFiledLayout h info) f.layouts;
        templates = f.templates;
        pipeline_layouts = f.pipeline_layouts;
      } in
      (_, refl, settled-IsFiled _ _ _ made f)
  serve-IsFiled (Op.destroy_layout h) s f = (
    _,
    refl,
    record {
      layouts = erase-Each (IsFiledLayout dev) h s.layouts f.layouts;
      templates = f.templates;
      pipeline_layouts = f.pipeline_layouts;
    },
  )
  serve-IsFiled (Op.create_template a info) s f =
      let made : IsFiled dev _ = record {
        templates = insert-Each (λ k t. t.handle ≡ k) _ _ s.templates refl f.templates;
        layouts = f.layouts;
        pipeline_layouts = f.pipeline_layouts;
      } in
      (_, refl, settled-IsFiled _ _ _ made f)
  serve-IsFiled (Op.destroy_template h) s f = (
    _,
    refl,
    record {
      templates = erase-Each (λ k t. t.handle ≡ k) h s.templates f.templates;
      layouts = f.layouts;
      pipeline_layouts = f.pipeline_layouts;
    },
  )
  serve-IsFiled (Op.create_pipelines a ls) s f =
      let made : IsFiled dev _ = record {
        pipeline_layouts =
            insert-Each (λ k p. p.handle ≡ k) _ _ s.pipeline_layouts refl f.pipeline_layouts;
        layouts = f.layouts;
        templates = f.templates;
      } in
      (_, refl, settled-IsFiled _ _ _ made f)
  serve-IsFiled (Op.destroy_pipelines h) s f = (
    _,
    refl,
    record {
      pipeline_layouts = erase-Each (λ k p. p.handle ≡ k) h s.pipeline_layouts f.pipeline_layouts;
      layouts = f.layouts;
      templates = f.templates;
    },
  )

  -- Any sequence of creations and destructions, whatever the driver answers, leaves every layout
  -- and template under its own handle. A layout is emulated only if the setting asks for it, and
  -- only an emulated one keeps its bindings.
  pub run-IsFiled :
      (ops : List Op) (s : Layouts)
      → IsFiled dev s
      → (s' : Layouts) × (run dev ops s ≡ some s') × IsFiled dev s'
  unfolding run
  run-IsFiled [] s f = (s, refl, f)
  run-IsFiled (op ∷ ops) s f =
      let (s1, e, f1) = serve-IsFiled op s f in
      let (s2, e2, f2) = run-IsFiled ops s1 f1 in (s2, rw (e, run) e2, f2)
