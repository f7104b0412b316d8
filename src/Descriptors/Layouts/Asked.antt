-- ===== src/Descriptors/Layouts/Asked.antt =====
-- src/descriptors.cpp and src/pipelines.cpp: the maps hold what was asked for last under each
-- handle, and an entry is emulated exactly if it was asked for as a push descriptor.
use compat_layer.Prelude.{
  ℕ, ◌*◌, ◌/◌, ◌%◌, ◌-◌, ◌≡◌, refl, ap, ◌∙◌, Bool, true, false, ◌&&◌, List, [], ◌∷◌, Option, none,
  some, Dict, find, insert, erase, find-insert_if, find-erase_if, ◌==◌, if◌then◌else◌, Bool-cases,
  inl, inr, arith,
}
use compat_layer.Device.{Device}
use compat_layer.Driver.{is_success}
use compat_layer.Samplers.{Samplers, patch_ycbcr_sampler_bindings}
use compat_layer.Descriptors.Layouts.{
  LayoutInfo, SetLayout, TemplateInfo, UpdateTemplate, PipelineLayout, Layouts, sent_layout,
  sent_template,
}
use compat_layer.Descriptors.Layouts.Filed.{Op}

-- What was asked for under each handle that is there
pub record Asked : Type 0 where
  pub layouts : ℕ → Option LayoutInfo
  pub templates : ℕ → Option TemplateInfo
  pub pipeline_layouts : ℕ → Option (List ℕ)

abbrev pub put : {A : Type 0} → ℕ → Option A → (ℕ → Option A) → ℕ → Option A
put h v f k = if h == k then v else f k

-- What the driver is to be asked for: with push descriptors emulated, without the bit or the type
-- that stands for them.
abbrev pub for_driver : Device → Samplers → LayoutInfo → LayoutInfo
for_driver dev samplers info = record {
  flags = if dev.emulate_push_descriptors then info.flags / 2 * 2 else info.flags;
  bindings = patch_ycbcr_sampler_bindings samplers info.bindings;
}

abbrev pub template_for_driver : Device → TemplateInfo → TemplateInfo
template_for_driver dev info = record {
  template_type =
      if dev.emulate_push_descriptors
      then (if info.template_type == 1 then 0 else info.template_type)
      else info.template_type;
  set_layout = info.set_layout;
  bind_point = info.bind_point;
  entries = info.entries;
}

-- A creation that the driver grants is remembered under the handle, and a destruction forgets it.
unfoldable pub ask : Device → Op → Asked → Asked
ask dev (Op.create_layout answer samplers info) a =
    let (result, h) = answer (for_driver dev samplers info) in
    if is_success result then record a { layouts = put h (some info) a.layouts } else a
ask dev (Op.destroy_layout h) a = record a { layouts = put h none a.layouts }
ask dev (Op.create_template answer info) a =
    let (result, h) = answer (template_for_driver dev info) in
    if is_success result then record a { templates = put h (some info) a.templates } else a
ask dev (Op.destroy_template h) a = record a { templates = put h none a.templates }
ask dev (Op.create_pipelines answer ls) a =
    let (result, h) = answer ls in
    if is_success result
    then record a { pipeline_layouts = put h (some ls) a.pipeline_layouts }
    else a
ask dev (Op.destroy_pipelines h) a = record a { pipeline_layouts = put h none a.pipeline_layouts }

unfoldable pub ask_all : Device → List Op → Asked → Asked
ask_all dev [] a = a
ask_all dev (op ∷ ops) a = ask_all dev ops (ask dev op a)

-- What the map is to hold
abbrev pub layout_for : Device → (handle : ℕ) → LayoutInfo → SetLayout
layout_for dev h info =
    let is_push = dev.emulate_push_descriptors && info.flags % 2 == 1 in
    record {
      handle = h;
      bindings = if is_push then info.bindings else [];
      is_emulated_push_descriptor = is_push;
    }

abbrev pub template_for : Device → (handle : ℕ) → TemplateInfo → UpdateTemplate
template_for dev h info = record {
  handle = h;
  layout = info.set_layout;
  bind_point = info.bind_point;
  is_emulated_push_descriptor = dev.emulate_push_descriptors && info.template_type == 1;
  entries = info.entries;
}

abbrev pub pipeline_layout_for : (handle : ℕ) → List ℕ → PipelineLayout
pipeline_layout_for h ls = record { handle = h; set_layouts = ls }

abbrev pub seen : {A B : Type 0} → (A → B) → Option A → Option B
seen g none = none
seen g (some a) = some (g a)

abbrev pub Matches : {A V : Type 0} → (ℕ → A → V) → Dict V → (ℕ → Option A) → Type 0
Matches view m f = (k : ℕ) → find k m ≡ seen (view k) (f k)

pub record IsAsAsked (dev : Device) (a : Asked) (s : Layouts) : Type 0 where
  pub layouts : Matches (layout_for dev) s.layouts a.layouts
  pub templates : Matches (template_for dev) s.templates a.templates
  pub pipeline_layouts : Matches pipeline_layout_for s.pipeline_layouts a.pipeline_layouts

pub insert-Matches :
    {A V : Type 0} (view : ℕ → A → V) (h : ℕ) (x : A) (m : Dict V) (f : ℕ → Option A)
    → Matches view m f
    → Matches view (insert h (view h x) m) (put h (some x) f)
insert-Matches view h x m f q k = elim (Bool-cases (h == k)) [
  | inl e ↦
      let same : h ≡ k = ground (arith, e) in
      rw e (find-insert_if h k (view h x) m true e ∙ ap (λ i. some (view i x)) same)
  | inr e ↦ rw e (find-insert_if h k (view h x) m false e ∙ q k)
]

pub erase-Matches :
    {A V : Type 0} (view : ℕ → A → V) (h : ℕ) (m : Dict V) (f : ℕ → Option A)
    → Matches view m f
    → Matches view (erase h m) (put h none f)
erase-Matches view h m f q k = elim (Bool-cases (h == k)) [
  | inl e ↦ rw e (find-erase_if h k m true e)
  | inr e ↦ rw e (find-erase_if h k m false e ∙ q k)
]

clear_bit :
    (b : Bool) (n : ℕ) → (if b && n % 2 == 1 then n - n % 2 else n) ≡ (if b then n / 2 * 2 else n)
clear_bit false n = refl
clear_bit true n = ground arith

plain_type :
    (b : Bool) (n : ℕ)
    → (if b && n == 1 then 0 else n) ≡ (if b then (if n == 1 then 0 else n) else n)
plain_type false n = refl
plain_type true n = refl

-- What the code asks the driver for
pub sent_layout-for_driver :
    (dev : Device) (samplers : Samplers) (info : LayoutInfo)
    → sent_layout dev samplers info ≡ for_driver dev samplers info
unfolding sent_layout
sent_layout-for_driver dev samplers info =
    ap (λ x. record { flags = x; bindings = patch_ycbcr_sampler_bindings samplers info.bindings })
      (clear_bit dev.emulate_push_descriptors info.flags)

pub sent_template-for_driver :
    (dev : Device) (info : TemplateInfo) → sent_template dev info ≡ template_for_driver dev info
unfolding sent_template
sent_template-for_driver dev info =
    ap
      (λ x. record {
        template_type = x;
        set_layout = info.set_layout;
        bind_point = info.bind_point;
        entries = info.entries;
      })
      (plain_type dev.emulate_push_descriptors info.template_type)
