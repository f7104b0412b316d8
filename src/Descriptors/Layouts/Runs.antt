-- ===== src/Descriptors/Layouts/Runs.antt =====
-- src/descriptors.cpp and src/pipelines.cpp: any sequence of calls leaves in the maps what was
-- asked for last.
use compat_layer.Prelude.{
  ℕ, ◌≡◌, refl, subst, Bool, true, false, List, [], ◌∷◌, some, insert, if◌then◌else◌,
}
use compat_layer.Device.{Device}
use compat_layer.Driver.{VkResult, is_success}
use compat_layer.Descriptors.Layouts.{
  LayoutInfo, TemplateInfo, Layouts, sent_layout, sent_template, create_descriptor_set_layout,
  destroy_descriptor_set_layout, create_descriptor_update_template,
  destroy_descriptor_update_template, create_pipeline_layout, destroy_pipeline_layout,
}
use compat_layer.Descriptors.Layouts.Filed.{Op, serve, run}
use compat_layer.Descriptors.Layouts.Asked.{
  Asked, put, ask, ask_all, layout_for, template_for, pipeline_layout_for, IsAsAsked,
  insert-Matches, erase-Matches, sent_layout-for_driver, sent_template-for_driver,
}

module _ (dev : Device) where
  settled-IsAsAsked :
      (b : Bool) (new old : Asked) (made refused : VkResult × ℕ × Layouts)
      → IsAsAsked dev new made.2
      → IsAsAsked dev old refused.2
      → IsAsAsked dev (if b then new else old) (if b then made else refused).2
  settled-IsAsAsked true new old made refused q r = q
  settled-IsAsAsked false new old made refused q r = r

  -- A creation, for any answer of the driver
  abbrev layout_asked : VkResult × ℕ → LayoutInfo → Asked → Asked
  layout_asked r info a =
      if is_success r.0 then record a { layouts = put r.1 (some info) a.layouts } else a

  abbrev layout_made : VkResult × ℕ → LayoutInfo → Layouts → VkResult × ℕ × Layouts
  layout_made r info s =
      if is_success r.0
      then (
        VkResult.success,
        r.1,
        record s { layouts = insert r.1 (layout_for dev r.1 info) s.layouts },
      )
      else (r.0, 0, s)

  created_layout-IsAsAsked :
      (r : VkResult × ℕ) (info : LayoutInfo) (a : Asked) (s : Layouts)
      → IsAsAsked dev a s
      → IsAsAsked dev (layout_asked r info a) (layout_made r info s).2
  created_layout-IsAsAsked r info a s q =
      let made : IsAsAsked dev (record a { layouts = put r.1 (some info) a.layouts })
          (record s { layouts = insert r.1 (layout_for dev r.1 info) s.layouts }) =
        record {
          layouts = insert-Matches (layout_for dev) r.1 info s.layouts a.layouts q.layouts;
          templates = q.templates;
          pipeline_layouts = q.pipeline_layouts;
        } in
      settled-IsAsAsked _ _ _ _ _ made q

  abbrev template_asked : VkResult × ℕ → TemplateInfo → Asked → Asked
  template_asked r info a =
      if is_success r.0 then record a { templates = put r.1 (some info) a.templates } else a

  abbrev template_made : VkResult × ℕ → TemplateInfo → Layouts → VkResult × ℕ × Layouts
  template_made r info s =
      if is_success r.0
      then (
        VkResult.success,
        r.1,
        record s { templates = insert r.1 (template_for dev r.1 info) s.templates },
      )
      else (r.0, 0, s)

  created_template-IsAsAsked :
      (r : VkResult × ℕ) (info : TemplateInfo) (a : Asked) (s : Layouts)
      → IsAsAsked dev a s
      → IsAsAsked dev (template_asked r info a) (template_made r info s).2
  created_template-IsAsAsked r info a s q =
      let made : IsAsAsked dev (record a { templates = put r.1 (some info) a.templates })
          (record s { templates = insert r.1 (template_for dev r.1 info) s.templates }) =
        record {
          layouts = q.layouts;
          templates =
              insert-Matches (template_for dev) r.1 info s.templates a.templates q.templates;
          pipeline_layouts = q.pipeline_layouts;
        } in
      settled-IsAsAsked _ _ _ _ _ made q

  serve-IsAsAsked :
      (op : Op) (a : Asked) (s : Layouts)
      → IsAsAsked dev a s
      → (s' : Layouts) × (serve dev op s ≡ some s') × IsAsAsked dev (ask dev op a) s'
  unfolding serve ask create_descriptor_set_layout destroy_descriptor_set_layout
      create_descriptor_update_template destroy_descriptor_update_template create_pipeline_layout
      destroy_pipeline_layout
  serve-IsAsAsked (Op.create_layout answer samplers info) a s q =
      let r = answer (sent_layout dev samplers info) in
      (
        _,
        refl,
        subst (λ x. IsAsAsked dev (layout_asked (answer x) info a) (layout_made r info s).2)
            (sent_layout-for_driver dev samplers info) (created_layout-IsAsAsked r info a s q),
      )
  serve-IsAsAsked (Op.destroy_layout h) a s q = (
    _,
    refl,
    record {
      layouts = erase-Matches (layout_for dev) h s.layouts a.layouts q.layouts;
      templates = q.templates;
      pipeline_layouts = q.pipeline_layouts;
    },
  )
  serve-IsAsAsked (Op.create_template answer info) a s q =
      let r = answer (sent_template dev info) in
      (
        _,
        refl,
        subst (λ x. IsAsAsked dev (template_asked (answer x) info a) (template_made r info s).2)
            (sent_template-for_driver dev info) (created_template-IsAsAsked r info a s q),
      )
  serve-IsAsAsked (Op.destroy_template h) a s q = (
    _,
    refl,
    record {
      layouts = q.layouts;
      templates = erase-Matches (template_for dev) h s.templates a.templates q.templates;
      pipeline_layouts = q.pipeline_layouts;
    },
  )
  serve-IsAsAsked (Op.create_pipelines answer ls) a s q =
      let made : IsAsAsked dev
          (record a { pipeline_layouts = put (answer ls).1 (some ls) a.pipeline_layouts })
          (record s {
            pipeline_layouts =
                insert (answer ls).1 (pipeline_layout_for (answer ls).1 ls) s.pipeline_layouts;
          }) =
        record {
          layouts = q.layouts;
          templates = q.templates;
          pipeline_layouts =
              insert-Matches pipeline_layout_for _ ls s.pipeline_layouts a.pipeline_layouts
                q.pipeline_layouts;
        } in
      (_, refl, settled-IsAsAsked _ _ _ _ _ made q)
  serve-IsAsAsked (Op.destroy_pipelines h) a s q = (
    _,
    refl,
    record {
      layouts = q.layouts;
      templates = q.templates;
      pipeline_layouts =
          erase-Matches pipeline_layout_for h s.pipeline_layouts a.pipeline_layouts
            q.pipeline_layouts;
    },
  )

  -- Whatever the driver answers, any sequence of creations and destructions ends, and leaves under
  -- each handle what was asked for last and nothing under any other. A set layout is emulated, and
  -- keeps its bindings, exactly if push descriptors are emulated and it was asked for with their
  -- bit; a template, exactly if it was asked for with their type. The driver is asked for neither.
  pub run-IsAsAsked :
      (ops : List Op) (a : Asked) (s : Layouts)
      → IsAsAsked dev a s
      → (s' : Layouts) × (run dev ops s ≡ some s') × IsAsAsked dev (ask_all dev ops a) s'
  unfolding run ask_all
  run-IsAsAsked [] a s q = (s, refl, q)
  run-IsAsAsked (op ∷ ops) a s q =
      let (s1, e, q1) = serve-IsAsAsked op a s q in
      let (s2, e2, q2) = run-IsAsAsked ops (ask dev op a) s1 q1 in (s2, rw (e, run) e2, q2)
