-- ===== src/Descriptors/Sets.antt =====
-- src/descriptors.cpp: the entry points that allocate, free and reset descriptor sets.
-- `get_device` finds the device, or none.
pub mod Runs
pub mod Refines
mod Tests
use compat_layer.Prelude.{ℕ, List, [], ◌∷◌, Option, none, some, if◌then◌else◌}
use compat_layer.Device.{Device}
use compat_layer.Driver.{Driver, History, Call, VkResult, is_success}
use compat_layer.Descriptors.Tracking.{
  Tracking, track_descriptor_sets, untrack_descriptor_sets, untrack_descriptor_pool,
}

pub record State : Type 0 where
  pub tracking : Tracking
  pub history : History

-- `pSets[i]` beside `pLayouts[i]`
pub with_layouts : List ℕ → List ℕ → List (ℕ × ℕ)
with_layouts (s ∷ ss) (layout ∷ ls) = (s, layout) ∷ with_layouts ss ls
with_layouts _ _ = []

module _ (d : Driver) where
  pub allocate_descriptor_sets : Option Device → ℕ → List ℕ → State → VkResult × List ℕ × State
  allocate_descriptor_sets none pool layouts s = (VkResult.error_unknown, [], s)
  allocate_descriptor_sets (some dev) pool layouts s =
      let call = Call.allocate_descriptor_sets pool layouts in
      let result = d.result s.history call in
      let sets = d.handles s.history call in
      let h = call ∷ s.history in
      if is_success result
      then (
        result,
        sets,
        record {
          tracking = track_descriptor_sets pool (with_layouts sets layouts) s.tracking;
          history = h;
        },
      )
      else (result, [], record s { history = h })

  pub free_descriptor_sets : Option Device → ℕ → List ℕ → State → VkResult × State
  free_descriptor_sets none pool sets s = (VkResult.error_unknown, s)
  free_descriptor_sets (some dev) pool sets s =
      let call = Call.free_descriptor_sets pool sets in
      let result = d.result s.history call in
      let h = call ∷ s.history in
      if is_success result
      then (result, record { tracking = untrack_descriptor_sets sets s.tracking; history = h })
      else (result, record s { history = h })

  pub reset_descriptor_pool : Option Device → ℕ → State → VkResult × State
  reset_descriptor_pool none pool s = (VkResult.error_unknown, s)
  reset_descriptor_pool (some dev) pool s =
      let call = Call.reset_descriptor_pool pool in
      let result = d.result s.history call in
      let h = call ∷ s.history in
      if is_success result
      then (result, record { tracking = untrack_descriptor_pool pool s.tracking; history = h })
      else (result, record s { history = h })

  pub destroy_descriptor_pool : Option Device → ℕ → State → State
  destroy_descriptor_pool none pool s = s
  destroy_descriptor_pool (some dev) pool s = record {
    tracking = untrack_descriptor_pool pool s.tracking;
    history = Call.destroy_descriptor_pool pool ∷ s.history;
  }
