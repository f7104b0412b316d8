-- ===== src/Resources/Images.antt =====
-- src/image.cpp: creating and destroying images and their views.
use compat_layer.Prelude.{
  ℕ, Bool, List, [], ◌∷◌, Option, none, some, find, insert, erase, if◌then◌else◌,
}
use compat_layer.Device.{Device}
use compat_layer.Driver.{Driver, Call, Object, VkResult, is_success}
use compat_layer.Resources.{State, DenseSparseResource, call}
use compat_layer.Resources.Shadow.{Bound, bind_sparse_image, destroy_sparse}
use compat_layer.Resources.Buffers.{is_sparse, without_sparse}

-- What the layer reads of `VkImageCreateInfo`; the depth-stencil usage is one bit of its usage.
pub record ImageInfo : Type 0 where
  pub flags : ℕ
  pub format : ℕ
  pub is_depth : Bool
  pub rest : List ℕ

unfoldable pub add_image : (handle format : ℕ) → Option DenseSparseResource → State → State
add_image handle format sparse s = record s {
  images = insert handle (record { format = format; sparse = sparse }) s.images;
}

unfoldable pub finish_image : (handle format : ℕ) → Bound → VkResult × ℕ × State
finish_image handle format (result, sparse, s) =
    if is_success result
    then (VkResult.success, handle, add_image handle format sparse s)
    else (result, 0, s)

module _ (d : Driver) where
  unfoldable pub create_image :
      (env : Option ℕ) → Option Device → ImageInfo → State → VkResult × ℕ × State
  create_image env none info s = (VkResult.error_unknown, 0, s)
  create_image env (some dev) info s =
      let sparse = is_sparse dev info.flags in
      let c = Call.create Object.image (
        (if sparse then without_sparse info.flags else info.flags)
        ∷ info.format
        ∷ (if info.is_depth then 1 else 0)
        ∷ info.rest) in
      let result = d.result s.history c in
      let handle = d.handle s.history c in
      if is_success result
      then finish_image handle info.format (
          if sparse
          then bind_sparse_image d env dev handle info.format info.is_depth (call c s)
          else (VkResult.success, none, call c s))
      else (result, 0, call c s)

  -- The handle is 0 where the driver fails, as the callers start from VK_NULL_HANDLE.
  unfoldable pub create_image_view : (image view_type format : ℕ) → State → VkResult × ℕ × State
  create_image_view image view_type format s =
      let c = Call.create Object.image_view (image ∷ view_type ∷ format ∷ []) in
      let result = d.result s.history c in
      (result, (if is_success result then d.handle s.history c else 0), call c s)

unfoldable pub destroy_image : Option Device → (handle : ℕ) → State → State
destroy_image none handle s = s
destroy_image (some dev) handle s = elim (find handle s.images) [
  | none ↦ s
  | some img ↦
      let s1 = (destroy_sparse img.sparse (call (Call.destroy Object.image handle) s)).1 in
      record s1 { images = erase handle s1.images }
]
