-- ===== src/Resources/Buffers.antt =====
-- src/buffer.cpp: creating and destroying buffers.
use compat_layer.Prelude.{
  ℕ, ◌*◌, ◌/◌, ◌%◌, Bool, false, not, ◌&&◌, [], ◌∷◌, Option, none, some, find, insert, erase, ◌==◌,
  if◌then◌else◌,
}
use compat_layer.Device.{Device}
use compat_layer.Driver.{Driver, History, Call, Object, VkResult, is_success}
use compat_layer.Resources.{State, Buffer, DenseSparseResource, call}
use compat_layer.Resources.Shadow.{Bound, bind_sparse_buffer, destroy_sparse}

-- SPARSE_BINDING, SPARSE_RESIDENCY and SPARSE_ALIASED are the three lowest flags.
abbrev pub is_sparse : Device → (flags : ℕ) → Bool
is_sparse dev flags = dev.emulate_sparse_binding && not (flags % 8 == 0)

abbrev pub without_sparse : ℕ → ℕ
without_sparse flags = flags / 8 * 8

abbrev pub new_buffer : (size : ℕ) → Option DenseSparseResource → Buffer
new_buffer size sparse = record {
  memory = 0;
  size = size;
  offset = 0;
  id = 0;
  owns_memory = false;
  sparse = sparse;
}

-- `buffersMap[*pBuffer] = std::move(buf)`
unfoldable pub add_buffer : (handle size : ℕ) → Option DenseSparseResource → State → State
add_buffer handle size sparse s = record s {
  buffers = insert handle (new_buffer size sparse) s.buffers;
}

-- What is left to do after `BindSparseBuffer`.
unfoldable pub finish_buffer : (handle size : ℕ) → Bound → VkResult × ℕ × State
finish_buffer handle size (result, sparse, s) =
    if is_success result
    then (VkResult.success, handle, add_buffer handle size sparse s)
    else (result, handle, s)

module _ (d : Driver) (env : Option ℕ)
    (submit : (History → History) → History → VkResult × History) where
  unfoldable pub create_buffer :
      Option Device → (flags size usage : ℕ) → State → VkResult × ℕ × State
  create_buffer none flags size usage s = (VkResult.error_unknown, 0, s)
  create_buffer (some dev) flags size usage s =
      let sparse = is_sparse dev flags in
      let c =
        Call.create Object.buffer
          ((if sparse then without_sparse flags else flags) ∷ size ∷ usage ∷ []) in
      let result = d.result s.history c in
      let handle = d.handle s.history c in
      if is_success result
      then finish_buffer handle size (
          if sparse
          then bind_sparse_buffer d env dev submit handle size (call c s)
          else (VkResult.success, none, call c s))
      else (result, 0, call c s)

unfoldable pub destroy_buffer : Option Device → (handle : ℕ) → State → State
destroy_buffer none handle s = s
destroy_buffer (some dev) handle s = elim (find handle s.buffers) [
  | none ↦ s
  | some b ↦
      let s1 = (destroy_sparse b.sparse (call (Call.destroy Object.buffer handle) s)).1 in
      record s1 { buffers = erase handle s1.buffers }
]
