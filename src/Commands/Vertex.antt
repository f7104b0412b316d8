-- ===== src/Commands/Vertex.antt =====
-- src/command_buffer.cpp: `CmdBindVertexBuffers` and `CmdBindVertexBuffers2`, which put the null
-- buffer of the device in place of null handles. An array is a list, and a pointer that may be
-- null an option.
pub mod Filled
pub mod Served
mod Tests
use compat_layer.Prelude.{
  ℕ, zero, suc, Bool, true, false, List, [], Option, none, some, find, set, get_or, replicate, ◌==◌,
  if◌then◌else◌,
}
use compat_layer.Device.{Device}
use compat_layer.Commands.{Layer}

-- What the driver is called with
pub record VertexBinding : Type 0 where
  pub buffers : Option (List ℕ)
  pub offsets : Option (List ℕ)
  pub sizes : Option (List ℕ)
  pub strides : Option (List ℕ)

-- The local vectors; that of the sizes is empty when no sizes are given.
pub record Vectors : Type 0 where
  pub buffers : List ℕ
  pub offsets : List ℕ
  pub sizes : List ℕ

-- `p ? p[i] : 0`
unfoldable pub read : Option (List ℕ) → (i : ℕ) → ℕ
read none i = 0
read (some xs) i = get_or xs i 0

unfoldable pub set_size : Option (List ℕ) → (i size : ℕ) → List ℕ → List ℕ
set_size none i size xs = xs
set_size (some given) i size xs = set xs i size

abbrev pub sized : Option (List ℕ) → (binding_count : ℕ) → List ℕ
sized none n = []
sized (some given) n = replicate n 0

module _ (null_buffer : ℕ) (buffers : List ℕ) (offsets sizes : Option (List ℕ)) where
  -- The body of the loop
  unfoldable pub serve_binding : (i : ℕ) → Vectors → Vectors
  serve_binding i v =
      if get_or buffers i 0 == 0
      then record {
        buffers = set v.buffers i null_buffer;
        offsets = set v.offsets i 0;
        sizes = set_size sizes i 65536 v.sizes;
      }
      else record {
        buffers = set v.buffers i (get_or buffers i 0);
        offsets = set v.offsets i (read offsets i);
        sizes = set_size sizes i (read sizes i) v.sizes;
      }

  unfoldable pub serve_bindings : (rounds i : ℕ) → Vectors → Vectors
  serve_bindings zero i v = v
  serve_bindings (suc n) i v = serve_bindings n (suc i) (serve_binding i v)

abbrev pub data_of : Option (List ℕ) → List ℕ → Option (List ℕ)
data_of none xs = none
data_of (some given) xs = some xs

unfoldable pub replace_buffers :
    (emulate : Bool) → (null_buffer binding_count : ℕ) → VertexBinding → VertexBinding
replace_buffers false null_buffer n b = b
replace_buffers true null_buffer n b = elim b.buffers [
  | none ↦ b
  | some buffers ↦
      let v =
        serve_bindings null_buffer buffers b.offsets b.sizes n 0
          (record { buffers = replicate n 0; offsets = replicate n 0; sizes = sized b.sizes n }) in
      record {
        buffers = some v.buffers;
        offsets = some v.offsets;
        sizes = data_of b.sizes v.sizes;
        strides = b.strides;
      }
]

-- What reaches the driver, when the command buffer is known
unfoldable pub cmd_bind_vertex_buffers2 :
    Device → (null_buffer handle binding_count : ℕ) → VertexBinding → Layer → Option VertexBinding
cmd_bind_vertex_buffers2 dev null_buffer handle n b s = elim (find handle s.commands) [
  | none ↦ none
  | some cb ↦ some (replace_buffers dev.emulate_null_descriptor null_buffer n b)
]

-- The older command has neither sizes nor strides.
unfoldable pub cmd_bind_vertex_buffers :
    Device
    → (null_buffer handle binding_count : ℕ) → (buffers offsets : Option (List ℕ)) → Layer
    → Option VertexBinding
cmd_bind_vertex_buffers dev null_buffer handle n buffers offsets =
    cmd_bind_vertex_buffers2 dev null_buffer handle n
      (record { buffers = buffers; offsets = offsets; sizes = none; strides = none })
