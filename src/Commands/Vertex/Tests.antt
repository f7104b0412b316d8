-- ===== src/Commands/Vertex/Tests.antt =====
-- src/command_buffer.cpp: two vertex buffers, the second of them null, and the theorem at them.
use compat_layer.Prelude.{◌≡◌, refl, [], ◌∷◌, none, some, find, arith}
use compat_layer.Driver.Sample.{sample_device}
use compat_layer.Commands.Sample.{idle, start}
use compat_layer.Commands.Vertex.{
  VertexBinding, cmd_bind_vertex_buffers, cmd_bind_vertex_buffers2, replace_buffers, serve_bindings,
  serve_binding, read, set_size,
}
use compat_layer.Commands.Vertex.Served.{IsBound, given, cmd_bind_vertex_buffers-IsBound}

start-known : find 9 start.commands ≡ some idle
unfolding find
start-known = refl

second_null :
    cmd_bind_vertex_buffers2 sample_device 90 9 2
      (given (41 ∷ 0 ∷ []) (some (16 ∷ 32 ∷ [])) (some (8 ∷ 8 ∷ [])) none)
      start
    ≡ some (given (41 ∷ 90 ∷ []) (some (16 ∷ 0 ∷ [])) (some (8 ∷ 65536 ∷ [])) none)
unfolding cmd_bind_vertex_buffers2 replace_buffers serve_bindings serve_binding read set_size find
second_null = refl

cmd_bind_vertex_buffers-IsBound_example :
    ((r : VertexBinding) × (cmd_bind_vertex_buffers2 sample_device 90 9 2
          (given (41 ∷ 0 ∷ []) (some (16 ∷ 32 ∷ [])) (some (8 ∷ 8 ∷ [])) none)
          start
        ≡ some r)
      × IsBound 90 2
          (41 ∷ 0 ∷ [])
          (given (41 ∷ 0 ∷ []) (some (16 ∷ 32 ∷ [])) (some (8 ∷ 8 ∷ [])) none)
          r)
    × ((r : VertexBinding) × (cmd_bind_vertex_buffers sample_device 90 9 2
            (some (41 ∷ 0 ∷ []))
            (some (16 ∷ 32 ∷ []))
            start
          ≡ some r)
        × IsBound 90 2 (41 ∷ 0 ∷ []) (given (41 ∷ 0 ∷ []) (some (16 ∷ 32 ∷ [])) none none) r)
cmd_bind_vertex_buffers-IsBound_example =
    cmd_bind_vertex_buffers-IsBound 90 2 (41 ∷ 0 ∷ []) (some (16 ∷ 32 ∷ [])) none sample_device 9
      idle (some (8 ∷ 8 ∷ [])) start refl start-known (omega arith)
