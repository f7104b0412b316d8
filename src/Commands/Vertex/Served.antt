-- ===== src/Commands/Vertex/Served.antt =====
-- src/command_buffer.cpp: the vertex buffers that the driver is called with, place by place.
use compat_layer.Prelude.{
  ℕ, zero, ◌+◌, ◌<◌, ◌≡◌, ◌≢◌, refl, ap, subst, ◌∙◌, true, inl, inr, List, Option, none, some, find,
  get_or, length, replicate, length-replicate, Bool-cases, ◌==◌, if◌then◌else◌, arith,
}
use compat_layer.Device.{Device}
use compat_layer.Commands.{CommandBuffer, Layer}
use compat_layer.Commands.Vertex.{
  VertexBinding, read, sized, data_of, replace_buffers, cmd_bind_vertex_buffers,
  cmd_bind_vertex_buffers2,
}
use compat_layer.Commands.Vertex.Filled.{
  fill, fill_sizes, buffer_at, offset_at, size_at, length-fill, get_or-fill, serve_bindings-fill,
}

-- One binding as the caller gave it and as the driver finds it: a null handle is bound to the null
-- buffer from its start, for 65536 bytes when sizes are given; another is bound as it was.
pub data IsServed (null_buffer whole buffer offset size : ℕ) : (b o z : ℕ) → Type 0 where
  replaced : buffer ≡ 0 → IsServed null_buffer whole buffer offset size null_buffer 0 whole
  kept : buffer ≢ 0 → IsServed null_buffer whole buffer offset size buffer offset size

abbrev whole_size : Option (List ℕ) → ℕ
whole_size none = 0
whole_size (some given) = 65536

abbrev length_of : Option (List ℕ) → ℕ
length_of none = 0
length_of (some xs) = length xs

-- All the bindings of a call: arrays of the count that the driver is told, each place served, no
-- null handle among them, and the strides as they were.
pub record IsBound (null_buffer n : ℕ) (buffers : List ℕ) (b r : VertexBinding) : Type 0 where
  counted : length_of r.buffers ≡ n
  placed : length_of r.offsets ≡ n
  measured : length_of r.sizes ≡ length (sized b.sizes n)
  strided : r.strides ≡ b.strides
  served :
      (i : ℕ)
      → i < n
      → IsServed null_buffer
          (whole_size b.sizes)
          (get_or buffers i 0)
          (read b.offsets i)
          (read b.sizes i)
          (read r.buffers i)
          (read r.offsets i)
          (read r.sizes i)
  handles : (i : ℕ) → i < n → read r.buffers i ≢ 0

IsServed-handle :
    {null_buffer whole buffer offset size b o z : ℕ}
    → null_buffer ≢ 0
    → IsServed null_buffer whole buffer offset size b o z
    → b ≢ 0
IsServed-handle h (replaced e) = h
IsServed-handle h (kept ne) = ne

fill-all : (f : ℕ → ℕ) (n i : ℕ) → i < n → get_or (fill f n 0 (replicate n 0)) i 0 ≡ f i
fill-all f n i h =
    let zeros : List ℕ = replicate n 0 in
    let start : 0 + i ≡ i = omega arith in
    subst (λ k. get_or (fill f n 0 zeros) k 0 ≡ f k) start
      (get_or-fill f n 0 i zeros h (omega (arith, length-replicate n zero)))

length-fill_all : (f : ℕ → ℕ) (n : ℕ) → length (fill f n 0 (replicate n 0)) ≡ n
length-fill_all f n = length-fill f n 0 (replicate n 0) ∙ length-replicate n zero

length-fill_sizes :
    (sizes : Option (List ℕ)) (f : ℕ → ℕ) (n : ℕ)
    → length_of (data_of sizes (fill_sizes sizes f n 0 (sized sizes n))) ≡ length (sized sizes n)
length-fill_sizes none f n = refl
length-fill_sizes (some xs) f n = length-fill f n 0 (replicate n 0)

abbrev pub given : (buffers : List ℕ) → (offsets sizes strides : Option (List ℕ)) → VertexBinding
given buffers offsets sizes strides = record {
  buffers = some buffers;
  offsets = offsets;
  sizes = sizes;
  strides = strides;
}

module _ (null_buffer n : ℕ) (buffers : List ℕ) (offsets strides : Option (List ℕ)) where
  abbrev found : Option (List ℕ) → VertexBinding
  found sizes = record {
    buffers = some (fill (buffer_at null_buffer buffers offsets sizes) n 0 (replicate n 0));
    offsets = some (fill (offset_at null_buffer buffers offsets sizes) n 0 (replicate n 0));
    sizes =
        data_of sizes
          (fill_sizes sizes (size_at null_buffer buffers offsets sizes) n 0 (sized sizes n));
    strides = strides;
  }

  replace_buffers-found :
      (sizes : Option (List ℕ))
      → replace_buffers true null_buffer n (given buffers offsets sizes strides) ≡ found sizes
  unfolding replace_buffers
  replace_buffers-found sizes = rw (serve_bindings-fill null_buffer buffers offsets sizes n 0) refl

  found-size :
      (sizes : Option (List ℕ)) (i : ℕ)
      → i < n
      → read (found sizes).sizes i
        ≡ (if get_or buffers i 0 == 0 then whole_size sizes else read sizes i)
  unfolding read
  found-size none i h = elim (Bool-cases (get_or buffers i 0 == 0)) [
    | inl e ↦ rw (e) refl
    | inr e ↦ rw (e) refl
  ]
  found-size (some xs) i h = fill-all (size_at null_buffer buffers offsets (some xs)) n i h

  found-IsServed :
      (sizes : Option (List ℕ)) (i : ℕ)
      → i < n
      → IsServed null_buffer
          (whole_size sizes)
          (get_or buffers i 0)
          (read offsets i)
          (read sizes i)
          (read (found sizes).buffers i)
          (read (found sizes).offsets i)
          (read (found sizes).sizes i)
  unfolding read
  found-IsServed sizes i h =
      let b = fill-all (buffer_at null_buffer buffers offsets sizes) n i h in
      let o = fill-all (offset_at null_buffer buffers offsets sizes) n i h in
      let z = found-size sizes i h in
      elim (Bool-cases (get_or buffers i 0 == 0)) [
        | inl e ↦ rw (b, o, z, e) (replaced (ground arith))
        | inr e ↦ rw (b, o, z, e) (kept (ground arith))
      ]

  found-IsBound :
      (sizes : Option (List ℕ))
      → null_buffer ≢ 0
      → IsBound null_buffer n buffers (given buffers offsets sizes strides) (found sizes)
  found-IsBound sizes h =
      let served = found-IsServed sizes in
      record {
        counted = length-fill_all (buffer_at null_buffer buffers offsets sizes) n;
        placed = length-fill_all (offset_at null_buffer buffers offsets sizes) n;
        measured = length-fill_sizes sizes (size_at null_buffer buffers offsets sizes) n;
        strided = refl;
        served = served;
        handles = λ i small. IsServed-handle h (served i small);
      }

  bound2 :
      (dev : Device) (handle : ℕ) (cb : CommandBuffer) (sizes : Option (List ℕ)) (s : Layer)
      → dev.emulate_null_descriptor ≡ true
      → find handle s.commands ≡ some cb
      → cmd_bind_vertex_buffers2 dev null_buffer handle n (given buffers offsets sizes strides) s
        ≡ some (found sizes)
  unfolding cmd_bind_vertex_buffers2
  bound2 dev handle cb sizes s emulate known =
      let b = given buffers offsets sizes strides in
      rw (known, cmd_bind_vertex_buffers2)
        (ap (λ e. some (replace_buffers e null_buffer n b)) emulate
          ∙ ap some (replace_buffers-found sizes))

module _ (null_buffer n : ℕ) (buffers : List ℕ) (offsets strides : Option (List ℕ)) where
  -- With null descriptors emulated, the driver gets as many bindings as the caller gave. A null
  -- handle has become the device's null buffer, bound from its start, with 65536 bytes when sizes
  -- are given; every other binding is the caller's, the strides are too, and no null handle is
  -- left. The older command does the same without sizes.
  pub cmd_bind_vertex_buffers-IsBound :
      (dev : Device) (handle : ℕ) (cb : CommandBuffer) (sizes : Option (List ℕ)) (s : Layer)
      → dev.emulate_null_descriptor ≡ true
      → find handle s.commands ≡ some cb
      → null_buffer ≢ 0
      → ((r : VertexBinding) × (cmd_bind_vertex_buffers2 dev null_buffer handle n
              (given buffers offsets sizes strides)
              s
            ≡ some r)
          × IsBound null_buffer n buffers (given buffers offsets sizes strides) r)
        × ((r : VertexBinding) × (cmd_bind_vertex_buffers dev null_buffer handle n
                (some buffers)
                offsets
                s
              ≡ some r)
            × IsBound null_buffer n buffers (given buffers offsets none none) r)
  unfolding cmd_bind_vertex_buffers
  cmd_bind_vertex_buffers-IsBound dev handle cb sizes s emulate known h = (
    (
      _,
      bound2 null_buffer n buffers offsets strides dev handle cb sizes s emulate known,
      found-IsBound null_buffer n buffers offsets strides sizes h,
    ),
    (
      _,
      bound2 null_buffer n buffers offsets none dev handle cb none s emulate known,
      found-IsBound null_buffer n buffers offsets none none h,
    ),
  )
