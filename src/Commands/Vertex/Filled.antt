-- ===== src/Commands/Vertex/Filled.antt =====
-- src/command_buffer.cpp: what the driver finds in the arrays of a vertex buffer binding.
use compat_layer.Prelude.{
  ℕ, zero, suc, ◌+◌, ◌<◌, ◌≤◌, ◌≡◌, refl, ap, ◌∙◌, inl, inr, List, [], ◌∷◌, Option, none, some, set,
  get_or, length, length-set, Bool-cases, ◌==◌, if◌then◌else◌, arith,
}
use compat_layer.Commands.Vertex.{Vectors, read, set_size, serve_binding, serve_bindings}

-- The places from i on, set one after the other
unfoldable pub fill : (ℕ → ℕ) → (rounds i : ℕ) → List ℕ → List ℕ
fill f zero i xs = xs
fill f (suc n) i xs = fill f n (suc i) (set xs i (f i))

pub length-fill : (f : ℕ → ℕ) (n i : ℕ) (xs : List ℕ) → length (fill f n i xs) ≡ length xs
unfolding fill
length-fill f zero i xs = refl
length-fill f (suc n) i xs = length-fill f n (suc i) (set xs i (f i)) ∙ length-set xs i (f i)

get_or-set_self : (xs : List ℕ) (i v : ℕ) → i < length xs → get_or (set xs i v) i 0 ≡ v
get_or-set_self [] i v h = elim h [ ]
get_or-set_self (x ∷ xs) zero v h = refl
get_or-set_self (x ∷ xs) (suc i) v h = get_or-set_self xs i v (omega arith)

get_or-set_after : (xs : List ℕ) (i j v : ℕ) → j < i → get_or (set xs i v) j 0 ≡ get_or xs j 0
get_or-set_after [] i j v h = refl
get_or-set_after (x ∷ xs) zero j v h = elim h [ ]
get_or-set_after (x ∷ xs) (suc i) zero v h = refl
get_or-set_after (x ∷ xs) (suc i) (suc j) v h = get_or-set_after xs i j v (omega arith)

get_or-fill_before :
    (f : ℕ → ℕ) (n i j : ℕ) (xs : List ℕ) → j < i → get_or (fill f n i xs) j 0 ≡ get_or xs j 0
unfolding fill
get_or-fill_before f zero i j xs h = refl
get_or-fill_before f (suc n) i j xs h =
    get_or-fill_before f n (suc i) j (set xs i (f i)) (omega arith)
    ∙ get_or-set_after xs i j (f i) h

pub get_or-fill :
    (f : ℕ → ℕ) (n i k : ℕ) (xs : List ℕ)
    → k < n
    → i + n ≤ length xs
    → get_or (fill f n i xs) (i + k) 0 ≡ f (i + k)
unfolding fill
get_or-fill f zero i k xs h small = elim h [ ]
get_or-fill f (suc n) i zero xs h small =
    let here : i + 0 ≡ i = omega arith in
    rw here (
      get_or-fill_before f n (suc i) i (set xs i (f i)) (omega arith)
      ∙ get_or-set_self xs i (f i) (omega arith))
get_or-fill f (suc n) i (suc k) xs h small =
    let next : i + suc k ≡ suc i + k = omega arith in
    rw next (
      get_or-fill f n (suc i) k (set xs i (f i)) (omega arith)
        (omega (arith, length-set xs i (f i))))

-- What the loop writes at a place
module _ (null_buffer : ℕ) (buffers : List ℕ) (offsets sizes : Option (List ℕ)) where
  abbrev pub buffer_at : ℕ → ℕ
  buffer_at i = if get_or buffers i 0 == 0 then null_buffer else get_or buffers i 0

  abbrev pub offset_at : ℕ → ℕ
  offset_at i = if get_or buffers i 0 == 0 then 0 else read offsets i

  abbrev pub size_at : ℕ → ℕ
  size_at i = if get_or buffers i 0 == 0 then 65536 else read sizes i

abbrev pub fill_sizes : Option (List ℕ) → (ℕ → ℕ) → (rounds i : ℕ) → List ℕ → List ℕ
fill_sizes none f n i xs = xs
fill_sizes (some given) f n i xs = fill f n i xs

module _ (null_buffer : ℕ) (buffers : List ℕ) (offsets : Option (List ℕ)) where
  serve_binding_lem :
      (sizes : Option (List ℕ)) (i : ℕ) (v : Vectors)
      → serve_binding null_buffer buffers offsets sizes i v ≡ record {
        buffers = set v.buffers i (buffer_at null_buffer buffers offsets sizes i);
        offsets = set v.offsets i (offset_at null_buffer buffers offsets sizes i);
        sizes = set_size sizes i (size_at null_buffer buffers offsets sizes i) v.sizes;
      }
  unfolding serve_binding
  serve_binding_lem sizes i v = elim (Bool-cases (get_or buffers i 0 == 0)) [
    | inl e ↦ rw (e) refl
    | inr e ↦ rw (e) refl
  ]

  pub serve_bindings-fill :
      (sizes : Option (List ℕ)) (n i : ℕ) (v : Vectors)
      → serve_bindings null_buffer buffers offsets sizes n i v ≡ record {
        buffers = fill (buffer_at null_buffer buffers offsets sizes) n i v.buffers;
        offsets = fill (offset_at null_buffer buffers offsets sizes) n i v.offsets;
        sizes = fill_sizes sizes (size_at null_buffer buffers offsets sizes) n i v.sizes;
      }
  unfolding serve_bindings fill set_size
  serve_bindings-fill none zero i v = refl
  serve_bindings-fill (some given) zero i v = refl
  serve_bindings-fill none (suc n) i v =
      ap (serve_bindings null_buffer buffers offsets none n (suc i)) (serve_binding_lem none i v)
      ∙ serve_bindings-fill none n (suc i) _
  serve_bindings-fill (some given) (suc n) i v =
      ap (serve_bindings null_buffer buffers offsets (some given) n (suc i))
        (serve_binding_lem (some given) i v)
      ∙ serve_bindings-fill (some given) n (suc i) _
