-- ===== src/NullDescriptors/Fixup.antt =====
-- src/null_descriptors.cpp: what `fixup` does to an array, and when `needs_fixup` asks for it.
use compat_layer.Prelude.{ℕ, ◌+◌, ◌≤◌, ◌<◌, ◌≡◌, ◌≢◌, refl, Bool, true, false, ◌⊎◌, ◌==◌, arith}
use compat_layer.NullDescriptors.{
  Infos, buffers, images, texels, nothing, size_of, Memory, is_null_at, Nulls, fix_at,
}

-- The replacements that infos of the kind take are handles.
abbrev pub AreHandles : Infos → (smp view : Bool) → Nulls → Type 0
AreHandles buffers smp view nulls = nulls.buffer ≢ 0
AreHandles images smp view nulls =
    (smp ≡ true → nulls.sampler ≢ 0) × (view ≡ true → nulls.image_view ≢ 0)
AreHandles texels smp view nulls = nulls.buffer_view ≢ 0
AreHandles nothing smp view nulls = Unit {0}

-- The words of an info are not null, or not handles.
pub fix_at_complete :
    (i : Infos) (smp view : Bool) (nulls : Nulls) (mem : Memory) (a : ℕ)
    → AreHandles i smp view nulls
    → is_null_at i smp view (fix_at i smp view nulls mem a) a ≡ false
unfolding fix_at
fix_at_complete buffers smp view nulls mem a h = ground (arith, h)
fix_at_complete images smp view nulls mem a (h, k) = ground (arith, h, k)
fix_at_complete texels smp view nulls mem a h = ground (arith, h)
fix_at_complete nothing smp view nulls mem a h = refl

-- Words outside of the info stay, and all do if it has no null handle.
pub fix_at-outside :
    (i : Infos) (smp view : Bool) (nulls : Nulls) (mem : Memory) (a j : ℕ)
    → (j < a) ⊎ (a + size_of i ≤ j)
    → fix_at i smp view nulls mem a j ≡ mem j
unfolding fix_at
fix_at-outside buffers smp view nulls mem a j h = ground arith
fix_at-outside images smp view nulls mem a j h = ground arith
fix_at-outside texels smp view nulls mem a j h = ground arith
fix_at-outside nothing smp view nulls mem a j h = refl

pub fix_at-unneeded :
    (i : Infos) (smp view : Bool) (nulls : Nulls) (mem : Memory) (a j : ℕ)
    → is_null_at i smp view mem a ≡ false
    → fix_at i smp view nulls mem a j ≡ mem j
unfolding fix_at
fix_at-unneeded buffers smp view nulls mem a j h = ground arith
fix_at-unneeded images smp view nulls mem a j h = ground arith
fix_at-unneeded texels smp view nulls mem a j h = ground arith
fix_at-unneeded nothing smp view nulls mem a j h = refl

pub fix_at-nothing :
    (i : Infos) (smp view : Bool) (nulls : Nulls) (mem : Memory) (a j : ℕ)
    → (size_of i == 0) ≡ true
    → fix_at i smp view nulls mem a j ≡ mem j
unfolding fix_at
fix_at-nothing buffers smp view nulls mem a j z = ground (arith, z)
fix_at-nothing images smp view nulls mem a j z = ground (arith, z)
fix_at-nothing texels smp view nulls mem a j z = ground (arith, z)
fix_at-nothing nothing smp view nulls mem a j z = refl
