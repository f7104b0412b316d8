-- ===== src/NullDescriptors/Patched.antt =====
-- src/null_descriptors.cpp: the writes that reach the driver have no null handle.
use compat_layer.Prelude.{
  ℕ, ◌≡◌, ◌≢◌, refl, ap, ◌∙◌, true, false, false≢true, Bool, not, ◌&&◌, List, [], ◌∷◌, Option, none,
  some, All, ◌==◌, if◌then◌else◌, Bool-cases, Option-cases, ◌⊎◌, inl, inr, arith,
}
use compat_layer.Device.{Device}
use compat_layer.Driver.{Driver}
use compat_layer.Descriptors.Tracking.{Tracking}
use compat_layer.Driver.Objects.{Supplies}
use compat_layer.NullDescriptors.{
  DescriptorType, Infos, buffers, images, texels, nothing, infos, get_stride, size_of, is_sampler,
  is_image_view, Memory, needs_fixup, Nulls, fixup_from,
}
use compat_layer.NullDescriptors.Fixup.{AreHandles}
use compat_layer.NullDescriptors.Arrays.{needs_fixup-fixup}
use compat_layer.NullDescriptors.Views.{NullState, get_null_image_view, get_null_buffer_view}
use compat_layer.NullDescriptors.Handles.{
  HasTypes, HasHandles, get_null_buffer_view-Answers, get_null_image_view-Answers,
}
use compat_layer.NullDescriptors.Writes.{
  Hints, effective_view_type, is_texels, Write, src_of, write_needs_fixup, nulls_for, patch,
  patch_write, fix_write, fix_writes,
}

-- The only pointer of the write is the one that its type selects.
abbrev pub Selects : Infos → Write → Type 0
Selects buffers w = (w.image_info ≡ none) × (w.texel_view ≡ none)
Selects images w = (w.buffer_info ≡ none) × (w.texel_view ≡ none)
Selects texels w = (w.buffer_info ≡ none) × (w.image_info ≡ none)
Selects nothing w = Unit {0}

abbrev pub IsSelected : Write → Type 0
IsSelected w = Selects (infos w.type) w

AreHandles-of :
    (i : Infos) (smp view : Bool) (nulls : Nulls)
    → nulls.buffer ≢ 0
    → nulls.sampler ≢ 0
    → (view ≡ true → nulls.image_view ≢ 0)
    → (is_texels i ≡ true → nulls.buffer_view ≢ 0)
    → AreHandles i smp view nulls
AreHandles-of buffers smp view nulls b s v t = b
AreHandles-of images smp view nulls b s v t = (λ _. s, v)
AreHandles-of texels smp view nulls b s v t = t refl
AreHandles-of nothing smp view nulls b s v t = tt

-- The pointer that a patched write is read through.
src-patch :
    (i : Infos) (f : Memory → Memory) (w : Write)
    → Selects i w
    → (size_of i ≡ 0)
      ⊎ ((src_of (patch i f w) ≡ none) ⊎ ((m : Memory) × (src_of (patch i f w) ≡ some (f m))))
unfolding src_of patch
src-patch buffers f w (e, e') = elim (Option-cases w.buffer_info) [
  | inl q ↦ inr (inl (rw (q, e, e', src_of, patch) refl))
  | inr (m, q) ↦ inr (inr (m, rw (q, src_of, patch) refl))
]
src-patch images f w (e, e') = elim (Option-cases w.image_info) [
  | inl q ↦ inr (inl (rw (e, src_of, patch) (rw (q, src_of, patch) (rw e' refl))))
  | inr (m, q) ↦ inr (inr (m, rw (e, src_of, patch) (rw (q, src_of, patch) refl)))
]
src-patch texels f w (e, e') = elim (Option-cases w.texel_view) [
  | inl q ↦ inr (inl (rw (e, src_of, patch) (rw (e', src_of, patch) (rw q refl))))
  | inr (m, q) ↦ inr (inr (m, rw (e, src_of, patch) (rw (e', src_of, patch) (rw q refl))))
]
src-patch nothing f w e = inl refl

patch-type : (i : Infos) (f : Memory → Memory) (w : Write) → (patch i f w).type ≡ w.type
unfolding patch
patch-type buffers f w = refl
patch-type images f w = refl
patch-type texels f w = refl
patch-type nothing f w = refl

patch-count : (i : Infos) (f : Memory → Memory) (w : Write) → (patch i f w).count ≡ w.count
unfolding patch
patch-count buffers f w = refl
patch-count images f w = refl
patch-count texels f w = refl
patch-count nothing f w = refl

abbrev needs : DescriptorType → ℕ → Option Memory → Bool
needs t n src = not (get_stride t == 0) && needs_fixup t n (get_stride t) src 0

write_needs_fixup-needs :
    (w : Write) (t : DescriptorType) (n : ℕ) (src : Option Memory)
    → w.type ≡ t
    → w.count ≡ n
    → src_of w ≡ src
    → write_needs_fixup w ≡ needs t n src
unfolding write_needs_fixup
write_needs_fixup-needs w t n src e e' e'' =
    ap (λ s. not (get_stride w.type == 0) && needs_fixup w.type w.count (get_stride w.type) s 0) e''
    ∙ ap (λ n. not (get_stride w.type == 0) && needs_fixup w.type n (get_stride w.type) src 0) e'
    ∙ ap (λ t. needs t n src) e

needs-fixup :
    (t : DescriptorType) (nulls : Nulls) (n : ℕ) (mem : Memory)
    → AreHandles (infos t) (is_sampler t) (is_image_view t) nulls
    → needs t n (some (fixup_from t nulls n (get_stride t) mem 0)) ≡ false
unfolding needs_fixup get_stride
needs-fixup t nulls n mem h =
    rw (needs_fixup-fixup t nulls n (size_of (infos t)) mem 0 h (omega arith)) (ground arith)

patched-needs :
    (w : Write) (nulls : Nulls)
    → IsSelected w
    → AreHandles (infos w.type) (is_sampler w.type) (is_image_view w.type) nulls
    → write_needs_fixup
        (patch (infos w.type) (λ m. fixup_from w.type nulls w.count (get_stride w.type) m 0) w)
      ≡ false
unfolding get_stride needs_fixup
patched-needs w nulls q h =
    let f : Memory → Memory = λ m. fixup_from w.type nulls w.count (get_stride w.type) m 0 in
    let i = infos w.type in
    let known = λ (src : Option Memory) (e : src_of (patch i f w) ≡ src).
      write_needs_fixup-needs (patch i f w) w.type w.count src (patch-type i f w)
        (patch-count i f w) e in
    elim (src-patch i f w q) [
      | inl z ↦ known _ refl ∙ ground (arith, z)
      | inr (inl e) ↦ known none e ∙ ground arith
      | inr (inr (m, e)) ↦ known _ e ∙ needs-fixup w.type nulls w.count m h
    ]

module _ (d : Driver) (env : Option ℕ) (dev : Device) (supplies : Supplies d)
    (types : HasTypes dev) where
  view_part :
      (b : Bool) (view_type format : ℕ) (n : NullState)
      → HasHandles n
      → let r = if b then get_null_image_view d env dev view_type format 1 n else (0, n) in
        (b ≡ true → r.0 ≢ 0) × HasHandles r.1
  view_part true view_type format n h =
      let (a, h') = get_null_image_view-Answers d env dev supplies types view_type format 1 n h in
      (λ _. a, h')
  view_part false view_type format n h = (λ e. absurd (false≢true e), h)

  texel_part :
      (b : Bool) (format : ℕ) (n : NullState)
      → HasHandles n
      → let r = if b then get_null_buffer_view d env dev format n else (0, n) in
        (b ≡ true → r.0 ≢ 0) × HasHandles r.1
  texel_part true format n h =
      let (a, h') = get_null_buffer_view-Answers d env dev supplies types format n h in (λ _. a, h')
  texel_part false format n h = (λ e. absurd (false≢true e), h)

  nulls_for-AreHandles :
      (t : DescriptorType) (hint : ℕ × ℕ) (n : NullState)
      → HasHandles n
      → let r = nulls_for d env dev t hint n in
        AreHandles (infos t) (is_sampler t) (is_image_view t) r.0 × HasHandles r.1
  unfolding nulls_for
  nulls_for-AreHandles t (format, view_type) n h =
      let (v, h1) = view_part (is_image_view t) (effective_view_type t view_type) format n h in
      let (b, h2) = texel_part (is_texels (infos t)) format _ h1 in
      (AreHandles-of (infos t) (is_sampler t) (is_image_view t) _ h2.buffer h2.sampler v b, h2)

  module _ (hints : Hints) where
    patch_write-patched :
        (layout : ℕ) (w : Write) (n : NullState)
        → IsSelected w
        → HasHandles n
        → let r = patch_write d env dev hints layout w n in
          (write_needs_fixup r.0 ≡ false) × HasHandles r.1
    unfolding patch_write
    patch_write-patched layout w n q h =
        let (a, h') = nulls_for-AreHandles w.type _ n h in (patched-needs w _ q a, h')

    fix_write-patched :
        (t : Tracking) (layout : ℕ) (w : Write) (n : NullState)
        → IsSelected w
        → HasHandles n
        → let r = fix_write d env dev hints t layout w n in
          (write_needs_fixup r.1 ≡ false) × HasHandles r.2
    unfolding fix_write
    fix_write-patched t layout w n q h = elim (Bool-cases (write_needs_fixup w)) [
      | inr e ↦ rw (e, fix_write) (e, h)
      | inl e ↦ rw (e, fix_write) (patch_write-patched _ w n q h)
    ]

    -- Every write that reaches the driver is without null handles, if each write has the pointer
    -- that its type selects and no other, and the driver creates what it is asked for.
    pub fix_writes-patched :
        (t : Tracking) (layout : ℕ) (ws : List Write) (n : NullState)
        → All IsSelected ws
        → HasHandles n
        → All (λ w. write_needs_fixup w ≡ false) (fix_writes d env dev hints t layout ws n).1
    unfolding fix_writes
    fix_writes-patched t layout [] n q h = tt
    fix_writes-patched t layout (w ∷ ws) n (q, qs) h =
        let r = fix_write d env dev hints t layout w n in
        let (p, h') = fix_write-patched t layout w n q h in
        (p, fix_writes-patched t r.0 ws r.2 qs h')
