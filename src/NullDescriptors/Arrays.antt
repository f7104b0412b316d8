-- ===== src/NullDescriptors/Arrays.antt =====
-- src/null_descriptors.cpp: `needs_fixup` and `fixup` over an array of infos that do not overlap.
use compat_layer.Prelude.{
  ℕ, zero, suc, ◌+◌, ◌≤◌, ◌<◌, ◌≡◌, refl, sym, ap, ◌∙◌, ◌⊎◌, Bool, true, false, ltb, ltb→ge, ltb→lt,
  Bool-cases, inl, inr, arith,
}
use compat_layer.NullDescriptors.{
  DescriptorType, Infos, buffers, images, texels, nothing, infos, size_of, is_sampler,
  is_image_view, Memory, is_null_at, is_null, needs_fixup_from, Nulls, fix, fixup_from,
}
use compat_layer.NullDescriptors.Fixup.{
  AreHandles, fix_at_complete, fix_at-outside, fix_at-unneeded,
}

is_null_at-ext :
    (i : Infos) (smp view : Bool) (mem mem' : Memory) (a : ℕ)
    → ((j : ℕ) → a ≤ j → j < a + size_of i → mem j ≡ mem' j)
    → is_null_at i smp view mem a ≡ is_null_at i smp view mem' a
is_null_at-ext buffers smp view mem mem' a h = ground (arith, h a (omega arith) (omega arith))
is_null_at-ext images smp view mem mem' a h =
    ground (arith, h a (omega arith) (omega arith), h (a + 1) (omega arith) (omega arith))
is_null_at-ext texels smp view mem mem' a h = ground (arith, h a (omega arith) (omega arith))
is_null_at-ext nothing smp view mem mem' a h = refl

module _ (t : DescriptorType) (nulls : Nulls) where
  fixup_from-before :
      (n stride : ℕ) (mem : Memory) (a j : ℕ) → j < a → fixup_from t nulls n stride mem a j ≡ mem j
  unfolding fixup_from
  fixup_from-before zero stride mem a j h = refl
  fixup_from-before (suc n) stride mem a j h =
      fixup_from-before n stride (fix t nulls mem a) (a + stride) j (omega arith)
      ∙ fix_at-outside (infos t) (is_sampler t) (is_image_view t) nulls mem a j (inl h)

  -- After `fixup` an array needs none any more: no null handle is left in it.
  pub needs_fixup-fixup :
      (n stride : ℕ) (mem : Memory) (a : ℕ)
      → AreHandles (infos t) (is_sampler t) (is_image_view t) nulls
      → size_of (infos t) ≤ stride
      → needs_fixup_from t n stride (fixup_from t nulls n stride mem a) a ≡ false
  unfolding needs_fixup_from fixup_from
  needs_fixup-fixup zero stride mem a h k = refl
  needs_fixup-fixup (suc n) stride mem a h k =
      let fixed = fix t nulls mem a in
      let done = fixup_from t nulls n stride fixed (a + stride) in
      let first =
        is_null_at-ext (infos t) (is_sampler t) (is_image_view t) done fixed a
          (λ j l r. fixup_from-before n stride fixed (a + stride) j (omega arith))
        ∙ fix_at_complete (infos t) (is_sampler t) (is_image_view t) nulls mem a h in
      rw (first) (needs_fixup-fixup n stride fixed (a + stride) h k)

  -- Where `needs_fixup` finds no null handle, `fixup` would change nothing.
  pub fixup-unneeded :
      (n stride : ℕ) (mem : Memory) (a : ℕ)
      → needs_fixup_from t n stride mem a ≡ false
      → fixup_from t nulls n stride mem a ≡ mem
  unfolding needs_fixup_from fixup_from
  fixup-unneeded zero stride mem a h = refl
  fixup-unneeded (suc n) stride mem a h =
      let same : fix t nulls mem a ≡ mem = λ i j.
        fix_at-unneeded (infos t) (is_sampler t) (is_image_view t) nulls mem a j (ground (arith, h))
          i in
      ap (λ m. fixup_from t nulls n stride m (a + stride)) same
      ∙ fixup-unneeded n stride mem (a + stride) (ground (arith, h))

-- The address of the `i`-th info.
unfoldable pub info_at : (a stride i : ℕ) → ℕ
info_at a stride zero = a
info_at a stride (suc i) = info_at (a + stride) stride i

le-info_at : (a stride i : ℕ) → a ≤ info_at a stride i
unfolding info_at
le-info_at a stride zero = omega arith
le-info_at a stride (suc i) = omega (arith, le-info_at (a + stride) stride i)

-- The word is in an info that had a null handle.
abbrev pub WasNull : DescriptorType → (n stride : ℕ) → Memory → (a j : ℕ) → Type 0
WasNull t n stride mem a j =
    (i : ℕ) × (i < n)
    × (is_null t mem (info_at a stride i) ≡ true)
    × (info_at a stride i ≤ j)
    × (j < info_at a stride i + size_of (infos t))

module _ (t : DescriptorType) (nulls : Nulls) where
  WasNull-step :
      (n stride : ℕ) (mem : Memory) (a j : ℕ)
      → size_of (infos t) ≤ stride
      → WasNull t n stride (fix t nulls mem a) (a + stride) j
      → WasNull t (suc n) stride mem a j
  unfolding info_at
  WasNull-step n stride mem a j k (i, l, z, p, q) = (
    suc i,
    omega arith,
    is_null_at-ext (infos t) (is_sampler t) (is_image_view t) mem (fix t nulls mem a)
          (info_at (a + stride) stride i)
          (λ j' p' q'. sym (
            fix_at-outside (infos t) (is_sampler t) (is_image_view t) nulls mem a j'
              (inr (omega (arith, le-info_at (a + stride) stride i)))))
        ∙ z,
    p,
    q,
  )

  -- `fixup` changes no word but those of infos that have a null handle.
  pub fixup-local :
      (n stride : ℕ) (mem : Memory) (a j : ℕ)
      → size_of (infos t) ≤ stride
      → (fixup_from t nulls n stride mem a j ≡ mem j) ⊎ WasNull t n stride mem a j
  unfolding fixup_from info_at
  fixup-local zero stride mem a j k = inl refl
  fixup-local (suc n) stride mem a j k =
      elim (fixup-local n stride (fix t nulls mem a) (a + stride) j k) [
        | inr w ↦ inr (WasNull-step n stride mem a j k w)
        | inl e ↦ elim (Bool-cases (is_null t mem a)) [
          | inr z ↦
              inl (e ∙ fix_at-unneeded (infos t) (is_sampler t) (is_image_view t) nulls mem a j z)
          | inl z ↦ elim (Bool-cases (ltb j a)) [
            | inl l ↦ inl (
                e
                ∙ fix_at-outside (infos t) (is_sampler t) (is_image_view t) nulls mem a j
                    (inl (ltb→lt j a l)))
            | inr l ↦ elim (Bool-cases (ltb j (a + size_of (infos t)))) [
              | inl r ↦ inr (zero, omega arith, z, ltb→ge j a l, ltb→lt j (a + size_of (infos t)) r)
              | inr r ↦ inl (
                  e
                  ∙ fix_at-outside (infos t) (is_sampler t) (is_image_view t) nulls mem a j
                      (inr (ltb→ge j (a + size_of (infos t)) r)))
            ]
          ]
        ]
      ]
