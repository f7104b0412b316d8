-- ===== src/NullDescriptors/Answers.antt =====
-- src/null_descriptors.cpp: when the two functions patch, what they answer, and that the copy of
-- template data is large enough.
use compat_layer.Prelude.{
  ℕ, zero, suc, ◌+◌, ◌-◌, ◌*◌, ◌%◌, ◌^◌, ◌≤◌, ◌<◌, ◌≡◌, refl, ap, ◌∙◌, true, false, Bool, not, ◌||◌,
  List, [], ◌∷◌, Option, subst, All, ◌==◌, if◌then◌else◌, Bool-cases, inl, inr, arith,
}
use compat_layer.Device.{Device}
use compat_layer.Driver.{Driver}
use compat_layer.Descriptors.Tracking.{Tracking}
use compat_layer.NullDescriptors.{
  DescriptorType, infos, get_stride, size_of, is_sampler, is_image_view, Memory, Nulls, fix,
  fixup_from,
}
use compat_layer.NullDescriptors.Fixup.{fix_at-outside, fix_at-nothing}
use compat_layer.NullDescriptors.Views.{NullState}
use compat_layer.NullDescriptors.Writes.{
  Hints, Write, Entry, write_needs_fixup, fix_write, fix_writes, fix_null_descriptors, data_size,
  fixup, fix_entries, hint_for, no_hint, is_precise, nulls_for,
}

unfoldable pub any_write_needs_fixup : List Write → Bool
any_write_needs_fixup [] = false
any_write_needs_fixup (w ∷ ws) = write_needs_fixup w || any_write_needs_fixup ws

module _ (d : Driver) (env : Option ℕ) (dev : Device) (hints : Hints) where
  fix_writes-any :
      (t : Tracking) (layout : ℕ) (ws : List Write) (n : NullState)
      → (fix_writes d env dev hints t layout ws n).0 ≡ any_write_needs_fixup ws
  unfolding fix_writes any_write_needs_fixup
  fix_writes-any t layout [] n = refl
  fix_writes-any t layout (w ∷ ws) n =
      let r = fix_write d env dev hints t layout w n in
      ap (λ b. write_needs_fixup w || b) (fix_writes-any t r.0 ws r.2)

  -- `fix_null_descriptors` answers true exactly if no write has a null handle.
  pub fix_null_descriptors-answer :
      (t : Tracking) (layout : ℕ) (ws : List Write) (n : NullState)
      → (fix_null_descriptors d env dev hints t layout ws n).0 ≡ not (any_write_needs_fixup ws)
  unfolding fix_null_descriptors
  fix_null_descriptors-answer t layout ws n = ap not (fix_writes-any t layout ws n)

  fix_writes-unneeded :
      (t : Tracking) (layout : ℕ) (ws : List Write) (n : NullState)
      → any_write_needs_fixup ws ≡ false
      → fix_writes d env dev hints t layout ws n ≡ (false, ws, n)
  unfolding fix_writes any_write_needs_fixup fix_write
  fix_writes-unneeded t layout [] n h = refl
  fix_writes-unneeded t layout (w ∷ ws) n h =
      let none_here : write_needs_fixup w ≡ false = ground (arith, h) in
      let none_later : any_write_needs_fixup ws ≡ false = ground (arith, h) in
      rw (none_here, fix_write)
        (ap (λ r. (r.0, w ∷ r.1, r.2)) (fix_writes-unneeded t layout ws n none_later))

  -- Without a null handle the writes are handed on as they are, and nothing is created.
  pub fix_null_descriptors-unneeded :
      (t : Tracking) (layout : ℕ) (ws : List Write) (n : NullState)
      → any_write_needs_fixup ws ≡ false
      → fix_null_descriptors d env dev hints t layout ws n ≡ (true, ws, n)
  unfolding fix_null_descriptors
  fix_null_descriptors-unneeded t layout ws n h =
      ap (λ r. (not r.0, r.1, r.2)) (fix_writes-unneeded t layout ws n h)

fixup_from-after :
    (t : DescriptorType) (nulls : Nulls) (n stride : ℕ) (mem : Memory) (a j : ℕ)
    → a + n * stride + size_of (infos t) ≤ j
    → fixup_from t nulls (suc n) stride mem a j ≡ mem j
unfolding fixup_from
fixup_from-after t nulls zero stride mem a j h =
    fix_at-outside (infos t) (is_sampler t) (is_image_view t) nulls mem a j (inr (omega arith))
fixup_from-after t nulls (suc n) stride mem a j h =
    fixup_from-after t nulls n stride (fix t nulls mem a) (a + stride) j (omega arith)
    ∙ fix_at-outside (infos t) (is_sampler t) (is_image_view t) nulls mem a j (inr (omega arith))

-- Vulkan's template entries have at least one descriptor.
abbrev pub HasCount : Entry → Type 0
HasCount e = (0 < e.count) × (e.count < 2 ^ 32)

fixup_from-nothing :
    (t : DescriptorType) (nulls : Nulls) (n stride : ℕ) (mem : Memory) (a j : ℕ)
    → (size_of (infos t) == 0) ≡ true
    → fixup_from t nulls n stride mem a j ≡ mem j
unfolding fixup_from
fixup_from-nothing t nulls zero stride mem a j z = refl
fixup_from-nothing t nulls (suc n) stride mem a j z =
    fixup_from-nothing t nulls n stride (fix t nulls mem a) (a + stride) j z
    ∙ fix_at-nothing (infos t) (is_sampler t) (is_image_view t) nulls mem a j z

fixup_from-end :
    (t : DescriptorType) (nulls : Nulls) (c stride : ℕ) (mem : Memory) (a j : ℕ)
    → (0 < c) × (c < 2 ^ 32)
    → a + (c + 2 ^ 32 - 1) % 2 ^ 32 * stride + size_of (infos t) ≤ j
    → fixup_from t nulls c stride mem a j ≡ mem j
fixup_from-end t nulls zero stride mem a j (k, l) h = elim k [ ]
fixup_from-end t nulls (suc m) stride mem a j (k, l) h =
    let one_less : (suc m + 2 ^ 32 - 1) % 2 ^ 32 ≡ m = omega arith in
    fixup_from-after t nulls m stride mem a j
      (subst (λ x. a + x * stride + size_of (infos t) ≤ j) one_less h)

module _ (d : Driver) (env : Option ℕ) (dev : Device) (hints : Hints) where
  -- The patching of template data writes no word beyond the size of its copy.
  pub fix_entries-data_size :
      (layout : ℕ) (es : List Entry) (mem : Memory) (n : NullState) (j : ℕ)
      → All HasCount es
      → data_size d env dev hints es ≤ j
      → (fix_entries d env dev hints layout es mem n).0 j ≡ mem j
  unfolding fix_entries data_size fixup get_stride
  fix_entries-data_size layout [] mem n j q h = refl
  fix_entries-data_size layout (e ∷ es) mem n j (q, qs) h =
      let hint =
        if is_precise d env dev layout then hint_for hints layout e.dst_binding else no_hint in
      let r = nulls_for d env dev e.type hint n in
      let mem' = fixup_from e.type r.0 e.count e.stride mem e.offset in
      let rest : data_size d env dev hints es ≤ j = ground (arith, h) in
      fix_entries-data_size layout es mem' r.1 j qs rest
      ∙ elim (Bool-cases (size_of (infos e.type) == 0)) [
        | inl z ↦ fixup_from-nothing e.type r.0 e.count e.stride mem e.offset j z
        | inr z ↦ fixup_from-end e.type r.0 e.count e.stride mem e.offset j q (ground (arith, h, z))
      ]
