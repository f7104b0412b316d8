-- ===== src/Driver/Sample.antt =====
-- A driver for tests: it numbers its handles by the calls made so far, and answers as it is told.
use compat_layer.Prelude.{ℕ, ◌+◌, ◌<◌, ◌≡◌, refl, true, false, [], ◌∷◌, length, arith}
use compat_layer.Device.{Device}
use compat_layer.Driver.{Driver, History, Call, VkResult}
use compat_layer.Driver.Objects.{MakesNewObjects, opened}

module _ (answer : History → Call → VkResult) where
  abbrev pub numbering : Driver
  numbering = record {
    result = answer;
    handle = λ h c. length h + 1;
    handles = λ h c. (length h + 1) ∷ [];
    requirements = λ h o p. record { size = 64; alignment = 16; type_bits = 1 };
  }

  opened-numbering : (o : _) (p : ℕ) (h : History) → length h < p → opened numbering o p h ≡ 0
  unfolding opened
  opened-numbering o p [] k = refl
  opened-numbering o p (Call.create o' args ∷ h) k = ground (arith, opened-numbering o p h)
  opened-numbering o p (Call.destroy o' q ∷ h) k = ground (arith, opened-numbering o p h)
  opened-numbering o p (_ ∷ h) k = opened-numbering o p h (omega arith)

  pub numbering-MakesNewObjects : MakesNewObjects numbering
  numbering-MakesNewObjects h o args e =
      (omega arith, opened-numbering o (length h + 1) h (omega arith))

abbrev pub succeeds : History → Call → VkResult
succeeds h c = VkResult.success

abbrev pub sample_device : Device
sample_device = record {
  memory_index = 0;
  queue_family_index = 0;
  profile_transfers = false;
  sample_gpu_counters = false;
  emulate_push_descriptors = true;
  emulate_null_descriptor = true;
  emulate_precise_null_descriptor = false;
  emulate_sparse_binding = true;
  memory_types = 1 ∷ [];
}
