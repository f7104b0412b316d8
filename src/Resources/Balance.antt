-- ===== src/Resources/Balance.antt =====
-- src/buffer.cpp, src/image.cpp and src/sparse_binding.cpp: when two states hold the same.
use compat_layer.Prelude.{
  ℕ, ◌^◌, ◌<◌, ◌≡◌, refl, true, false, List, ◌∷◌, find, if◌then◌else◌, Bool-cases, inl, inr, arith,
}
use compat_layer.Driver.{Driver, History, Call, Object, is_success}
use compat_layer.Driver.Objects.{MakesNewObjects, opened, is_it, opened-is_it}
use compat_layer.Resources.{State}

-- The same maps, the same bytes committed, and the same objects open in the driver.
pub record Same (d : Driver) (s s' : State) : Type 0 where
  pub buffers : (p : ℕ) → find p s'.buffers ≡ find p s.buffers
  pub images : (p : ℕ) → find p s'.images ≡ find p s.images
  pub committed : s'.committed ≡ s.committed
  pub open_objects : (o : Object) (p : ℕ) → opened d o p s'.history ≡ opened d o p s.history

-- `VkDeviceSize` has 64 bits.
abbrev pub HasSizes : Driver → Type 0
HasSizes d = (h : History) (o : Object) (p : ℕ) → (d.requirements h o p).size < 2 ^ 64

module _ (d : Driver) where
  -- A call that fails opens nothing.
  pub opened-failed :
      (o' o : Object) (args : List ℕ) (p : ℕ) (h : History)
      → is_success (d.result h (Call.create o' args)) ≡ false
      → opened d o p (Call.create o' args ∷ h) ≡ opened d o p h
  unfolding opened
  opened-failed o' o args p h e = rw (e, opened) refl

  -- What is created and then destroyed leaves what was open before.
  pub opened-destroy_create :
      (o' o : Object) (args : List ℕ) (p : ℕ) (h : History)
      → MakesNewObjects d
      → is_success (d.result h (Call.create o' args)) ≡ true
      → (if is_it o' (d.handle h (Call.create o' args)) o p
          then 0
          else opened d o p (Call.create o' args ∷ h))
        ≡ opened d o p h
  unfolding opened
  opened-destroy_create o' o args p h new e =
      elim (Bool-cases (is_it o' (d.handle h (Call.create o' args)) o p)) [
        | inl k ↦
            rw (e, k, opened)
              (ground (
                arith,
                (new h o' args e).1,
                opened-is_it d o o' p (d.handle h (Call.create o' args)) h k,
              ))
        | inr k ↦ rw (e, k, opened) refl
      ]
