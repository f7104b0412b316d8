-- ===== src/Descriptors/Sets/Runs.antt =====
-- src/descriptors.cpp: the maps agree after any sequence of the entry points.
use compat_layer.Prelude.{
  ℕ, ◌+◌, ◌≤◌, ◌≡◌, true, List, [], ◌∷◌, Option, none, some, count, inl, inr, Bool-cases,
}
use compat_layer.Device.{Device}
use compat_layer.Driver.{Driver, Call, is_success}
use compat_layer.Descriptors.Tracking.{handles_of}
use compat_layer.Descriptors.Tracking.Consistent.{
  IsConsistent, tracked, track-IsConsistent, untrack-IsConsistent, untrack_pool-IsConsistent,
}
use compat_layer.Descriptors.Sets.{
  State, with_layouts, allocate_descriptor_sets, free_descriptor_sets, reset_descriptor_pool,
  destroy_descriptor_pool,
}

-- A call of an entry point by the application.
pub data Entry : Type 0 where
  allocates : Option Device → (pool : ℕ) (layouts : List ℕ) → Entry
  frees : Option Device → (pool : ℕ) (sets : List ℕ) → Entry
  resets destroys : Option Device → (pool : ℕ) → Entry

module _ (d : Driver) where
  unfoldable pub enter : Entry → State → State
  enter (allocates dev pool layouts) s = (allocate_descriptor_sets d dev pool layouts s).2
  enter (frees dev pool sets) s = (free_descriptor_sets d dev pool sets s).1
  enter (resets dev pool) s = (reset_descriptor_pool d dev pool s).1
  enter (destroys dev pool) s = destroy_descriptor_pool d dev pool s

  unfoldable pub run : List Entry → State → State
  run [] s = s
  run (e ∷ es) s = run es (enter e s)

  -- The driver gives out no set twice, and none that is still allocated.
  abbrev pub IsFresh : Entry → State → Type 0
  IsFresh (allocates (some dev) pool layouts) s =
      let call = Call.allocate_descriptor_sets pool layouts in
      is_success (d.result s.history call) ≡ true
      → (x : ℕ)
      → count x (handles_of (with_layouts (d.handles s.history call) layouts))
          + tracked x s.tracking.sets
        ≤ 1
  IsFresh _ s = Unit {0}

  abbrev pub AllFresh : List Entry → State → Type 0
  AllFresh [] s = Unit {0}
  AllFresh (e ∷ es) s = IsFresh e s × AllFresh es (enter e s)

  enter-IsConsistent :
      (e : Entry) (s : State)
      → IsFresh e s
      → IsConsistent s.tracking
      → IsConsistent (enter e s).tracking
  unfolding enter allocate_descriptor_sets free_descriptor_sets reset_descriptor_pool
      destroy_descriptor_pool
  enter-IsConsistent (allocates none pool layouts) s f c = c
  enter-IsConsistent (allocates (some dev) pool layouts) s f c =
      let call = Call.allocate_descriptor_sets pool layouts in
      elim (Bool-cases (is_success (d.result s.history call))) [
        | inl e ↦ rw (e, enter) (track-IsConsistent pool _ s.tracking (f e) c)
        | inr e ↦ rw (e, enter) c
      ]
  enter-IsConsistent (frees none pool sets) s f c = c
  enter-IsConsistent (frees (some dev) pool sets) s f c =
      elim (Bool-cases (is_success (d.result s.history (Call.free_descriptor_sets pool sets)))) [
        | inl e ↦ rw (e, enter) (untrack-IsConsistent sets s.tracking c)
        | inr e ↦ rw (e, enter) c
      ]
  enter-IsConsistent (resets none pool) s f c = c
  enter-IsConsistent (resets (some dev) pool) s f c =
      elim (Bool-cases (is_success (d.result s.history (Call.reset_descriptor_pool pool)))) [
        | inl e ↦ rw (e, enter) (untrack_pool-IsConsistent pool s.tracking c)
        | inr e ↦ rw (e, enter) c
      ]
  enter-IsConsistent (destroys none pool) s f c = c
  enter-IsConsistent (destroys (some dev) pool) s f c = untrack_pool-IsConsistent pool s.tracking c

  -- However the application calls the four entry points, and whatever results the driver gives,
  -- the maps agree: as long as the driver gives out no set that is still allocated.
  pub run-IsConsistent :
      (es : List Entry) (s : State)
      → AllFresh es s
      → IsConsistent s.tracking
      → IsConsistent (run es s).tracking
  unfolding run
  run-IsConsistent [] s f c = c
  run-IsConsistent (e ∷ es) s f c =
      run-IsConsistent es (enter e s) f.1 (enter-IsConsistent e s f.0 c)
