-- ===== src/Commands/Recycled.antt =====
-- src/command_buffer.cpp: beginning and resetting a command buffer, and resetting and destroying a
-- pool, free the live sets of just those command buffers, and do not throw.
use compat_layer.Prelude.{
  ℕ, ◌≡◌, refl, sym, ap, subst, ◌∙◌, List, [], ◌∷◌, none, some, Dict, find, insert, erase,
  find-erase, arith, Option-cases, inl, inr,
}
use mathlib.Core.Option.{some-injective, none-ne-some}
use compat_layer.Device.{Device}
use compat_layer.Driver.{Driver, History, Call, Object, VkResult}
use compat_layer.Descriptors.Tracking.{sets_of}
use compat_layer.Allocator.Quiet.{OnSome}
use compat_layer.Allocator.Invariant.{opened}
use compat_layer.Commands.{
  CommandBuffer, Layer, layer_history, calling, kill_descriptor_sets, kill_each, recycle,
  begin_command_buffer, reset_command_buffer, reset_command_pool, destroy_command_pool,
}
use compat_layer.Commands.Live.{IsCleared, kill_each-IsCleared}
use compat_layer.Commands.Held.{IsHeld, kill_each-IsHeld}

-- The command buffers among the handles have lost their sets, and nothing else has changed of the
-- sets; the allocator's counters are right.
abbrev pub Recycled : Driver → List ℕ → Layer → Layer → Type 0
Recycled d handles s s' = IsCleared handles s s' × IsHeld d s'

module _ (d : Driver) where
  -- A call that makes and destroys no descriptor pool
  abbrev Unseen : Call → Type 0
  Unseen c = (p : ℕ) (h : History) → opened d p (c ∷ h) ≡ opened d p h

  after_call :
      (c : Call) (handles : List ℕ) (s s' : Layer)
      → Unseen c
      → Recycled d handles s s'
      → Recycled d handles s (calling c s')
  after_call c handles s s' unseen (k, held) = (
    record { commands = k.commands; layouts = k.layouts; pending = k.pending },
    record {
      valid = record {
        counted = held.valid.counted;
        held = held.valid.held;
        owned = λ p. held.valid.owned p ∙ sym (unseen p (layer_history s'));
        null = held.valid.null;
        total = held.valid.total;
      };
      small = held.small;
      distinct = held.distinct;
    },
  )

  kill_each-Recycled :
      (handles : List ℕ) (s : Layer)
      → IsHeld d s
      → (s' : Layer) × (kill_each handles s ≡ some s') × Recycled d handles s s'
  kill_each-Recycled handles s held =
      let (s', e, held') = kill_each-IsHeld d handles s held in
      (
        s',
        e,
        (subst (λ y. OnSome y (IsCleared handles s)) e (kill_each-IsCleared handles s), held'),
      )

  recycle-kill_each :
      (c : Call) (handle : ℕ) (cb : CommandBuffer) (s s' : Layer)
      → find handle s.commands ≡ some cb
      → kill_each (handle ∷ []) s ≡ some s'
      → recycle d c handle s ≡ some (d.result (layer_history s') c, calling c s')
  unfolding recycle kill_each
  recycle-kill_each c handle cb s s' e k = elim (Option-cases (kill_descriptor_sets handle cb s)) [
    | inl q ↦ absurd (none-ne-some s' (rw (e, q, kill_each) at k))
    | inr (s1, q) ↦
        let same : s1 ≡ s' = some-injective s1 s' (rw (e, q, kill_each) at k) in
        rw (e, q, recycle) (ap (λ t. some (d.result (layer_history t) c, calling c t)) same)
  ]

  recycle-Recycled :
      (c : Call) (handle : ℕ) (cb : CommandBuffer) (s : Layer)
      → Unseen c
      → find handle s.commands ≡ some cb
      → IsHeld d s
      → (r : VkResult × Layer) × (recycle d c handle s ≡ some r) × Recycled d (handle ∷ []) s r.1
  recycle-Recycled c handle cb s unseen e held =
      let (s', k, done) = kill_each-Recycled (handle ∷ []) s held in
      (
        (d.result (layer_history s') c, calling c s'),
        recycle-kill_each c handle cb s s' e k,
        after_call c (handle ∷ []) s s' unseen done,
      )

  -- Beginning a command buffer that the layer knows, and resetting it, return; its live sets are
  -- gone from it and from the tracked layouts, every other command buffer and layout is as it was,
  -- and the allocator's counters are those of the sets that are left.
  pub recycle_lem :
      (handle : ℕ) (cb : CommandBuffer) (s : Layer)
      → find handle s.commands ≡ some cb
      → IsHeld d s
      → ((r : VkResult × Layer) × (begin_command_buffer d handle s ≡ some r)
          × Recycled d (handle ∷ []) s r.1)
        × ((r : VkResult × Layer) × (reset_command_buffer d handle s ≡ some r)
            × Recycled d (handle ∷ []) s r.1)
  unfolding opened
  recycle_lem handle cb s e held = (
    recycle-Recycled (Call.begin_command_buffer handle) handle cb s (λ p h. refl) e held,
    recycle-Recycled (Call.reset_command_buffer handle) handle cb s (λ p h. refl) e held,
  )

  -- The map of the pools does not matter to the sets.
  with_pools :
      (handles : List ℕ) (m m' : Dict (List ℕ)) (s s' : Layer)
      → Recycled d handles (record s { pools = m }) s'
      → Recycled d handles s (record s' { pools = m' })
  with_pools handles m m' s s' (k, held) = (
    record { commands = k.commands; layouts = k.layouts; pending = k.pending },
    record { valid = held.valid; small = held.small; distinct = held.distinct },
  )

  opened-pools : (m : Dict (List ℕ)) (s : Layer) → IsHeld d s → IsHeld d (record s { pools = m })
  opened-pools m s held = record {
    valid = held.valid;
    small = held.small;
    distinct = held.distinct;
  }

  -- Resetting a pool and destroying it return; the live sets of its command buffers are gone from
  -- them and from the tracked layouts, every other command buffer and layout is as it was, and the
  -- allocator's counters are those of the sets that are left. A pool that is destroyed is
  -- forgotten.
  pub command_pool_lem :
      (dev : Device) (pool : ℕ) (s : Layer)
      → IsHeld d s
      → ((r : VkResult × Layer) × (reset_command_pool d (some dev) pool s ≡ some r)
          × Recycled d (sets_of pool s.pools) s r.1)
        × ((s' : Layer) × (destroy_command_pool (some dev) pool s ≡ some s')
            × Recycled d (sets_of pool s.pools) s s'
            × (find pool s'.pools ≡ none))
  unfolding opened reset_command_pool destroy_command_pool
  command_pool_lem dev pool s held =
      let handles = sets_of pool s.pools in
      let m = insert pool handles s.pools in
      let (s', e, done) =
        kill_each-Recycled handles (record s { pools = m }) (opened-pools m s held) in
      let c = Call.reset_command_pool pool in
      let gone = record s' { pools = erase pool s'.pools } in
      (
        (
          (d.result (layer_history s') c, calling c s'),
          rw (e, reset_command_pool) refl,
          after_call c handles s s' (λ p h. refl) (with_pools handles m s'.pools s s' done),
        ),
        (
          calling (Call.destroy Object.command_pool pool) gone,
          rw (e, destroy_command_pool) refl,
          after_call (Call.destroy Object.command_pool pool) handles s gone (λ p h. refl)
              (with_pools handles m (erase pool s'.pools) s s' done),
          ground (arith, find-erase pool pool s'.pools),
        ),
      )
