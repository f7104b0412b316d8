-- ===== src/Commands/Held.antt =====
-- src/command_buffer.cpp: the live sets of the command buffers are what the clients of the
-- allocator of descriptor sets (src/layer.cpp) hold, and freeing them does not throw.
use compat_layer.Prelude.{
  ℕ, ◌+◌, ◌<◌, ◌^◌, ◌≡◌, refl, ap, subst, ◌∙◌, List, [], ◌∷◌, ◌++◌, map, some, Dict, find, insert,
  Distinct, insert-Distinct, count, count-append, length, length-append, erase_first, ◌==◌,
  Bool-cases, Option-cases, inl, inr, arith,
}
use mathlib.Core.Option.{some-injective}
use compat_layer.Driver.{Driver}
use compat_layer.Descriptors.Tracking.{Tracking, untrack_descriptor_sets}
use compat_layer.Allocator
use compat_layer.Allocator.Free.{free-IsValid}
use compat_layer.Allocator.Invariant.{IsValid}
use compat_layer.Batches.{World, history_of, with_history, free_sets, free_world_sets}
use compat_layer.Commands.{CommandBuffer, Layer, kill_sets, kill_descriptor_sets, kill_each}

abbrev pub pools_in : List (ℕ × ℕ) → List ℕ
pools_in = map (λ e. e.0)

-- The pool of each live set of the command buffers
abbrev pub live_pools : Dict CommandBuffer → List ℕ
live_pools [] = []
live_pools (e ∷ m) = pools_in e.1.live ++ live_pools m

abbrev pub allocator_of : World → Allocator.State
allocator_of w = record { allocator = w.allocator; history = history_of w }

-- The allocator's counters tell the live sets, and are in range.
pub record IsHeld (d : Driver) (s : Layer) : Type 0 where
  pub valid : IsValid d (live_pools s.commands) (allocator_of s.world)
  pub small : length (live_pools s.commands) < 2 ^ 32
  pub distinct : Distinct s.commands

erase_first-head : (p : ℕ) (xs : List ℕ) → erase_first p (p ∷ xs) ≡ xs
erase_first-head p xs = ground arith

module _ (d : Driver) where
  -- The counters do not tell the order of the sets.
  pub reorder :
      (xs ys : List ℕ) (s : Allocator.State)
      → ((p : ℕ) → count p xs ≡ count p ys)
      → length xs ≡ length ys
      → IsValid d xs s
      → IsValid d ys s
  reorder xs ys s e k v = record {
    counted = λ p. v.counted p ∙ e p;
    held = v.held;
    owned = v.owned;
    null = v.null;
    total = v.total ∙ k;
  }

  free_sets-IsValid :
      (sets : List (ℕ × ℕ)) (others : List ℕ) (s : Allocator.State) (t : Tracking)
      → length (pools_in sets ++ others) < 2 ^ 32
      → IsValid d (pools_in sets ++ others) s
      → (r : Allocator.State × Tracking) × (free_sets sets (s, t) ≡ some r) × IsValid d others r.0
  unfolding free_sets
  free_sets-IsValid [] others s t small v = ((s, t), refl, v)
  free_sets-IsValid ((pool, q) ∷ rest) others s t small v =
      let live = pools_in rest ++ others in
      let (s', e, w) = free-IsValid d (pool ∷ live) pool q s t small (ground arith) v in
      let (r, k, u) =
        free_sets-IsValid rest others s' (untrack_descriptor_sets (q ∷ []) t) (omega arith)
          (subst (λ xs. IsValid d xs s') (erase_first-head pool live) w) in
      (r, rw (e, free_sets) k, u)

  pub kill_sets-IsValid :
      (sets : List (ℕ × ℕ)) (others : List ℕ) (w : World)
      → length (pools_in sets ++ others) < 2 ^ 32
      → IsValid d (pools_in sets ++ others) (allocator_of w)
      → (w' : World) × (kill_sets sets w ≡ some w') × IsValid d others (allocator_of w')
  unfolding kill_sets
  kill_sets-IsValid [] others w small v = (w, refl, v)
  kill_sets-IsValid (e ∷ rest) others w small v =
      let (r, k, u) = free_sets-IsValid (e ∷ rest) others (allocator_of w) w.tracking small v in
      (
        record (with_history r.0.history w) { allocator = r.0.allocator; tracking = r.1 },
        rw (k, free_world_sets) refl,
        u,
      )

-- A measure of lists that adds up
module _ (f : List ℕ → ℕ) (zero : f [] ≡ 0)
    (adds : (xs ys : List ℕ) → f (xs ++ ys) ≡ f xs + f ys) where
  live_pools-insert :
      (p : ℕ) (cb new : CommandBuffer) (m : Dict CommandBuffer)
      → find p m ≡ some cb
      → f (live_pools m) + f (pools_in new.live)
        ≡ f (live_pools (insert p new m)) + f (pools_in cb.live)
  unfolding find insert
  live_pools-insert p cb new [] e = ground (arith, e)
  live_pools-insert p cb new (x ∷ m) e = elim (Bool-cases (x.0 == p)) [
    | inl k ↦
        let same : x.1 ≡ cb = some-injective x.1 cb (rw k at e) in
        let size = ap (λ c. f (pools_in c.live)) same in
        rw k (
          omega (
            arith,
            size,
            adds (pools_in x.1.live) (live_pools m),
            adds (pools_in new.live) (live_pools m),
          ))
    | inr k ↦ rw k (
        omega (
          arith,
          adds (pools_in x.1.live) (live_pools m),
          adds (pools_in x.1.live) (live_pools (insert p new m)),
          live_pools-insert p cb new m (rw k at e),
        ))
  ]

pub length-pools :
    (p : ℕ) (cb new : CommandBuffer) (m : Dict CommandBuffer)
    → find p m ≡ some cb
    → length (live_pools m) + length (pools_in new.live)
      ≡ length (live_pools (insert p new m)) + length (pools_in cb.live)
length-pools = live_pools-insert length refl length-append

pub count-pools :
    (q p : ℕ) (cb new : CommandBuffer) (m : Dict CommandBuffer)
    → find p m ≡ some cb
    → count q (live_pools m) + count q (pools_in new.live)
      ≡ count q (live_pools (insert p new m)) + count q (pools_in cb.live)
count-pools q = live_pools-insert (count q) refl (λ xs ys. omega (arith, count-append xs ys q))

module _ (d : Driver) where
  kill_descriptor_sets-IsHeld :
      (p : ℕ) (cb : CommandBuffer) (s : Layer)
      → find p s.commands ≡ some cb
      → IsHeld d s
      → (s' : Layer) × (kill_descriptor_sets p cb s ≡ some s') × IsHeld d s'
  unfolding kill_descriptor_sets
  kill_descriptor_sets-IsHeld p cb s e held =
      let new : CommandBuffer = record cb { live = [] } in
      let m = insert p new s.commands in
      let size = length-pools p cb new s.commands e in
      let sum = length-append (pools_in cb.live) (live_pools m) in
      let together =
        reorder d (live_pools s.commands) (pools_in cb.live ++ live_pools m) (allocator_of s.world)
          (λ q. omega (
            arith,
            count-pools q p cb new s.commands e,
            count-append (pools_in cb.live) (live_pools m) q,
          ))
          (omega (arith, size, sum)) held.valid in
      let (w, k, v) =
        kill_sets-IsValid d cb.live (live_pools m) s.world (omega (arith, size, sum, held.small))
          together in
      (
        record s { world = w; commands = m },
        rw (k, kill_descriptor_sets) refl,
        record {
          valid = v;
          small = omega (arith, size, held.small);
          distinct = insert-Distinct p new s.commands held.distinct;
        },
      )

  pub kill_each-IsHeld :
      (ps : List ℕ) (s : Layer)
      → IsHeld d s
      → (s' : Layer) × (kill_each ps s ≡ some s') × IsHeld d s'
  unfolding kill_each
  kill_each-IsHeld [] s held = (s, refl, held)
  kill_each-IsHeld (p ∷ ps) s held = elim (Option-cases (find p s.commands)) [
    | inl e ↦ rw (e, kill_each) (kill_each-IsHeld ps s held)
    | inr (cb, e) ↦
        let (s1, k, held1) = kill_descriptor_sets-IsHeld p cb s e held in
        rw (e, k, kill_each) (kill_each-IsHeld ps s1 held1)
  ]
