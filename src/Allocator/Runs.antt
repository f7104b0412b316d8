-- ===== src/Allocator/Runs.antt =====
-- src/layer.cpp: the whole life of a `DescriptorSetAllocator`: the constructor, any calls of
-- `allocate` and `free`, and `cleanup`.
use mathlib.Core.Option
use compat_layer.Prelude.{
  ℕ, ◌+◌, ◌≤◌, ◌<◌, ◌≡◌, ◌^◌, refl, List, [], ◌∷◌, Option, none, some, count, length, erase_first,
  ◌==◌, if◌then◌else◌, arith, find, ltb, sym, Bool-cases, inl, inr,
}
use compat_layer.Driver.{Driver, History, Call}
use compat_layer.Descriptors.Tracking.{Tracking, untrack_descriptor_sets}
use compat_layer.Allocator.{
  State, allocate, free, init, cleanup, destroy_all, occupancy_of, max_empty_pools_to_reserve,
}
use compat_layer.Allocator.Allocate.{live_after, allocate-IsValid, create_new_pool-IsValid}
use compat_layer.Allocator.Free.{free-IsValid}
use compat_layer.Allocator.Spare.{spare}
use compat_layer.Allocator.Reserve.{create_new_pool-spare, allocate-spare-le, free-spare-le}
use compat_layer.Allocator.Invariant.{IsValid, MakesNewPools, opened}

-- The allocator with the layer's maps, and the pools of the sets that its clients hold.
pub record World : Type 0 where
  pub state : State
  pub tracking : Tracking
  pub live : List ℕ

pub data Event : Type 0 where
  allocates : (layout : ℕ) → Event
  frees : (pool set : ℕ) → Event

-- `none` where the code would throw.
unfoldable pub step : Driver → Event → World → Option World
step d (allocates layout) w =
    let (o, s) = allocate d layout w.state in
    some (record w { state = s; live = live_after o w.live })
step d (frees pool set) w =
    Option.map (λ r. record { state = r.0; tracking = r.1; live = erase_first pool w.live })
      (free pool set (w.state, w.tracking))

unfoldable pub run : Driver → List Event → World → Option World
run d [] w = some w
run d (e ∷ es) w = elim (step d e w) [ none ↦ none | some w' ↦ run d es w' ]

-- A client frees what it holds, and fewer than 2^32 - 1 sets are held at once.
abbrev pub IsAllowed : Event → World → Type 0
IsAllowed (allocates layout) w = length w.live + 1 < 2 ^ 32
IsAllowed (frees pool set) w = (length w.live < 2 ^ 32) × (0 < count pool w.live)

abbrev pub AllAllowed : Driver → List Event → World → Type 0
AllAllowed d [] w = Unit {0}
AllAllowed d (e ∷ es) w = IsAllowed e w × ((w' : World) → step d e w ≡ some w' → AllAllowed d es w')

pub record IsSound (d : Driver) (w : World) : Type 0 where
  pub valid : IsValid d w.live w.state
  pub lean : spare w.state ≤ max_empty_pools_to_reserve

-- The step succeeds, in a world that satisfies the predicate.
abbrev pub Ends : Option World → (World → Type 0) → Type 0
Ends o P = (w : World) × (o ≡ some w) × P w

step-IsSound :
    (d : Driver) (e : Event) (w : World)
    → MakesNewPools d
    → IsAllowed e w
    → IsSound d w
    → Ends (step d e w) (IsSound d)
unfolding step
step-IsSound d (allocates layout) w new a v = (
  _,
  refl,
  record {
    valid = allocate-IsValid d w.live layout w.state new a v.valid;
    lean = omega (arith, v.lean, allocate-spare-le d w.live layout w.state new v.valid);
  },
)
step-IsSound d (frees pool set) w new a v =
    let (s, e, u) = free-IsValid d w.live pool set w.state w.tracking a.0 a.1 v.valid in
    let t = untrack_descriptor_sets (set ∷ []) w.tracking in
    (
      record { state = s; tracking = t; live = erase_first pool w.live },
      rw e refl,
      record {
        valid = u;
        lean = free-spare-le d w.live pool set w.state w.tracking (s, t) a.0 a.1 v.valid v.lean e;
      },
    )

-- Any calls of `allocate` and `free` by clients that free what they hold: nothing throws, every
-- counter tells the sets in use, the pools held are the driver's open pools, and at most two
-- pools stand by empty.
pub run-IsSound :
    (d : Driver) (es : List Event) (w : World)
    → MakesNewPools d
    → AllAllowed d es w
    → IsSound d w
    → Ends (run d es w) (IsSound d)
unfolding run
run-IsSound d [] w new a v = (w, refl, v)
run-IsSound d (e ∷ es) w new a v =
    let (w', q, v') = step-IsSound d e w new a.0 v in
    rw (q, run) (run-IsSound d es w' new (a.1 w' q) v')

-- The constructor starts such a life, where no pool of the allocator is open yet.
pub init-IsSound :
    (d : Driver) (h : History) (t : Tracking)
    → MakesNewPools d
    → ((p : ℕ) → opened d p h ≡ 0)
    → IsSound d (record { state = init d h; tracking = t; live = [] })
unfolding init occupancy_of find
init-IsSound d h t new none_open = record {
  valid = create_new_pool-IsValid d [] _ new refl start;
  lean = omega (arith, create_new_pool-spare d [] _ new start);
}
  where
    start : IsValid d [] (record {
      allocator = record {
        active_pool = 0;
        exhausted_pools = [];
        occupancy = [];
        allocated_count = 0;
      };
      history = h;
    })
    start = record {
      counted = λ p. refl;
      held = λ p. refl;
      owned = λ p. sym (none_open p);
      null = refl;
      total = refl;
    }

opened-destroy_all :
    (d : Driver) (p : ℕ) (ps : List ℕ) (h : History)
    → opened d p (destroy_all ps h) ≡ (if ltb 0 (count p ps) then 0 else opened d p h)
unfolding destroy_all opened
opened-destroy_all d p [] h = refl
opened-destroy_all d p (q ∷ ps) h =
    ground (arith, opened-destroy_all d p ps (Call.destroy_descriptor_pool q ∷ h))

-- `cleanup` leaves no pool of the allocator open in the driver.
pub cleanup-opened :
    (d : Driver) (live : List ℕ) (s : State) (p : ℕ)
    → IsValid d live s
    → opened d p (cleanup s).history ≡ 0
unfolding cleanup opened
cleanup-opened d live s p v = elim (Bool-cases (s.active_pool == 0)) [
  | inl e ↦
      rw (e, cleanup)
        (ground (arith, opened-destroy_all d p s.exhausted_pools s.history, v.held p, v.owned p))
  | inr e ↦
      rw (e, cleanup)
        (ground (
          arith,
          opened-destroy_all d p s.exhausted_pools
              (Call.destroy_descriptor_pool s.active_pool ∷ s.history),
          v.held p,
          v.owned p,
        ))
]
