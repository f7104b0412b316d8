-- ===== src/Allocator/Tests.antt =====
-- Runs of the allocator, and its theorems at a driver whose pools hold two sets.
use mathlib.Core.Option.{some-injective}
use compat_layer.Prelude.{
  ℕ, ◌+◌, ◌<◌, ◌≡◌, refl, sym, ◌∙◌, subst, List, [], ◌∷◌, none, some, ◌==◌, leb, erase_first,
  length, find, insert, if◌then◌else◌, erase, arith,
}
use compat_layer.Driver.{Driver, History, Call, VkResult}
use compat_layer.Descriptors.Tracking.{Tracking, empty}
use compat_layer.Allocator.{
  State, allocate, free, init, cleanup, occupancy_of, touch, find_vacant, is_exhausted,
  create_new_pool, allocate_active, finish, retire, promote, refill, try_active, retry,
  after_attempt, count_vacant, release, drop_pool, trim, give_back, trim_unless_active,
}
use compat_layer.Allocator.Invariant.{MakesNewPools, opened}
use compat_layer.Allocator.Runs.{
  World, Event, allocates, frees, step, run, IsAllowed, AllAllowed, IsSound, Ends, run-IsSound,
  init-IsSound, cleanup-opened,
}
use compat_layer.Allocator.Safe.{Extends, allocate-Extends, free-Extends}

uses_of : ℕ → History → ℕ
uses_of p [] = 0
uses_of p (Call.allocate_descriptor_sets q ls ∷ h) = (if q == p then 1 else 0) + uses_of p h
uses_of p (_ ∷ h) = uses_of p h

small_result : History → Call → VkResult
small_result h (Call.allocate_descriptor_sets p ls) =
    if leb 2 (uses_of p h) then VkResult.error_out_of_pool_memory else VkResult.success
small_result h _ = VkResult.success

abbrev small_driver : Driver
small_driver = record {
  result = small_result;
  handle = λ h c. length h + 1;
  handles = λ h c. [];
  requirements = λ h o p. record { size = 0; alignment = 1; type_bits = 0 };
}

opened_small : (p : ℕ) (h : History) → length h < p → opened small_driver p h ≡ 0
unfolding opened
opened_small p [] k = refl
opened_small p (Call.create_descriptor_pool ∷ h) k = ground (arith, opened_small p h)
opened_small p (Call.destroy_descriptor_pool q ∷ h) k = ground (arith, opened_small p h)
opened_small p (_ ∷ h) k = opened_small p h (omega arith)

small_driver-MakesNewPools : MakesNewPools small_driver
small_driver-MakesNewPools h e = (omega arith, opened_small (length h + 1) h (omega arith))

abbrev start : World
start = record { state = init small_driver []; tracking = empty; live = [] }

start-IsSound : IsSound small_driver start
unfolding opened
start-IsSound = init-IsSound small_driver [] empty small_driver-MakesNewPools (λ p. refl)

abbrev then_do : Event → World → World
then_do e w = elim (step small_driver e w) [ none ↦ w | some w' ↦ w' ]

next :
    (e : Event) (es : List Event) (w : World)
    → IsAllowed e w
    → step small_driver e w ≡ some (then_do e w)
    → AllAllowed small_driver es (then_do e w)
    → AllAllowed small_driver (e ∷ es) w
next e es w b q a = (
  b,
  λ w' q'. subst (AllAllowed small_driver es) (some-injective (then_do e w) w' (sym q ∙ q')) a,
)

ends_at : {w : World} {P : World → Type 0} → Ends (some w) P → P w
ends_at {w} {P} (w', e, p) = subst P (some-injective w' w (sym e)) p

-- Three allocations fill the first pool and open another; then the first pool's sets are freed.
abbrev one_held : World
one_held = then_do (allocates 7) start

abbrev two_held : World
two_held = then_do (allocates 7) one_held

abbrev three_held : World
three_held = then_do (allocates 7) two_held

abbrev one_back : World
one_back = then_do (frees 1 2) three_held

abbrev emptying : List Event
emptying = frees 1 2 ∷ frees 1 3 ∷ []

abbrev events : List Event
events = allocates 7 ∷ allocates 7 ∷ allocates 7 ∷ emptying

emptying_allowed : AllAllowed small_driver emptying three_held
unfolding small_result uses_of occupancy_of touch find_vacant is_exhausted create_new_pool
    allocate_active finish retire promote refill try_active retry after_attempt allocate
    count_vacant release drop_pool trim give_back trim_unless_active free init find insert erase
    step run
emptying_allowed =
    next (frees 1 2) (frees 1 3 ∷ []) three_held (omega arith, omega arith) refl
      (next (frees 1 3) [] one_back (omega arith, omega arith) refl tt)

filling_allowed :
    (es : List Event)
    → AllAllowed small_driver es three_held
    → AllAllowed small_driver (allocates 7 ∷ allocates 7 ∷ allocates 7 ∷ es) start
unfolding small_result uses_of occupancy_of touch find_vacant is_exhausted create_new_pool
    allocate_active finish retire promote refill try_active retry after_attempt allocate
    count_vacant release drop_pool trim give_back trim_unless_active free init find insert erase
    step run
filling_allowed es a =
    next (allocates 7) (allocates 7 ∷ allocates 7 ∷ es) start (omega arith) refl (
      next (allocates 7) (allocates 7 ∷ es) one_held (omega arith) refl
        (next (allocates 7) es two_held (omega arith) refl a))

run-IsSound_example : Ends (run small_driver events start) (IsSound small_driver)
run-IsSound_example =
    run-IsSound small_driver events start small_driver-MakesNewPools
      (filling_allowed emptying emptying_allowed) start-IsSound

abbrev filling : List Event
filling = allocates 7 ∷ allocates 7 ∷ allocates 7 ∷ []

run-filling : run small_driver filling start ≡ some three_held
unfolding small_result uses_of occupancy_of touch find_vacant is_exhausted create_new_pool
    allocate_active finish retire promote refill try_active retry after_attempt allocate
    count_vacant release drop_pool trim give_back trim_unless_active free init find insert erase
    step run
run-filling = refl

three_held-IsSound : IsSound small_driver three_held
three_held-IsSound = ends_at (
    subst (λ o. Ends o (IsSound small_driver)) run-filling
      (run-IsSound small_driver filling start small_driver-MakesNewPools (filling_allowed [] tt)
        start-IsSound))

allocate-Extends_example :
    Extends three_held.live three_held.state.history
      (allocate small_driver 8 three_held.state).1.history
allocate-Extends_example =
    allocate-Extends small_driver three_held.live 8 three_held.state three_held-IsSound.valid

cleanup-opened_example : opened small_driver 1 (cleanup three_held.state).history ≡ 0
cleanup-opened_example =
    cleanup-opened small_driver three_held.live three_held.state 1 three_held-IsSound.valid

abbrev after_free : State × Tracking
after_free = elim (free 1 2 (three_held.state, empty)) [
  | none ↦ (three_held.state, empty)
  | some r ↦ r
]

free-Extends_example :
    Extends (erase_first 1 three_held.live) three_held.state.history after_free.0.history
unfolding small_result uses_of occupancy_of touch find_vacant is_exhausted create_new_pool
    allocate_active finish retire promote refill try_active retry after_attempt allocate
    count_vacant release drop_pool trim give_back trim_unless_active free init find insert erase
    step run
free-Extends_example =
    free-Extends small_driver three_held.live 1 2 three_held.state empty after_free (omega arith)
      (omega arith) three_held-IsSound.valid refl
