-- ===== src/Commands/Tests.antt =====
-- src/command_buffer.cpp and src/push_descriptors.cpp: a command buffer that records a push
-- descriptor and is begun again, and the theorems at it.
use compat_layer.Prelude.{◌≡◌, refl, [], ◌∷◌, some, none, find, insert, arith}
use compat_layer.Driver.{VkResult}
use compat_layer.Driver.Sample.{sample_device}
use compat_layer.Descriptors.Tracking.{sets_of}
use compat_layer.Allocator.{
  init, allocate, finish, retire, promote, refill, try_active, retry, after_attempt,
  create_new_pool, allocate_active, occupancy_of, find_vacant, is_exhausted,
}
use compat_layer.Commands.{
  Layer, begin_command_buffer, reset_command_buffer, reset_command_pool, destroy_command_pool,
}
use compat_layer.Commands.Held.{IsHeld}
use compat_layer.Commands.Sample.{driver, driver-MakesNewPools, idle, start, start-IsHeld}
use compat_layer.Commands.Push.{
  with_live, allocate_descriptor_set, record_set, Recorded, allocate_descriptor_set-IsHeld,
}
use compat_layer.Commands.Recycled.{Recycled, recycle_lem, command_pool_lem}

start-found : find 9 start.commands ≡ some idle
unfolding find
start-found = refl

allocate_descriptor_set-IsHeld_example :
    let r = allocate_descriptor_set driver 9 idle 7 start in
    Recorded 9 idle 7 start r × IsHeld driver r.2
allocate_descriptor_set-IsHeld_example =
    allocate_descriptor_set-IsHeld driver 9 idle 7 start driver-MakesNewPools start-found
      (omega arith) start-IsHeld

abbrev pushed : Layer
pushed = (allocate_descriptor_set driver 9 idle 7 start).2

pushed-found : find 9 pushed.commands ≡ some (with_live 1 2 idle)
unfolding allocate_descriptor_set record_set find insert allocate finish retire promote refill
    try_active retry after_attempt create_new_pool allocate_active occupancy_of find_vacant
    is_exhausted init
pushed-found = refl

recycle_lem_example :
    ((r : VkResult × Layer) × (begin_command_buffer driver 9 pushed ≡ some r)
      × Recycled driver (9 ∷ []) pushed r.1)
    × ((r : VkResult × Layer) × (reset_command_buffer driver 9 pushed ≡ some r)
        × Recycled driver (9 ∷ []) pushed r.1)
recycle_lem_example =
    recycle_lem driver 9 (with_live 1 2 idle) pushed pushed-found
      allocate_descriptor_set-IsHeld_example.1

command_pool_lem_example :
    ((r : VkResult × Layer) × (reset_command_pool driver (some sample_device) 3 pushed ≡ some r)
      × Recycled driver (sets_of 3 pushed.pools) pushed r.1)
    × ((s' : Layer) × (destroy_command_pool (some sample_device) 3 pushed ≡ some s')
        × Recycled driver (sets_of 3 pushed.pools) pushed s'
        × (find 3 s'.pools ≡ none))
command_pool_lem_example =
    command_pool_lem driver sample_device 3 pushed allocate_descriptor_set-IsHeld_example.1
