-- ===== src/Resources/Staging/Tests.antt =====
-- src/buffer.cpp: staging buffers, and their theorem, at a driver that binds nothing and at one
-- that never fails.
use compat_layer.Prelude.{◌≡◌, refl, [], find, insert, none, some, true, arith}
use compat_layer.Driver.{Driver, History, Call, VkResult}
use compat_layer.Driver.Objects.{opened}
use compat_layer.Driver.Sample.{numbering, numbering-MakesNewObjects, succeeds, sample_device}
use compat_layer.Resources.{State, set_memory, bind_buffer_memory}
use compat_layer.Resources.Tracked.{IsTracked}
use compat_layer.Resources.Buffers.{create_buffer, finish_buffer, add_buffer}
use compat_layer.Resources.Staging.{
  update, give_id, obtain_memory, bind_staging, bind_obtained, give_memory, stage,
  create_staging_buffer,
}
use compat_layer.Resources.Staging.Life.{IsBalanced, create_staging_buffer-IsBalanced}

abbrev unbound : History → Call → VkResult
unbound h (Call.bind_buffer_memory buffer memory offset) = VkResult.error_out_of_device_memory
unbound h c = VkResult.success

abbrev submit : (History → History) → History → VkResult × History
submit f h = (VkResult.success, f h)

abbrev start : State
start = record { buffers = []; images = []; committed = 0; next_id = 0; history = [] }

start-IsTracked : (d : Driver) → IsTracked d start
unfolding opened find
start-IsTracked d = record { small = omega arith; buffers = λ p. refl; images = λ p. refl }

-- The buffer is 1 and its memory 2.
create_staging_buffer-succeeds :
    let r = create_staging_buffer (numbering succeeds) sample_device none submit 20 1 0 start in
    (r.0 ≡ some 1)
    × (find 1 r.1.buffers
        ≡ some
            record { memory = 2; size = 32; offset = 0; id = 0; owns_memory = true; sparse = none })
unfolding create_staging_buffer stage give_memory bind_obtained obtain_memory bind_staging give_id
    update set_memory bind_buffer_memory create_buffer finish_buffer add_buffer find insert
create_staging_buffer-succeeds = (refl, refl)

create_staging_buffer-unbound :
    let r = create_staging_buffer (numbering unbound) sample_device none submit 20 1 0 start in
    r.0 ≡ none
unfolding create_staging_buffer stage give_memory bind_obtained obtain_memory bind_staging give_id
    update set_memory bind_buffer_memory create_buffer finish_buffer add_buffer find insert
create_staging_buffer-unbound = refl

create_staging_buffer-IsBalanced_example :
    let r = create_staging_buffer (numbering unbound) sample_device none submit 20 1 0 start in
    IsBalanced (numbering unbound) sample_device start r.0 r.1
create_staging_buffer-IsBalanced_example =
    create_staging_buffer-IsBalanced (numbering unbound) none submit
      (numbering-MakesNewObjects unbound) sample_device 20 1 0 start
      (start-IsTracked (numbering unbound))
