-- ===== src/Resources/Tests.antt =====
-- Buffers and images, and their theorems, at a driver that fails to allocate memory and at one
-- that never fails.
use compat_layer.Prelude.{◌≡◌, refl, [], ◌∷◌, find, List, none, some, false, arith}
use compat_layer.Driver.{Driver, History, Call, Object, VkResult}
use compat_layer.Driver.Objects.{opened}
use compat_layer.Driver.Sample.{numbering, numbering-MakesNewObjects, succeeds, sample_device}
use compat_layer.Sparse.Budget.{get_sparse_budget, reserve_budget}
use compat_layer.Resources.{State, bind_buffer_memory}
use compat_layer.Resources.Shadow.{
  bind_sparse_buffer, bind_sparse_image, allocate_shadow, clear_resource,
}
use compat_layer.Resources.Balance.{Same, HasSizes}
use compat_layer.Resources.Steps.{KeepsObjects}
use compat_layer.Resources.Tracked.{IsTracked}
use compat_layer.Resources.Buffers.{finish_buffer, create_buffer, destroy_buffer}
use compat_layer.Resources.Images.{ImageInfo, finish_image, add_image, create_image, destroy_image}
use compat_layer.Resources.Failures.{create_buffer-Same}
use compat_layer.Resources.Runs.{
  Request, creates_buffer, destroys_buffer, creates_image, serve_all, serve_all-IsTracked,
}
use compat_layer.Resources.RoundTrip.{destroy_image-create}
use compat_layer.Resources.Padding.{destroy_buffer-create}

abbrev full : History → Call → VkResult
full h (Call.create Object.memory args) = VkResult.error_out_of_device_memory
full h c = VkResult.success

abbrev submit : (History → History) → History → VkResult × History
submit f h = (VkResult.success, f h)

numbering-HasSizes : (answer : History → Call → VkResult) → HasSizes (numbering answer)
numbering-HasSizes answer h o p = omega arith

submit-KeepsObjects : (d : Driver) → KeepsObjects d submit
submit-KeepsObjects d f k p h = (k Object.buffer p h, k Object.image p h)

abbrev start : State
start = record { buffers = []; images = []; committed = 0; next_id = 0; history = [] }

start-IsTracked : (d : Driver) → IsTracked d start
unfolding opened find
start-IsTracked d = record { small = omega arith; buffers = λ p. refl; images = λ p. refl }

abbrev sparse_image : ImageInfo
sparse_image = record { flags = 3; format = 37; is_depth = false; rest = [] }

create_buffer-Same_example :
    Same
      (numbering full)
      start
      (create_buffer (numbering full) none submit (some sample_device) 1 60 2 start).2
unfolding create_buffer finish_buffer bind_sparse_buffer allocate_shadow clear_resource
    bind_buffer_memory get_sparse_budget reserve_budget
create_buffer-Same_example =
    create_buffer-Same (numbering full) none submit (numbering-MakesNewObjects full)
      (numbering-HasSizes full) (some sample_device) 1 60 2 start (omega arith) refl

abbrev requests : List Request
requests =
    creates_buffer (some sample_device) 1 60 2
    ∷ creates_image (some sample_device) sparse_image
    ∷ destroys_buffer (some sample_device) 1
    ∷ []

serve_all-IsTracked_example :
    IsTracked (numbering succeeds) (serve_all (numbering succeeds) none submit requests start)
serve_all-IsTracked_example =
    serve_all-IsTracked (numbering succeeds) none submit (numbering-MakesNewObjects succeeds)
      (numbering-HasSizes succeeds) (submit-KeepsObjects (numbering succeeds)) requests start
      (start-IsTracked (numbering succeeds))

destroy_image-create_example :
    let r = create_image (numbering succeeds) none (some sample_device) sparse_image start in
    Same (numbering succeeds) start (destroy_image (some sample_device) r.1 r.2)
unfolding create_image finish_image add_image bind_sparse_image allocate_shadow get_sparse_budget
    reserve_budget
destroy_image-create_example =
    destroy_image-create (numbering succeeds) (numbering-MakesNewObjects succeeds) none
      sample_device sparse_image start (numbering-HasSizes succeeds)
      (start-IsTracked (numbering succeeds)) refl

-- The driver requires 64 bytes for a buffer of 60: 4 bytes stay committed.
destroy_buffer-create_example :
    let r = create_buffer (numbering succeeds) none submit (some sample_device) 1 60 2 start in
    (destroy_buffer (some sample_device) r.1 r.2).committed ≡ 4
unfolding create_buffer finish_buffer bind_sparse_buffer allocate_shadow clear_resource
    bind_buffer_memory get_sparse_budget reserve_budget
destroy_buffer-create_example =
    destroy_buffer-create (numbering succeeds) none submit (numbering-MakesNewObjects succeeds)
      sample_device 1 60 2 start (omega arith) (omega arith) refl refl
