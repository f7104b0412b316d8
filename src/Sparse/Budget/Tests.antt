-- ===== src/Sparse/Budget/Tests.antt =====
-- The budget, and its theorems, at a budget of 100 bytes.
use compat_layer.Prelude.{◌^◌, ◌≡◌, refl, List, [], ◌∷◌, none, arith}
use compat_layer.Sparse.Budget.{get_sparse_budget}
use compat_layer.Sparse.Budget.Threads.{Threads, Access, adds, takes_back, releases, IsWithin}

get_sparse_budget_default : get_sparse_budget none ≡ 2 ^ 33
unfolding get_sparse_budget
get_sparse_budget_default = refl

abbrev idle : Threads
idle = record { committed = 0; granted = []; refused = [] }

abbrev idle-IsWithin : IsWithin 100 idle
idle-IsWithin = record { exact = refl; small = omega arith; bounded = omega arith }

-- The second thread is refused; the first releases before the second takes its bytes back.
abbrev race : List Access
race = adds 70 ∷ adds 50 ∷ releases 70 ∷ takes_back 50 ∷ []
