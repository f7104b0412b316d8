-- ===== src/Sparse/Budget.antt =====
-- src/sparse_binding.cpp: `GetSparseBudget`, `ReserveBudget` and `ReleaseBudget`, the bound on the
-- bytes that stand behind all sparse resources. `VkDeviceSize` is a `uint64_t`.
pub mod Threads
mod Tests
use compat_layer.Prelude.{
  ℕ, ◌+◌, ◌-◌, ◌*◌, ◌%◌, ◌^◌, Bool, true, false, Option, none, some, ltb, if◌then◌else◌,
}

-- The environment's COMPAT_SPARSE_COMMIT_BUDGET as `strtoull` reads it, if it is set.
unfoldable pub get_sparse_budget : Option ℕ → ℕ
get_sparse_budget none = 8 * 1024 * 1024 * 1024
get_sparse_budget (some n) = n

-- `fetch_add` and `fetch_sub` of an atomic counter: what it holds then.
abbrev pub fetch_add : ℕ → ℕ → ℕ
fetch_add size counter = (counter + size) % 2 ^ 64

abbrev pub fetch_sub : ℕ → ℕ → ℕ
fetch_sub size counter = (counter + 2 ^ 64 - size) % 2 ^ 64

abbrev pub exceeds : (budget size before : ℕ) → Bool
exceeds budget size before = ltb budget ((before + size) % 2 ^ 64)

unfoldable pub reserve_budget : (budget size committed : ℕ) → Bool × ℕ
reserve_budget budget size committed =
    let after = fetch_add size committed in
    if exceeds budget size committed then (false, fetch_sub size after) else (true, after)

unfoldable pub release_budget : (size committed : ℕ) → ℕ
release_budget size committed = fetch_sub size committed
