-- ===== src/Sparse/Budget/Threads.antt =====
-- src/sparse_binding.cpp: threads that reserve and release at the same time. The counter is atomic
-- but `ReserveBudget` is not: between its `fetch_add` and its `fetch_sub`, others come in.
use compat_layer.Prelude.{
  ℕ, ◌+◌, ◌-◌, ◌%◌, ◌^◌, ◌≤◌, ◌<◌, ◌≡◌, true, false, List, [], ◌∷◌, count, erase_first, ltb,
  if◌then◌else◌, Bool-cases, ltb→ge, inl, inr, arith,
}
use compat_layer.Sparse.Budget.{fetch_add, fetch_sub, exceeds, reserve_budget, release_budget}

-- The counter, what was granted and not yet released, and the sizes that were refused by threads
-- that have yet to take them back.
pub record Threads : Type 0 where
  pub committed : ℕ
  pub granted : List ℕ
  pub refused : List ℕ

-- The atomic accesses of the counter, in the order in which they happen.
pub data Access : Type 0 where
  adds : (size : ℕ) → Access
  takes_back : (size : ℕ) → Access
  releases : (size : ℕ) → Access

unfoldable pub access : ℕ → Access → Threads → Threads
access budget (adds size) t =
    let t' = record t { committed = fetch_add size t.committed } in
    if exceeds budget size t.committed
    then record t' { refused = size ∷ t.refused }
    else record t' { granted = size ∷ t.granted }
access budget (takes_back size) t = record t {
  committed = fetch_sub size t.committed;
  refused = erase_first size t.refused;
}
access budget (releases size) t = record t {
  committed = fetch_sub size t.committed;
  granted = erase_first size t.granted;
}

pub accesses : ℕ → List Access → Threads → Threads
accesses budget [] t = t
accesses budget (a ∷ rest) t = accesses budget rest (access budget a t)

abbrev pub sum : List ℕ → ℕ
sum [] = 0
sum (x ∷ xs) = x + sum xs

-- A thread takes back what it was refused, releases what it was granted, and what is asked for at
-- one time stays below 2^64 bytes.
abbrev pub IsPossible : Access → Threads → Type 0
IsPossible (adds size) t = sum t.granted + sum t.refused + size < 2 ^ 64
IsPossible (takes_back size) t = 0 < count size t.refused
IsPossible (releases size) t = 0 < count size t.granted

abbrev pub ArePossible : ℕ → List Access → Threads → Type 0
ArePossible budget [] t = Unit {0}
ArePossible budget (a ∷ rest) t = IsPossible a t × ArePossible budget rest (access budget a t)

pub record IsWithin (budget : ℕ) (t : Threads) : Type 0 where
  pub exact : t.committed ≡ sum t.granted + sum t.refused
  pub small : t.committed < 2 ^ 64
  pub bounded : sum t.granted ≤ budget

sum-erase_first : (x : ℕ) (xs : List ℕ) → 0 < count x xs → sum (erase_first x xs) + x ≡ sum xs
sum-erase_first x [] k = ground arith
sum-erase_first x (y ∷ xs) k = ground (arith, sum-erase_first x xs)

access-IsWithin :
    (budget : ℕ) (a : Access) (t : Threads)
    → IsPossible a t
    → IsWithin budget t
    → IsWithin budget (access budget a t)
unfolding access
access-IsWithin budget (adds size) t p w = elim (Bool-cases (exceeds budget size t.committed)) [
  | inl e ↦
      rw (e, access)
        (record {
          exact = omega (arith, p, w.exact, w.small);
          small = omega (arith);
          bounded = w.bounded;
        })
  | inr e ↦
      rw (e, access)
        (record {
          exact = omega (arith, p, w.exact, w.small);
          small = omega (arith);
          bounded = omega (arith, p, w.exact, w.small, ltb→ge _ _ e);
        })
]
access-IsWithin budget (takes_back size) t p w = record {
  exact = omega (arith, w.exact, w.small, sum-erase_first size t.refused p);
  small = omega (arith, w.exact, w.small, sum-erase_first size t.refused p);
  bounded = w.bounded;
}
access-IsWithin budget (releases size) t p w = record {
  exact = omega (arith, w.exact, w.small, sum-erase_first size t.granted p);
  small = omega (arith, w.exact, w.small, sum-erase_first size t.granted p);
  bounded = omega (arith, w.bounded, sum-erase_first size t.granted p);
}

-- However the accesses of the threads interleave, if each releases just what it was granted and the
-- sums stay below 2^64, the bytes granted and not released stay within the budget, and the counter
-- is their sum with what refused threads have yet to take back.
pub accesses-IsWithin :
    (budget : ℕ) (rest : List Access) (t : Threads)
    → ArePossible budget rest t
    → IsWithin budget t
    → IsWithin budget (accesses budget rest t)
unfolding accesses
accesses-IsWithin budget [] t p w = w
accesses-IsWithin budget (a ∷ rest) t p w =
    accesses-IsWithin budget rest (access budget a t) p.1 (access-IsWithin budget a t p.0 w)

-- One thread alone: a reservation succeeds exactly if the bytes stay within the budget, and one
-- that fails leaves the counter as it was.
pub reserve_budget_lem :
    (budget size committed : ℕ)
    → committed + size < 2 ^ 64
    → reserve_budget budget size committed
      ≡ (if ltb budget (committed + size) then (false, committed) else (true, committed + size))
unfolding reserve_budget
reserve_budget_lem budget size committed h = ground arith

-- What was reserved and is released again leaves the counter as it was.
pub release_budget-reserve :
    (budget size committed after : ℕ)
    → size < 2 ^ 64
    → committed < 2 ^ 64
    → reserve_budget budget size committed ≡ (true, after)
    → release_budget size after ≡ committed
unfolding reserve_budget release_budget
release_budget-reserve budget size committed after h k e = ground arith

-- The reservation that is refused, or released again, leaves the counter.
pub refused_committed :
    (budget size committed : ℕ)
    → size < 2 ^ 64
    → committed < 2 ^ 64
    → (reserve_budget budget size committed).0 ≡ false
    → (reserve_budget budget size committed).1 ≡ committed
unfolding reserve_budget
refused_committed budget size committed h k e = ground (arith, e)

pub released_committed :
    (budget size committed : ℕ)
    → size < 2 ^ 64
    → committed < 2 ^ 64
    → (reserve_budget budget size committed).0 ≡ true
    → release_budget size (reserve_budget budget size committed).1 ≡ committed
unfolding reserve_budget release_budget
released_committed budget size committed h k e = ground (arith, e)

pub reserve_budget-small :
    (budget size committed : ℕ) → (reserve_budget budget size committed).1 < 2 ^ 64
unfolding reserve_budget
reserve_budget-small budget size committed = ground arith

pub reserved_committed :
    (budget size released committed : ℕ)
    → released < 2 ^ 64
    → (reserve_budget budget size committed).0 ≡ true
    → release_budget released (reserve_budget budget size committed).1
      ≡ (committed + size + 2 ^ 64 - released) % 2 ^ 64
unfolding reserve_budget release_budget
reserved_committed budget size released committed k e = ground (arith, e)
