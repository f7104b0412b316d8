-- ===== src/Descriptors/Sets/Refines.antt =====
-- src/descriptors.cpp: the two maps are one partial map, from a set to its layout and its pool.
use compat_layer.Prelude.{
  ℕ, suc, ◌+◌, ◌≤◌, ◌⊎◌, ◌≡◌, refl, sym, ap, ◌∙◌, true, false, Bool, List, [], ◌∷◌, ◌++◌, Option,
  none, some, Dict, find, insert, erase, find-insert, find-erase, count, count-append, ◌==◌, ==_iff,
  ltb, if◌then◌else◌, arith, Bool-cases, Option-cases, inl, inr,
}
use compat_layer.Driver.{Driver, Call, is_success}
use compat_layer.Descriptors.Tracking.{
  Tracking, sets_of, track_layouts, track_descriptor_sets, handles_of, remove_all,
  remove_from_pools, untrack_descriptor_sets, untrack_descriptor_pool,
}
use compat_layer.Descriptors.Tracking.Lookup.{find-erase_all}
use compat_layer.Descriptors.Tracking.Consistent.{tracked, count-remove_all}
use compat_layer.Descriptors.Sets.{
  State, with_layouts, allocate_descriptor_sets, free_descriptor_sets, reset_descriptor_pool,
  destroy_descriptor_pool,
}
use compat_layer.Descriptors.Sets.Runs.{
  Entry, allocates, frees, resets, destroys, enter, run, IsFresh, AllFresh,
}

-- The layout and the pool of a set that is allocated
pub record Allocation : Type 0 where
  pub layout : ℕ
  pub pool : ℕ

abbrev pub Spec : Type 0
Spec = ℕ → Option Allocation

abbrev pub layout_of : Option Allocation → Option ℕ
layout_of none = none
layout_of (some a) = some a.layout

abbrev pub owned : (pool : ℕ) → Option Allocation → ℕ
owned p none = 0
owned p (some a) = if a.pool == p then 1 else 0

abbrev pub assign : (pool : ℕ) → List (ℕ × ℕ) → Spec → Spec
assign pool [] m s = m s
assign pool ((x, layout) ∷ rest) m s =
    assign pool rest (λ y. if x == y then some (record { layout = layout; pool = pool }) else m y) s

abbrev pub drop_sets : List ℕ → Spec → Spec
drop_sets ss m s = if ltb 0 (count s ss) then none else m s

abbrev pub forget_pool : ℕ → Spec → Spec
forget_pool p m s = if owned p (m s) == 1 then none else m s

-- What an entry point does to the one map, given the driver's answer
abbrev pub specify : Driver → Entry → State → Spec → Spec
specify d (allocates none pool layouts) s m = m
specify d (allocates (some dev) pool layouts) s m =
    let c = Call.allocate_descriptor_sets pool layouts in
    if is_success (d.result s.history c)
    then assign pool (with_layouts (d.handles s.history c) layouts) m
    else m
specify d (frees none pool sets) s m = m
specify d (frees (some dev) pool sets) s m =
    if is_success (d.result s.history (Call.free_descriptor_sets pool sets))
    then drop_sets sets m
    else m
specify d (resets none pool) s m = m
specify d (resets (some dev) pool) s m =
    if is_success (d.result s.history (Call.reset_descriptor_pool pool))
    then forget_pool pool m
    else m
specify d (destroys none pool) s m = m
specify d (destroys (some dev) pool) s m = forget_pool pool m

abbrev pub specify_all : Driver → List Entry → State → Spec → Spec
specify_all d [] s m = m
specify_all d (e ∷ es) s m = specify_all d es (enter d e s) (specify d e s m)

-- The two maps say what the one map says.
pub record Refines (t : Tracking) (m : Spec) : Type 0 where
  pub layouts : (s : ℕ) → find s t.sets ≡ layout_of (m s)
  pub owners : (s p : ℕ) → count s (sets_of p t.pools) ≡ owned p (m s)

find-track_layouts :
    (pool s : ℕ) (pairs : List (ℕ × ℕ)) (sets : Dict ℕ) (m : Spec)
    → ((x : ℕ) → find x sets ≡ layout_of (m x))
    → find s (track_layouts pairs sets) ≡ layout_of (assign pool pairs m s)
unfolding track_layouts
find-track_layouts pool s [] sets m e = e s
find-track_layouts pool s ((x, layout) ∷ rest) sets m e =
    find-track_layouts pool s rest (insert x layout sets) _ (λ y.
      find-insert x y layout sets
      ∙ elim (Bool-cases (x == y)) [ inl k ↦ rw k refl | inr k ↦ rw k (e y) ])

owned_lem :
    (pool p layout n : ℕ) (b : Bool) (o : Option Allocation)
    → (if ltb 0 n
        then (if pool == p then 1 else 0)
        else owned p (if b then some (record { layout = layout; pool = pool }) else o))
      ≡ (if ltb 0 (if b then suc n else n) then (if pool == p then 1 else 0) else owned p o)
owned_lem pool p layout n true o = ground arith
owned_lem pool p layout n false o = refl

owned-assign :
    (pool p s : ℕ) (pairs : List (ℕ × ℕ)) (m : Spec)
    → owned p (assign pool pairs m s)
      ≡ (if ltb 0 (count s (handles_of pairs)) then (if pool == p then 1 else 0) else owned p (m s))
owned-assign pool p s [] m = refl
owned-assign pool p s ((x, layout) ∷ rest) m =
    owned-assign pool p s rest _
    ∙ owned_lem pool p layout (count s (handles_of rest)) (x == s) (m s)

sets_of-insert :
    (p k : ℕ) (v : List ℕ) (m : Dict (List ℕ))
    → sets_of p (insert k v m) ≡ (if k == p then v else sets_of p m)
unfolding sets_of
sets_of-insert p k v m =
    ap (λ o. elim o [ none ↦ [] | some w ↦ w ]) (find-insert k p v m)
    ∙ elim (Bool-cases (k == p)) [ inl e ↦ rw e refl | inr e ↦ rw e refl ]

sets_of-erase :
    (p k : ℕ) (m : Dict (List ℕ)) → sets_of p (erase k m) ≡ (if k == p then [] else sets_of p m)
unfolding sets_of
sets_of-erase p k m =
    ap (λ o. elim o [ none ↦ [] | some w ↦ w ]) (find-erase k p m)
    ∙ elim (Bool-cases (k == p)) [ inl e ↦ rw e refl | inr e ↦ rw e refl ]

remove_all-nil : (ss : List ℕ) → [] ≡ remove_all ss []
unfolding remove_all
remove_all-nil [] = refl
remove_all-nil (x ∷ ss) = remove_all-nil ss

sets_of-remove_from_pools :
    (p : ℕ) (ss : List ℕ) (m : Dict (List ℕ))
    → sets_of p (remove_from_pools ss m) ≡ remove_all ss (sets_of p m)
unfolding sets_of find remove_from_pools
sets_of-remove_from_pools p ss [] = remove_all-nil ss
sets_of-remove_from_pools p ss (e ∷ m) = elim (Bool-cases (e.0 == p)) [
  | inl k ↦ rw (k, sets_of) refl
  | inr k ↦ rw (k, sets_of) (sets_of-remove_from_pools p ss m)
]

owned-le :
    (p : ℕ) (o : Option Allocation) → owned p o ≤ elim (layout_of o) [ none ↦ 0 | some _ ↦ 1 ]
owned-le p none = omega arith
owned-le p (some a) = ground arith

track_lem :
    (pool p s : ℕ) (pairs : List (ℕ × ℕ)) (t : Tracking) (m : Spec)
    → count s (handles_of pairs) + tracked s t.sets ≤ 1
    → Refines t m
    → count s (if pool == p then sets_of pool t.pools ++ handles_of pairs else sets_of p t.pools)
      ≡ (if ltb 0 (count s (handles_of pairs)) then (if pool == p then 1 else 0) else owned p (m s))
track_lem pool p s pairs t m fresh r =
    let n = count s (handles_of pairs) in
    let size = ap (λ o. elim o as (λ _. ℕ) [ none ↦ 0 | some _ ↦ 1 ]) (r.layouts s) in
    elim (Bool-cases (pool == p)) [
      | inl k ↦
          let same : pool ≡ p = (==_iff pool p).0 k in
          rw k (
            ground (
              arith,
              count-append (sets_of pool t.pools) (handles_of pairs) s,
              r.owners s pool,
              ap (λ x. owned x (m s)) same,
              owned-le pool (m s),
              size,
              fresh,
            ))
      | inr k ↦ rw k (ground (arith, r.owners s p, owned-le p (m s), size, fresh))
    ]

track-Refines :
    (pool : ℕ) (pairs : List (ℕ × ℕ)) (t : Tracking) (m : Spec)
    → ((x : ℕ) → count x (handles_of pairs) + tracked x t.sets ≤ 1)
    → Refines t m
    → Refines (track_descriptor_sets pool pairs t) (assign pool pairs m)
unfolding track_descriptor_sets
track-Refines pool pairs t m fresh r = record {
  layouts = λ s. find-track_layouts pool s pairs t.sets m r.layouts;
  owners = λ s p.
      ap (count s) (sets_of-insert p pool (sets_of pool t.pools ++ handles_of pairs) t.pools)
      ∙ track_lem pool p s pairs t m (fresh s) r
      ∙ sym (owned-assign pool p s pairs m);
}

untrack-Refines :
    (ss : List ℕ) (t : Tracking) (m : Spec)
    → Refines t m
    → Refines (untrack_descriptor_sets ss t) (drop_sets ss m)
unfolding untrack_descriptor_sets
untrack-Refines ss t m r = record {
  layouts = λ s.
      find-erase_all s ss t.sets
      ∙ elim (Bool-cases (ltb 0 (count s ss))) [ inl e ↦ rw e refl | inr e ↦ rw e (r.layouts s) ];
  owners = λ s p.
      ap (count s) (sets_of-remove_from_pools p ss t.pools)
      ∙ count-remove_all s ss (sets_of p t.pools)
      ∙ elim (Bool-cases (ltb 0 (count s ss))) [ inl e ↦ rw e refl | inr e ↦ rw e (r.owners s p) ];
}

owned-cases : (p : ℕ) (o : Option Allocation) → (owned p o ≡ 0) ⊎ (owned p o ≡ 1)
owned-cases p none = inl refl
owned-cases p (some a) = elim (Bool-cases (a.pool == p)) [
  | inl e ↦ inr (rw e refl)
  | inr e ↦ inl (rw e refl)
]

owned-other :
    (pool p : ℕ) (o : Option Allocation) → owned pool o ≡ 1 → (pool == p) ≡ false → owned p o ≡ 0
owned-other pool p none e k = refl
owned-other pool p (some a) e k = ground (arith, e, k)

erased_lem :
    (pool p s : ℕ) (t : Tracking) (m : Spec)
    → Refines t m
    → count s (if pool == p then [] else sets_of p t.pools) ≡ owned p (forget_pool pool m s)
erased_lem pool p s t m r = elim (Bool-cases (pool == p)) [
  | inl k ↦
      let same : owned pool (m s) ≡ owned p (m s) = ap (λ x. owned x (m s)) ((==_iff pool p).0 k) in
      elim (owned-cases pool (m s)) [ inl z ↦ rw (k, z) (sym z ∙ same) | inr z ↦ rw (k, z) refl ]
  | inr k ↦ elim (owned-cases pool (m s)) [
    | inl z ↦ rw (k, z) (r.owners s p)
    | inr z ↦ rw (k, z) (r.owners s p ∙ owned-other pool p (m s) z k)
  ]
]

untrack_pool-Refines :
    (pool : ℕ) (t : Tracking) (m : Spec)
    → Refines t m
    → Refines (untrack_descriptor_pool pool t) (forget_pool pool m)
unfolding untrack_descriptor_pool sets_of
untrack_pool-Refines pool t m r = elim (Option-cases (find pool t.pools)) [
  | inl e ↦
      let empty : (s : ℕ) → owned pool (m s) ≡ 0 =
        λ s. sym (r.owners s pool) ∙ rw (e, sets_of) refl in
      rw (e, untrack_descriptor_pool)
        (record {
          layouts = λ s. rw (empty s) (r.layouts s);
          owners = λ s p. rw (empty s) (r.owners s p);
        })
  | inr (v, e) ↦
      let same : sets_of pool t.pools ≡ v = rw (e, sets_of) refl in
      let sized : (s : ℕ) → count s v ≡ owned pool (m s) =
        λ s. sym (ap (count s) same) ∙ r.owners s pool in
      rw (e, untrack_descriptor_pool)
        (record {
          layouts = λ s. find-erase_all s v t.sets ∙ elim (owned-cases pool (m s)) [
            | inl z ↦ rw (sized s, z) (r.layouts s)
            | inr z ↦ rw (sized s, z) refl
          ];
          owners = λ s p. ap (count s) (sets_of-erase p pool t.pools) ∙ erased_lem pool p s t m r;
        })
]

module _ (d : Driver) where
  enter-Refines :
      (e : Entry) (s : State) (m : Spec)
      → IsFresh d e s
      → Refines s.tracking m
      → Refines (enter d e s).tracking (specify d e s m)
  unfolding enter allocate_descriptor_sets free_descriptor_sets reset_descriptor_pool
      destroy_descriptor_pool
  enter-Refines (allocates none pool layouts) s m f r = r
  enter-Refines (allocates (some dev) pool layouts) s m f r =
      let c = Call.allocate_descriptor_sets pool layouts in
      elim (Bool-cases (is_success (d.result s.history c))) [
        | inl e ↦ rw (e, enter) (track-Refines pool _ s.tracking m (f e) r)
        | inr e ↦ rw (e, enter) r
      ]
  enter-Refines (frees none pool sets) s m f r = r
  enter-Refines (frees (some dev) pool sets) s m f r =
      elim (Bool-cases (is_success (d.result s.history (Call.free_descriptor_sets pool sets)))) [
        | inl e ↦ rw (e, enter) (untrack-Refines sets s.tracking m r)
        | inr e ↦ rw (e, enter) r
      ]
  enter-Refines (resets none pool) s m f r = r
  enter-Refines (resets (some dev) pool) s m f r =
      elim (Bool-cases (is_success (d.result s.history (Call.reset_descriptor_pool pool)))) [
        | inl e ↦ rw (e, enter) (untrack_pool-Refines pool s.tracking m r)
        | inr e ↦ rw (e, enter) r
      ]
  enter-Refines (destroys none pool) s m f r = r
  enter-Refines (destroys (some dev) pool) s m f r = untrack_pool-Refines pool s.tracking m r

  -- However the application calls the four entry points, and as long as the driver gives out no
  -- set that is still allocated, the two maps do what one partial map from a set to its layout and
  -- its pool does: an allocation adds its sets, freeing takes the sets out, and resetting or
  -- destroying a pool takes out the sets of that pool.
  pub run-Refines :
      (es : List Entry) (s : State) (m : Spec)
      → AllFresh d es s
      → Refines s.tracking m
      → Refines (run d es s).tracking (specify_all d es s m)
  unfolding run
  run-Refines [] s m f r = r
  run-Refines (e ∷ es) s m f r =
      run-Refines es (enter d e s) (specify d e s m) f.1 (enter-Refines e s m f.0 r)
