-- ===== src/Queues/Chain.antt =====
-- src/sparse_binding.cpp: the submissions of `EmulatevkQueueBindSparse` are a chain, each waiting
-- for the one before it, and the last one signals the fence.
use compat_layer.Prelude.{
  ℕ, ◌==◌, ◌≡◌, Bool, true, false, List, [], ◌∷◌, ◌++◌, Option, none, some, if◌then◌else◌,
}
use compat_layer.Device.{Device}
use compat_layer.Driver.{Driver, History, VkResult, is_success}
use compat_layer.Commands.{Layer}
use compat_layer.Queues.Sparse.{BindInfo, Pass, bind_each, record_binds, create_semaphore}

-- What the submission before signals; 0 is none.
abbrev pub signalled : (prev : ℕ) → List ℕ
signalled prev = if prev == 0 then [] else prev ∷ []

-- A submission that returned: what it waits for and signals, and whether it takes the layer's
-- semaphores with it, and which they are
pub record Sent : Type 0 where
  pub pass : Pass
  pub final : Bool
  pub staged : List ℕ

-- The submission for the last binding, and for one before another
pub record IsLast (fence prev : ℕ) (staged : List ℕ) (info : BindInfo) (x : Sent) : Type 0 where
  awaits : x.pass.waits ≡ info.waits ++ signalled prev
  gives : x.pass.signals ≡ info.signals
  fenced : x.pass.fence ≡ fence
  closing : x.final ≡ true
  holds : x.staged ≡ staged

pub record IsLink (prev next : ℕ) (staged : List ℕ) (info : BindInfo) (x : Sent) : Type 0 where
  made : (next == 0) ≡ false
  awaits : x.pass.waits ≡ info.waits ++ signalled prev
  gives : x.pass.signals ≡ info.signals ++ next ∷ []
  fenced : x.pass.fence ≡ 0
  closing : x.final ≡ false
  holds : x.staged ≡ staged ++ next ∷ []

-- The submissions for all the bindings, when the one before them signals `prev`
abbrev pub IsChain : (fence prev : ℕ) → List ℕ → List BindInfo → List Sent → Type 0
IsChain fence prev staged [] [] = Unit {0}
IsChain fence prev staged (info ∷ []) (x ∷ []) = IsLast fence prev staged info x
IsChain fence prev staged (info ∷ next_info ∷ infos) (x ∷ xs) =
    (next : ℕ) × IsLink prev next staged info x
    × IsChain fence next (staged ++ next ∷ []) (next_info ∷ infos) xs
IsChain fence prev staged _ _ = ⊥

-- Those for some of the bindings, from the first one on
abbrev pub IsPart : (fence prev : ℕ) → List ℕ → List BindInfo → List Sent → Type 0
IsPart fence prev staged infos [] = Unit {0}
IsPart fence prev staged (info ∷ []) (x ∷ []) = IsLast fence prev staged info x
IsPart fence prev staged (info ∷ next_info ∷ infos) (x ∷ xs) =
    (next : ℕ) × IsLink prev next staged info x
    × IsPart fence next (staged ++ next ∷ []) (next_info ∷ infos) xs
IsPart fence prev staged _ _ = ⊥

abbrev pub erased : {S : Type 0} → Option (VkResult × (S × List Sent)) → Option (VkResult × S)
erased none = none
erased (some (r, (s, log))) = some (r, s)

module _ {S : Type 0} (create : S → VkResult × ℕ × S)
    (shot : BindInfo → (final : Bool) → (staged : List ℕ) → Pass → S → Option (VkResult × S)) where
  -- The same, with the submissions written down
  abbrev pub noting_create : S × List Sent → VkResult × ℕ × (S × List Sent)
  noting_create (s, log) = let (result, next, s') = create s in (result, next, (s', log))

  abbrev pub noting :
      BindInfo
      → (final : Bool) → (staged : List ℕ) → Pass
      → S × List Sent
      → Option (VkResult × (S × List Sent))
  noting info final staged pass (s, log) = elim (shot info final staged pass s) [
    | none ↦ none
    | some (result, s') ↦
        some (result, (s', log ++ record { pass = pass; final = final; staged = staged } ∷ []))
  ]

  -- What becomes of the bindings. A wait that does not return and an error are those of a
  -- submission or of the making of a semaphore.
  pub data Submits (fence prev : ℕ) (staged : List ℕ) (infos : List BindInfo) (log : List Sent)
      : Option (VkResult × (S × List Sent)) → Type 0 where
    hung :
        (info : BindInfo) (final : Bool) (held : List ℕ) (pass : Pass) (s : S)
        → shot info final held pass s ≡ none
        → Submits fence prev staged infos log none
    done :
        (r : VkResult) (s : S) (log' sent : List Sent)
        → is_success r ≡ true
        → log' ≡ log ++ sent
        → IsChain fence prev staged infos sent
        → Submits fence prev staged infos log (some (r, (s, log')))
    no_semaphore :
        (s0 s : S) (r : VkResult) (log' sent : List Sent)
        → is_success r ≡ false
        → (create s0).0 ≡ r
        → log' ≡ log ++ sent
        → IsPart fence prev staged infos sent
        → Submits fence prev staged infos log (some (r, (s, log')))
    refused :
        (info : BindInfo) (final : Bool) (held : List ℕ) (pass : Pass) (s0 s : S) (r : VkResult)
        (log' sent : List Sent)
        → is_success r ≡ false
        → shot info final held pass s0 ≡ some (r, s)
        → log' ≡ log ++ sent
        → IsPart fence prev staged infos sent
        → Submits fence prev staged infos log (some (r, (s, log')))

module _ (d : Driver) (dev : Device) (env : Option ℕ)
    (submit : (History → History) → History → VkResult × History)
    (one_shot : Pass → (ℕ → Layer → Layer) → Layer → Option (VkResult × Layer)) where
  -- A binding that is recorded and submitted
  abbrev pub bind_shot :
      BindInfo → (final : Bool) → (staged : List ℕ) → Pass → Layer → Option (VkResult × Layer)
  bind_shot info final staged pass = one_shot pass (record_binds d dev env submit info final staged)

  abbrev pub noted_binds :
      (fence : ℕ) → List BindInfo → Layer → Option (VkResult × (Layer × List Sent))
  noted_binds fence infos s =
      bind_each (noting_create (create_semaphore d) bind_shot)
        (noting (create_semaphore d) bind_shot) fence 0 [] infos (s, [])
