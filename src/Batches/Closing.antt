-- ===== src/Batches/Closing.antt =====
-- src/staging_resources.cpp: which objects each loop of `Cleanup` closes.
use compat_layer.Prelude.{
  ℕ, ◌≡◌, refl, sym, ap, subst, ◌∙◌, false, Bool, ◌||◌, List, [], ◌∷◌, ◌++◌, Option, none, some,
  Dict, find, erase, ◌==◌, if◌then◌else◌, Bool-cases, Option-cases, inl, inr, arith,
}
use compat_layer.Device.{Device}
use compat_layer.Driver.{Driver, History, Call, Object}
use compat_layer.Driver.Objects.{opened, is_it}
use compat_layer.Descriptors.Tracking.{Tracking}
use compat_layer.Allocator
use compat_layer.Allocator.Quiet.{OnSome, free-Quiet}
use compat_layer.Resources
use compat_layer.Resources.{Buffer, DenseSparseResource}
use compat_layer.Resources.Shadow.{destroy_sparse}
use compat_layer.Resources.Buffers.{destroy_buffer}
use compat_layer.Resources.Staging.{drop_staging_buffer}
use compat_layer.Batches.{
  Block, read_results, drop_buffers, destroy_handles, destroy_blocks, free_sets,
}

abbrev pub Closed : Type 0
Closed = List (Object × ℕ)

abbrev pub closes : Closed → Object → ℕ → Bool
closes [] o p = false
closes ((o', p') ∷ rest) o p = is_it o' p' o p || closes rest o p

abbrev pub close_all : Closed → History → History
close_all [] h = h
close_all ((o, p) ∷ rest) h = close_all rest (Call.destroy o p ∷ h)

pub close_all-append :
    (xs ys : Closed) (h : History) → close_all (xs ++ ys) h ≡ close_all ys (close_all xs h)
close_all-append [] ys h = refl
close_all-append ((o, p) ∷ xs) ys h = close_all-append xs ys (Call.destroy o p ∷ h)

-- A sparse resource's memory
abbrev pub shadow_of : Option DenseSparseResource → Closed
shadow_of none = []
shadow_of (some res) = (Object.memory, res.shadow_memory) ∷ []

abbrev pub holdings_of : (handle : ℕ) → Buffer → Closed
holdings_of handle b =
    (if b.owns_memory then (Object.memory, b.memory) ∷ [] else [])
    ++ (Object.buffer, handle) ∷ shadow_of b.sparse

-- The buffers that are found, each with its memory
abbrev pub closed_buffers : List ℕ → Dict Buffer → Closed
closed_buffers [] m = []
closed_buffers (p ∷ ps) m =
    let rest = closed_buffers ps m in
    let rest' = closed_buffers ps (erase p m) in
    elim (find p m) [ none ↦ rest | some b ↦ holdings_of p b ++ rest' ]

abbrev pub closed_handles : Object → List ℕ → Closed
closed_handles o [] = []
closed_handles o (p ∷ ps) = let rest = closed_handles o ps in if p == 0 then rest else (o, p) ∷ rest

abbrev pub closed_blocks : List Block → Closed
closed_blocks [] = []
closed_blocks (p ∷ ps) =
    closed_blocks ps ++ (if p.handle == 0 then [] else (Object.query_pool, p.handle) ∷ [])

pub close_all-destroy_handles :
    (o : Object) (ps : List ℕ) (h : History)
    → destroy_handles o ps h ≡ close_all (closed_handles o ps) h
unfolding destroy_handles
close_all-destroy_handles o [] h = refl
close_all-destroy_handles o (p ∷ ps) h = elim (Bool-cases (p == 0)) [
  | inl e ↦ rw e (close_all-destroy_handles o ps h)
  | inr e ↦ rw e (close_all-destroy_handles o ps (Call.destroy o p ∷ h))
]

pub close_all-destroy_blocks :
    (ps : List Block) (h : History) → destroy_blocks ps h ≡ close_all (closed_blocks ps) h
unfolding destroy_blocks
close_all-destroy_blocks [] h = refl
close_all-destroy_blocks (p ∷ ps) h = elim (Bool-cases (p.handle == 0)) [
  | inl e ↦ rw e (close_all-destroy_blocks ps h ∙ sym (close_all-append (closed_blocks ps) [] h))
  | inr e ↦ rw e (
      ap (λ x. Call.destroy Object.query_pool p.handle ∷ x) (close_all-destroy_blocks ps h)
      ∙ sym (close_all-append (closed_blocks ps) ((Object.query_pool, p.handle) ∷ []) h))
]

-- What becomes of the state when a buffer that is found is destroyed, or dropped
record Drops (p : ℕ) (xs : Closed) (s t : Resources.State) : Type 0 where
  history : t.history ≡ close_all xs s.history
  buffers : t.buffers ≡ erase p s.buffers

destroy_sparse-Drops :
    (p : ℕ) (sparse : Option DenseSparseResource) (s : Resources.State)
    → let t = (destroy_sparse sparse (Resources.call (Call.destroy Object.buffer p) s)).1 in
      Drops p ((Object.buffer, p) ∷ shadow_of sparse) s (record t { buffers = erase p t.buffers })
unfolding destroy_sparse
destroy_sparse-Drops p none s = record { history = refl; buffers = refl }
destroy_sparse-Drops p (some res) s = record { history = refl; buffers = refl }

module _ (dev : Device) (p : ℕ) (s : Resources.State) (b : Buffer)
    (e : find p s.buffers ≡ some b) where
  destroy_buffer-Drops :
      Drops p ((Object.buffer, p) ∷ shadow_of b.sparse) s (destroy_buffer (some dev) p s)
  unfolding destroy_buffer
  destroy_buffer-Drops = rw (e, destroy_buffer) (destroy_sparse-Drops p b.sparse s)

module _ (dev : Device) (p : ℕ) (s : Resources.State) (b : Buffer)
    (e : find p s.buffers ≡ some b) where
  drop_staging_buffer-Drops : Drops p (holdings_of p b) s (drop_staging_buffer dev p s)
  unfolding drop_staging_buffer
  drop_staging_buffer-Drops = elim (Bool-cases b.owns_memory) [
    | inl q ↦
        let t = Resources.call (Call.destroy Object.memory b.memory) s in
        let after = destroy_buffer-Drops dev p t b e in
        rw (e, drop_staging_buffer)
          (rw q (record { history = after.history; buffers = after.buffers }))
    | inr q ↦ rw (e, drop_staging_buffer) (rw q (destroy_buffer-Drops dev p s b e))
  ]

drop_staging_buffer-missing :
    (dev : Device) (p : ℕ) (s : Resources.State)
    → find p s.buffers ≡ none
    → drop_staging_buffer dev p s ≡ s
unfolding drop_staging_buffer
drop_staging_buffer-missing dev p s e = rw (e, drop_staging_buffer) refl

pub close_all-drop_buffers :
    (dev : Device) (ps : List ℕ) (s : Resources.State)
    → (drop_buffers dev ps s).history ≡ close_all (closed_buffers ps s.buffers) s.history
unfolding drop_buffers
close_all-drop_buffers dev [] s = refl
close_all-drop_buffers dev (p ∷ ps) s = elim (Option-cases (find p s.buffers)) [
  | inl e ↦
      rw (e, closed_buffers)
        (ap (λ t. (drop_buffers dev ps t).history) (drop_staging_buffer-missing dev p s e)
          ∙ close_all-drop_buffers dev ps s)
  | inr (b, e) ↦
      let step = drop_staging_buffer-Drops dev p s b e in
      rw (e, closed_buffers)
        (close_all-drop_buffers dev ps (drop_staging_buffer dev p s)
          ∙ ap (λ m. close_all (closed_buffers ps m) (drop_staging_buffer dev p s).history)
              step.buffers
          ∙ ap (close_all (closed_buffers ps (erase p s.buffers))) step.history
          ∙ sym (close_all-append (holdings_of p b) _ s.history))
]

module _ (d : Driver) where
  pub opened-close_all :
      (xs : Closed) (o : Object) (p : ℕ) (h : History)
      → opened d o p (close_all xs h) ≡ (if closes xs o p then 0 else opened d o p h)
  unfolding opened
  opened-close_all [] o p h = refl
  opened-close_all ((o', p') ∷ xs) o p h =
      ground (arith, opened-close_all xs o p (Call.destroy o' p' ∷ h))

  pub opened-read_results :
      (ps : List Block) (o : Object) (p : ℕ) (h : History)
      → opened d o p (read_results d ps h).1 ≡ opened d o p h
  unfolding read_results opened
  opened-read_results [] o p h = refl
  opened-read_results (b ∷ ps) o p h = ground (arith, opened-read_results ps o p h)

-- What a view of the calls that does not see the end of descriptor pools and sets says
module _ {A : Type 0} (view : History → A)
    (ignores : (pool : ℕ) (h : History) → view (Call.destroy_descriptor_pool pool ∷ h) ≡ view h)
    (ignores_free : (pool : ℕ) (sets : List ℕ) (h : History)
      → view (Call.free_descriptor_sets pool sets ∷ h) ≡ view h) where
  chain :
      (h h' : History) (r : Option (Allocator.State × Tracking))
      → view h' ≡ view h
      → OnSome r (λ r. view r.0.history ≡ view h')
      → OnSome r (λ r. view r.0.history ≡ view h)
  chain h h' none e k = tt
  chain h h' (some x) e k = k ∙ e

  pub free_sets-view :
      (sets : List (ℕ × ℕ)) (s : Allocator.State) (t : Tracking)
      → OnSome (free_sets sets (s, t)) (λ r. view r.0.history ≡ view s.history)
  unfolding free_sets
  free_sets-view [] s t = refl
  free_sets-view ((pool, q) ∷ rest) s t = elim (Option-cases (Allocator.free pool q (s, t))) [
    | inl e ↦ rw (e, OnSome) tt
    | inr (r, e) ↦
        let first : view r.0.history ≡ view s.history =
          subst (λ x. OnSome x (λ y. view y.0.history ≡ view s.history)) e
            (free-Quiet view ignores ignores_free pool q s t) in
        rw (e, OnSome) (chain _ _ (free_sets rest r) first (free_sets-view rest r.0 r.1))
  ]

pub free_sets-opened :
    (d : Driver) (sets : List (ℕ × ℕ)) (o : Object) (p : ℕ) (s : Allocator.State) (t : Tracking)
    → OnSome (free_sets sets (s, t)) (λ r. opened d o p r.0.history ≡ opened d o p s.history)
unfolding opened
free_sets-opened d sets o p s t =
    free_sets-view (opened d o p) (λ q h. refl) (λ q v h. refl) sets s t
