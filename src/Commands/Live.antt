-- ===== src/Commands/Live.antt =====
-- src/command_buffer.cpp: what freeing the live descriptor sets of command buffers does.
use compat_layer.Prelude.{
  ℕ, ◌≡◌, refl, sym, ap, subst, ◌∙◌, true, false, Bool, ◌||◌, List, [], ◌∷◌, Option, none, some,
  Dict, find, insert, find-insert, ◌==◌, ==_iff, if◌then◌else◌, Bool-cases, Option-cases, inl, inr,
}
use compat_layer.Descriptors.Tracking.{Tracking}
use compat_layer.Allocator
use compat_layer.Allocator.Quiet.{OnSome, free-sets}
use compat_layer.Batches.{World, history_of, free_sets}
use compat_layer.Commands.{CommandBuffer, Layer, kill_sets, kill_descriptor_sets, kill_each}

abbrev pub among : List ℕ → ℕ → Bool
among [] q = false
among (p ∷ ps) q = p == q || among ps q

abbrev pub has_set : List (ℕ × ℕ) → ℕ → Bool
has_set [] x = false
has_set ((pool, q) ∷ rest) x = q == x || has_set rest x

abbrev pub cleared : Bool → Option CommandBuffer → Option CommandBuffer
cleared b none = none
cleared b (some cb) = some (if b then record cb { live = [] } else cb)

abbrev pub has_live : Option CommandBuffer → ℕ → Bool
has_live none x = false
has_live (some cb) x = has_set cb.live x

-- Whether a command buffer among the handles holds a set
abbrev pub holds_set : List ℕ → Dict CommandBuffer → ℕ → Bool
holds_set [] m x = false
holds_set (p ∷ ps) m x = has_live (find p m) x || holds_set ps m x

-- The sets of the command buffers among the handles are gone, from them and from the tracked
-- layouts; the other command buffers, layouts and batches are as they were.
pub record IsCleared (handles : List ℕ) (s s' : Layer) : Type 0 where
  pub commands : (q : ℕ) → find q s'.commands ≡ cleared (among handles q) (find q s.commands)
  pub layouts :
      (x : ℕ)
      → find x s'.world.tracking.sets
        ≡ (if holds_set handles s.commands x then none else find x s.world.tracking.sets)
  pub pending : s'.pending ≡ s.pending

if_nested {ℓ} :
    {A : Type ℓ}
    → (b c : Bool) (a z : A) → (if b then a else if c then a else z) ≡ (if c || b then a else z)
if_nested true true a z = refl
if_nested true false a z = refl
if_nested false true a z = refl
if_nested false false a z = refl

chain :
    (b c : Bool) (x : ℕ) (t : Tracking) (r : Option (Allocator.State × Tracking)) (t' : Tracking)
    → find x t'.sets ≡ (if c then none else find x t.sets)
    → OnSome r (λ r. find x r.1.sets ≡ (if b then none else find x t'.sets))
    → OnSome r (λ r. find x r.1.sets ≡ (if c || b then none else find x t.sets))
chain b c x t none t' e k = tt
chain b c x t (some r) t' e k =
    k ∙ ap (λ y. if b then none else y) e ∙ if_nested b c none (find x t.sets)

free_sets-sets :
    (sets : List (ℕ × ℕ)) (x : ℕ) (s : Allocator.State) (t : Tracking)
    → OnSome
        (free_sets sets (s, t))
        (λ r. find x r.1.sets ≡ (if has_set sets x then none else find x t.sets))
unfolding free_sets
free_sets-sets [] x s t = refl
free_sets-sets ((pool, q) ∷ rest) x s t = elim (Option-cases (Allocator.free pool q (s, t))) [
  | inl e ↦ rw (e, OnSome) tt
  | inr (r, e) ↦
      let first : find x r.1.sets ≡ (if q == x then none else find x t.sets) =
        subst (λ y. OnSome y (λ z. find x z.1.sets ≡ (if q == x then none else find x t.sets))) e
          (free-sets pool q x s t) in
      rw (e, OnSome)
        (chain (has_set rest x) (q == x) x t (free_sets rest r) r.1 first
          (free_sets-sets rest x r.0 r.1))
]

-- What freeing the sets of one command buffer does
pub record Kills (sets : List (ℕ × ℕ)) (w w' : World) : Type 0 where
  pub layouts :
      (x : ℕ) → find x w'.tracking.sets ≡ (if has_set sets x then none else find x w.tracking.sets)

kill_sets-Kills : (sets : List (ℕ × ℕ)) (w : World) → OnSome (kill_sets sets w) (Kills sets w)
unfolding kill_sets
kill_sets-Kills [] w = record { layouts = λ x. refl }
kill_sets-Kills (e ∷ rest) w =
    let s : Allocator.State = record { allocator = w.allocator; history = history_of w } in
    elim (Option-cases (free_sets (e ∷ rest) (s, w.tracking))) [
      | inl k ↦ rw (k, OnSome) tt
      | inr (r, k) ↦
          rw (k, OnSome)
            (record {
              layouts = λ x.
                  subst
                    (λ y. OnSome y (λ z.
                      find x z.1.sets
                      ≡ (if has_set (e ∷ rest) x then none else find x w.tracking.sets)))
                    k (free_sets-sets (e ∷ rest) x s w.tracking);
            })
    ]

record KillsOne (p : ℕ) (cb : CommandBuffer) (s s' : Layer) : Type 0 where
  commands : s'.commands ≡ insert p (record cb { live = [] }) s.commands
  layouts :
      (x : ℕ)
      → find x s'.world.tracking.sets
        ≡ (if has_set cb.live x then none else find x s.world.tracking.sets)
  pending : s'.pending ≡ s.pending

kill_descriptor_sets-KillsOne :
    (p : ℕ) (cb : CommandBuffer) (s : Layer)
    → OnSome (kill_descriptor_sets p cb s) (KillsOne p cb s)
unfolding kill_descriptor_sets
kill_descriptor_sets-KillsOne p cb s = elim (Option-cases (kill_sets cb.live s.world)) [
  | inl e ↦ rw (e, OnSome) tt
  | inr (w, e) ↦
      let kills : Kills cb.live s.world w =
        subst (λ y. OnSome y (Kills cb.live s.world)) e (kill_sets-Kills cb.live s.world) in
      rw (e, OnSome) (record { commands = refl; layouts = kills.layouts; pending = refl })
]

OnSome-map {ℓ} :
    {A : Type ℓ}
    → (P Q : A → Type 0) (r : Option A) → ((a : A) → P a → Q a)
    → OnSome r P
    → OnSome r Q
OnSome-map P Q none f k = tt
OnSome-map P Q (some a) f k = f a k

cleared-missing :
    (p q : ℕ) (b : Bool) (m : Dict CommandBuffer)
    → find p m ≡ none
    → cleared b (find q m) ≡ cleared (p == q || b) (find q m)
cleared-missing p q b m e = elim (Bool-cases (p == q)) [
  | inl k ↦
      let same : p ≡ q = (==_iff p q).0 k in
      rw k (subst (λ x. cleared b (find x m) ≡ cleared true (find x m)) same (rw e refl))
  | inr k ↦ rw k refl
]

cleared-found :
    (p q : ℕ) (b : Bool) (cb : CommandBuffer) (m : Dict CommandBuffer)
    → find p m ≡ some cb
    → cleared b (find q (insert p (record cb { live = [] }) m)) ≡ cleared (p == q || b) (find q m)
cleared-found p q b cb m e =
    ap (cleared b) (find-insert p q (record cb { live = [] }) m) ∙ elim (Bool-cases (p == q)) [
      | inl k ↦
          let same : p ≡ q = (==_iff p q).0 k in
          rw k (
            subst (λ x. cleared b (some (record cb { live = [] })) ≡ cleared true (find x m)) same
              (rw e (elim (Bool-cases b) [ inl t ↦ rw t refl | inr t ↦ rw t refl ])))
      | inr k ↦ rw k refl
    ]

holds_set-insert :
    (p : ℕ) (cb : CommandBuffer) (m : Dict CommandBuffer) (ps : List ℕ) (x : ℕ)
    → find p m ≡ some cb
    → has_set cb.live x ≡ false
    → holds_set ps (insert p (record cb { live = [] }) m) x ≡ holds_set ps m x
holds_set-insert p cb m [] x e k = refl
holds_set-insert p cb m (q ∷ ps) x e k =
    ap (λ y. y || holds_set ps (insert p (record cb { live = [] }) m) x)
      (ap (λ o. has_live o x) (find-insert p q (record cb { live = [] }) m)
        ∙ elim (Bool-cases (p == q)) [
          | inl t ↦
              let same : p ≡ q = (==_iff p q).0 t in
              rw t (subst (λ y. false ≡ has_live (find y m) x) same (rw e (sym k)))
          | inr t ↦ rw t refl
        ])
    ∙ ap (λ y. has_live (find q m) x || y) (holds_set-insert p cb m ps x e k)

if_same {ℓ} : {A : Type ℓ} → (b : Bool) (a : A) → (if b then a else a) ≡ a
if_same true a = refl
if_same false a = refl

cleared-false : (o : Option CommandBuffer) → o ≡ cleared false o
cleared-false none = refl
cleared-false (some cb) = refl

skipped :
    (p : ℕ) (ps : List ℕ) (s s' : Layer)
    → find p s.commands ≡ none
    → IsCleared ps s s'
    → IsCleared (p ∷ ps) s s'
skipped p ps s s' e k = record {
  commands = λ q. k.commands q ∙ cleared-missing p q (among ps q) s.commands e;
  layouts = λ x. rw e (k.layouts x);
  pending = k.pending;
}

followed :
    (p : ℕ) (ps : List ℕ) (cb : CommandBuffer) (s s1 s' : Layer)
    → find p s.commands ≡ some cb
    → KillsOne p cb s s1
    → IsCleared ps s1 s'
    → IsCleared (p ∷ ps) s s'
followed p ps cb s s1 s' e one k = record {
  commands = λ q.
      k.commands q
      ∙ ap (λ m. cleared (among ps q) (find q m)) one.commands
      ∙ cleared-found p q (among ps q) cb s.commands e;
  layouts = λ x.
      k.layouts x
      ∙ ap (λ m. if holds_set ps m x then none else find x s1.world.tracking.sets) one.commands
      ∙ ap (λ y. if holds_set ps (insert p (record cb { live = [] }) s.commands) x then none else y)
          (one.layouts x)
      ∙ elim (Bool-cases (has_set cb.live x)) [
        | inl t ↦
            rw (e, t)
              (if_same (holds_set ps (insert p (record cb { live = [] }) s.commands) x) none)
        | inr t ↦ rw (e, t, holds_set-insert p cb s.commands ps x e t) refl
      ];
  pending = k.pending ∙ one.pending;
}

pub kill_each-IsCleared : (ps : List ℕ) (s : Layer) → OnSome (kill_each ps s) (IsCleared ps s)
unfolding kill_each
kill_each-IsCleared [] s = record {
  commands = λ q. cleared-false (find q s.commands);
  layouts = λ x. refl;
  pending = refl;
}
kill_each-IsCleared (p ∷ ps) s = elim (Option-cases (find p s.commands)) [
  | inl e ↦
      rw (e, OnSome)
        (OnSome-map (IsCleared ps s) (IsCleared (p ∷ ps) s) (kill_each ps s)
          (λ s'. skipped p ps s s' e) (kill_each-IsCleared ps s))
  | inr (cb, e) ↦
      rw (e, OnSome)
        (elim (Option-cases (kill_descriptor_sets p cb s)) [
          | inl k ↦ rw (k, OnSome) tt
          | inr (s1, k) ↦
              let one : KillsOne p cb s s1 =
                subst (λ y. OnSome y (KillsOne p cb s)) k (kill_descriptor_sets-KillsOne p cb s) in
              rw (k, OnSome)
                (OnSome-map (IsCleared ps s1) (IsCleared (p ∷ ps) s) (kill_each ps s1)
                  (λ s'. followed p ps cb s s1 s' e one) (kill_each-IsCleared ps s1))
        ])
]
