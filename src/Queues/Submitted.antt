-- ===== src/Queues/Submitted.antt =====
-- src/queue.cpp: after a submission that succeeds, the fence of every batch that waits for the
-- finalizer was given to a submission.
use compat_layer.Prelude.{
  ℕ, ◌≡◌, refl, sym, ap, ◌∙◌, true, false, Bool, false≢true, ◌||◌, ◌&&◌, List, [], ◌∷◌, ◌++◌, some,
  Dict, find, holds, All, ◌==◌, Bool-cases, Option-cases, inl, inr, arith,
}
use compat_layer.Device.{Device}
use compat_layer.Driver.{Driver, History, Call, Object, Submit, is_success}
use compat_layer.Driver.Objects.{MakesNewObjects, Supplies, opened}
use compat_layer.Batches.{is_submitted}
use compat_layer.Commands.{CommandBuffer, Layer, layer_history}
use compat_layer.Commands.Live.{among}
use compat_layer.Queues.{
  take_each, take_submits, add_signals, waiting_for, submit_pairs, submit_taken,
}
use compat_layer.Queues.Taken.{Waits, Taking, Takes, fences_of, All-map, take_found-Takes}

or_assoc : (x y z : Bool) → (x || (y || z)) ≡ ((x || y) || z)
or_assoc true y z = refl
or_assoc false y z = refl

among-append : (xs ys : List ℕ) (f : ℕ) → among (xs ++ ys) f ≡ among xs f || among ys f
among-append [] ys f = refl
among-append (x ∷ xs) ys f =
    ap (λ b. x == f || b) (among-append xs ys f) ∙ or_assoc (x == f) (among xs f) (among ys f)

among-fences_of :
    (xs ys : List (ℕ × ℕ)) (f : ℕ)
    → among (fences_of (xs ++ ys)) f ≡ among (fences_of xs) f || among (fences_of ys) f
among-fences_of [] ys f = refl
among-fences_of (x ∷ xs) ys f =
    ap (λ b. x.1 == f || b) (among-fences_of xs ys f)
    ∙ or_assoc (x.1 == f) (among (fences_of xs) f) (among (fences_of ys) f)

shuffle : (s x y z : Bool) → s || (y || (x || z)) ≡ true → s || ((x || y) || z) ≡ true
shuffle true x y z e = refl
shuffle false true y z e = refl
shuffle false false y z e = e

pub or_true : (x : Bool) → x || true ≡ true
or_true true = refl
or_true false = refl

pub or_false : (x : Bool) → x || false ≡ true → x ≡ true
or_false true e = e
or_false false e = e

regroup : (x y z : Bool) → y || (x || z) ≡ true → ((x && true) || y) || z ≡ true
regroup true y z e = refl
regroup false y z e = e

module _ (d : Driver) where
  later :
      (f : ℕ) (pairs : List (ℕ × ℕ)) (c : Call) (h : History)
      → ((g : ℕ) (h : History) → is_submitted d g h ≡ true → is_submitted d g (c ∷ h) ≡ true)
      → is_submitted d f h || among (fences_of pairs ++ []) f ≡ true
      → is_submitted d f (c ∷ h) || among (fences_of pairs) f ≡ true
  later f pairs c h keeps e =
      let e' = rw (among-append (fences_of pairs) [] f) at e in
      elim (Bool-cases (is_submitted d f h)) [
        | inl k ↦ rw (keeps f h k) refl
        | inr k ↦ elim (Bool-cases (among (fences_of pairs) f)) [
          | inl q ↦ rw q (or_true (is_submitted d f (c ∷ h)))
          | inr q ↦ absurd (false≢true (rw (k, q) at e'))
        ]
      ]

  -- The order of the fences does not matter.
  merge :
      (xs ys : List (ℕ × ℕ)) (taken fences semaphores : List ℕ) (s : Layer)
      → Taking d (fences_of ys ++ (fences_of xs ++ taken)) fences semaphores s
      → Taking d (fences_of (xs ++ ys) ++ taken) fences semaphores s
  merge xs ys taken fences semaphores s k = record {
    owned = k.owned;
    fresh = k.fresh;
    waits =
        All-map (Waits d (layer_history s) (fences_of ys ++ (fences_of xs ++ taken)))
          (Waits d (layer_history s) (fences_of (xs ++ ys) ++ taken))
          (λ b w. record {
            signalled =
                let f = b.completed in
                rw (among-append (fences_of (xs ++ ys)) taken f, among-fences_of xs ys f)
                  (shuffle (is_submitted d f (layer_history s)) (among (fences_of xs) f)
                    (among (fences_of ys) f) (among taken f)
                    (rw
                      (
                        among-append (fences_of ys) (fences_of xs ++ taken) f,
                        among-append (fences_of xs) taken f,
                      )
                      at w.signalled));
            pair = w.pair;
            freed = w.freed;
            sets = w.sets;
          })
          s.pending k.waits;
  }

  found :
      (p : ℕ) (m : Dict CommandBuffer) → holds p m ≡ 1 → (cb : CommandBuffer) × (find p m ≡ some cb)
  found p m e = elim (Option-cases (find p m)) [ inl k ↦ absurd (ground (arith, e, k)) | inr k ↦ k ]

  module _ (new : MakesNewObjects d) (supplies : Supplies d) (dev : Device) where
    take_each-Takes :
        (ps taken fences semaphores : List ℕ) (s : Layer)
        → All (λ p. holds p s.commands ≡ 1) ps
        → Taking d taken fences semaphores s
        → Takes d taken s (take_each d (some dev) ps s)
    unfolding take_each
    take_each-Takes [] taken fences semaphores s known k =
        (([], s), fences, semaphores, refl, k, λ p e. e)
    take_each-Takes (p ∷ ps) taken fences semaphores s known k =
        let (cb, e) = found p s.commands known.0 in
        let (r, fences1, semaphores1, e1, k1, keeps) =
          take_found-Takes d new supplies dev taken fences semaphores p cb s e k in
        let known1 =
          All-map (λ q. holds q s.commands ≡ 1) (λ q. holds q r.1.commands ≡ 1) keeps ps known.1 in
        let (r', fences2, semaphores2, e2, k2, keeps') =
          take_each-Takes ps (fences_of r.0 ++ taken) fences1 semaphores1 r.1 known1 k1 in
        (
          (r.0 ++ r'.0, r'.1),
          fences2,
          semaphores2,
          rw (e, e1, e2, take_each) refl,
          merge r.0 r'.0 taken fences2 semaphores2 r'.1 k2,
          λ q h. keeps' q (keeps q h),
        )

    pub take_submits-Takes :
        (submits : List Submit) (taken fences semaphores : List ℕ) (s : Layer)
        → All (λ submit. All (λ p. holds p s.commands ≡ 1) submit.buffers) submits
        → Taking d taken fences semaphores s
        → (changed : List Submit) × (r : List (ℕ × ℕ) × Layer) × (fences' : List ℕ)
          × (semaphores' : List ℕ) × (take_submits d (some dev) submits s
              ≡ some (changed, r.0, r.1))
          × Taking d (fences_of r.0 ++ taken) fences' semaphores' r.1
    unfolding take_submits
    take_submits-Takes [] taken fences semaphores s known k =
        ([], ([], s), fences, semaphores, refl, k)
    take_submits-Takes (submit ∷ submits) taken fences semaphores s known k =
        let (r, fences1, semaphores1, e1, k1, keeps) =
          take_each-Takes submit.buffers taken fences semaphores s known.0 k in
        let known1 =
          All-map (λ t. All (λ p. holds p s.commands ≡ 1) t.buffers)
            (λ t. All (λ p. holds p r.1.commands ≡ 1) t.buffers)
            (λ t.
              All-map (λ q. holds q s.commands ≡ 1) (λ q. holds q r.1.commands ≡ 1) keeps t.buffers)
            submits known.1 in
        let (changed, r', fences2, semaphores2, e2, k2) =
          take_submits-Takes submits (fences_of r.0 ++ taken) fences1 semaphores1 r.1 known1 k1 in
        (
          add_signals r.0 submit ∷ changed,
          (r.0 ++ r'.0, r'.1),
          fences2,
          semaphores2,
          rw (e1, e2, take_submits) refl,
          merge r.0 r'.0 taken fences2 semaphores2 r'.1 k2,
        )

  -- A submission that succeeds signals its fence, and takes no other fence back.
  submit_pairs-submitted :
      (queue : ℕ) (pairs : List (ℕ × ℕ)) (h : History) (f : ℕ)
      → is_success (submit_pairs d queue pairs h).0 ≡ true
      → is_submitted d f h || among (fences_of pairs) f ≡ true
      → is_submitted d f (submit_pairs d queue pairs h).1 ≡ true
  unfolding submit_pairs is_submitted
  submit_pairs-submitted queue [] h f ok e = or_false (is_submitted d f h) e
  submit_pairs-submitted queue (pair ∷ pairs) h f ok e =
      let c = Call.queue_submit queue (waiting_for pair.0 ∷ []) pair.1 in
      elim (Bool-cases (is_success (d.result h c))) [
        | inl k ↦
            rw (k, submit_pairs)
              (submit_pairs-submitted queue pairs (c ∷ h) f (rw (k, submit_pairs) at ok)
                (rw k (regroup (pair.1 == f) (is_submitted d f h) (among (fences_of pairs) f) e)))
        | inr k ↦ absurd (false≢true (sym k ∙ rw (k, submit_pairs) at ok))
      ]

  opened-submit_pairs :
      (queue : ℕ) (pairs : List (ℕ × ℕ)) (h : History) (o : Object) (p : ℕ)
      → opened d o p (submit_pairs d queue pairs h).1 ≡ opened d o p h
  unfolding submit_pairs opened
  opened-submit_pairs queue [] h o p = refl
  opened-submit_pairs queue (pair ∷ pairs) h o p =
      let c = Call.queue_submit queue (waiting_for pair.0 ∷ []) pair.1 in
      elim (Bool-cases (is_success (d.result h c))) [
        | inl k ↦ rw (k, submit_pairs) (opened-submit_pairs queue pairs (c ∷ h) o p)
        | inr k ↦ rw (k, submit_pairs) refl
      ]

  -- A call that opens and closes nothing and takes no fence back
  abbrev pub Submits : Call → Type 0
  Submits c =
      ((o : Object) (p : ℕ) (h : History) → opened d o p (c ∷ h) ≡ opened d o p h)
      × ((f : ℕ) (h : History) → is_submitted d f h ≡ true → is_submitted d f (c ∷ h) ≡ true)

  pub submitted :
      (queue : ℕ) (c : Call) (pairs : List (ℕ × ℕ)) (fences semaphores : List ℕ) (s : Layer)
      → Submits c
      → is_success (submit_taken d c queue pairs s).0 ≡ true
      → Taking d (fences_of pairs ++ []) fences semaphores s
      → Taking d [] fences semaphores (submit_taken d c queue pairs s).1
  unfolding submit_taken
  submitted queue c pairs fences semaphores s (quiet, keeps) ok k =
      let h = layer_history s in
      elim (Bool-cases (is_success (d.result h c))) [
        | inr e ↦ absurd (false≢true (sym e ∙ rw (e, submit_taken) at ok))
        | inl e ↦
            rw (e, submit_taken)
              (record {
                owned = record {
                  fence = λ p.
                      k.owned.fence p
                      ∙ sym (
                          opened-submit_pairs queue pairs (c ∷ h) Object.fence p
                          ∙ quiet Object.fence p h);
                  semaphore = λ p.
                      k.owned.semaphore p
                      ∙ sym (
                          opened-submit_pairs queue pairs (c ∷ h) Object.semaphore p
                          ∙ quiet Object.semaphore p h);
                };
                fresh = k.fresh;
                waits =
                    All-map (Waits d h (fences_of pairs ++ []))
                      (Waits d (submit_pairs d queue pairs (c ∷ h)).1 [])
                      (λ b w. record {
                        signalled =
                            rw
                              (submit_pairs-submitted queue pairs (c ∷ h) b.completed
                                (rw (e, submit_taken) at ok)
                                (later b.completed pairs c h keeps w.signalled))
                              refl;
                        pair = w.pair;
                        freed = w.freed;
                        sets = w.sets;
                      })
                      s.pending k.waits;
              })
      ]
