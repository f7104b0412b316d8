-- ===== src/SyncPool/Ownership.antt =====
-- src/layer.cpp: what `SyncPool` has made is in its free lists or with a submission.
use compat_layer.Prelude.{
  ℕ, ◌+◌, ◌<◌, ◌≡◌, refl, sym, ap, ◌∙◌, List, [], ◌∷◌, count, erase_first, count-erase_first, ◌==◌,
  Bool-cases, inl, inr, subst, arith,
}
use compat_layer.Driver.{Driver, History, Call, Object}
use compat_layer.Driver.Objects.{MakesNewObjects, Supplies, opened, opened-le, opened-create_other}
use compat_layer.SyncPool.{Pool, take_fence, take_semaphore, acquire, release}

-- What is open is free or held by a submission, exactly once.
pub record IsOwned (d : Driver) (held_fences held_semaphores : List ℕ) (s : Pool) : Type 0 where
  pub fence :
      (p : ℕ) → count p s.free_fences + count p held_fences ≡ opened d Object.fence p s.history
  pub semaphore :
      (p : ℕ)
      → count p s.free_semaphores + count p held_semaphores ≡ opened d Object.semaphore p s.history

module _ (d : Driver) (new : MakesNewObjects d) (supplies : Supplies d) where
  opened-create :
      (o : Object) (p : ℕ) (h : History)
      → let q = d.handle h (Call.create o []) in
        opened d o p (Call.create o [] ∷ h) ≡ opened d o p h + count p (q ∷ [])
  unfolding opened
  opened-create o p h =
      let ok = supplies h o [] in
      let q = d.handle h (Call.create o []) in
      let fresh : opened d o q h ≡ 0 = (new h o [] ok.0).1 in
      elim (Bool-cases (q == p)) [
        | inl f ↦
            let same : opened d o p h ≡ 0 = ap (λ x. opened d o x h) (ground (arith, f)) ∙ fresh in
            ground (arith, ok.0, same, f)
        | inr f ↦ ground (arith, ok.0, f)
      ]

  -- An object is open at most once, so a handle that is held is not handed out again.
  once :
      (o : Object) (q : ℕ) (held : List ℕ) (n : ℕ) (h : History)
      → n + count q (q ∷ held) ≡ opened d o q h
      → count q held ≡ 0
  once o q held n h e = ground (arith, e, opened-le d o q h)

  take_fence-IsOwned :
      (fences semaphores free : List ℕ) (s : Pool)
      → s.free_fences ≡ free
      → IsOwned d fences semaphores s
      → let r = take_fence d free s in IsOwned d (r.0 ∷ fences) semaphores r.1
  unfolding take_fence opened
  take_fence-IsOwned fences semaphores [] s e v = record {
    fence = λ p. ground (arith, e, v.fence p, opened-create Object.fence p s.history);
    semaphore = λ p.
        v.semaphore p
        ∙ sym (opened-create_other d Object.semaphore Object.fence p s.history [] refl);
  }
  take_fence-IsOwned fences semaphores (f ∷ fs) s e v = record {
    fence = λ p. ground (arith, ap (count p) e, v.fence p);
    semaphore = v.semaphore;
  }

  take_semaphore-IsOwned :
      (fences semaphores free : List ℕ) (s : Pool)
      → s.free_semaphores ≡ free
      → IsOwned d fences semaphores s
      → let r = take_semaphore d free s in IsOwned d fences (r.0 ∷ semaphores) r.1
  unfolding take_semaphore
  take_semaphore-IsOwned fences semaphores [] s e v = record {
    fence = λ p.
        v.fence p ∙ sym (opened-create_other d Object.fence Object.semaphore p s.history [] refl);
    semaphore = λ p. ground (arith, e, v.semaphore p, opened-create Object.semaphore p s.history);
  }
  take_semaphore-IsOwned fences semaphores (q ∷ qs) s e v = record {
    fence = v.fence;
    semaphore = λ p. ground (arith, ap (count p) e, v.semaphore p);
  }

  -- On a driver that never fails to create an object and whose new objects have new handles,
  -- Acquire hands out a semaphore and a fence that no submission holds, and with them every
  -- fence and semaphore that is open is again either free or held, and that once.
  pub acquire-IsOwned :
      (fences semaphores : List ℕ) (s : Pool)
      → IsOwned d fences semaphores s
      → let (semaphore, fence, after) = acquire d s in
        IsOwned d (fence ∷ fences) (semaphore ∷ semaphores) after
        × (count fence fences ≡ 0)
        × (count semaphore semaphores ≡ 0)
  unfolding acquire
  acquire-IsOwned fences semaphores s v =
      let r = take_fence d s.free_fences s in
      let fenced = take_fence-IsOwned fences semaphores s.free_fences s refl v in
      let r' = take_semaphore d r.1.free_semaphores r.1 in
      let both =
        take_semaphore-IsOwned (r.0 ∷ fences) semaphores r.1.free_semaphores r.1 refl fenced in
      (
        both,
        once Object.fence r.0 fences _ _ (both.fence r.0),
        once Object.semaphore r'.0 semaphores _ _ (both.semaphore r'.0),
      )

moved :
    (x p : ℕ) (free held : List ℕ) {n : ℕ}
    → count p free + count p held ≡ n
    → 0 < count x held
    → count p (x ∷ free) + count p (erase_first x held) ≡ n
moved x p free held e k = elim (Bool-cases (x == p)) [
  | inl f ↦
      let same : x ≡ p = ground (arith, f) in
      let some_held : 0 < count p held = subst (λ y. 0 < count y held) same k in
      ground (arith, e, some_held, count-erase_first p x held, f)
  | inr f ↦ ground (arith, e, count-erase_first p x held, f)
]

-- Given back, a semaphore and a fence that a submission holds are free, and nothing else changes.
pub release-IsOwned :
    (d : Driver) (semaphore fence : ℕ) (fences semaphores : List ℕ) (s : Pool)
    → 0 < count fence fences
    → 0 < count semaphore semaphores
    → IsOwned d fences semaphores s
    → IsOwned d
        (erase_first fence fences)
        (erase_first semaphore semaphores)
        (release semaphore fence s)
unfolding release
release-IsOwned d semaphore fence fences semaphores s k l v = record {
  fence = λ p. moved fence p s.free_fences fences (v.fence p) k;
  semaphore = λ p. moved semaphore p s.free_semaphores semaphores (v.semaphore p) l;
}
