-- ===== src/Resources/Staging/Life.antt =====
-- src/buffer.cpp and src/staging_resources.cpp: the life of a staging buffer.
use compat_layer.Prelude.{
  ℕ, ◌≡◌, refl, sym, ap, subst, ◌∙◌, true, false, List, [], ◌∷◌, Option, none, some, find,
  find-insert, find-insert_self, holds-none, ◌==◌, if◌then◌else◌, Bool-cases, inl, inr, arith,
}
use compat_layer.Device.{Device}
use compat_layer.Driver.{Driver, History, Call, Object, VkResult, is_success}
use compat_layer.Driver.Objects.{MakesNewObjects, opened}
use compat_layer.Memory.{find_memory_type, any_property}
use compat_layer.Resources.{State, Buffer, call, set_memory, bind_buffer_memory}
use compat_layer.Resources.Balance.{Same, opened-failed, opened-destroy_create}
use compat_layer.Resources.Tracked.{IsTracked}
use compat_layer.Resources.Failures.{not_created-Same}
use compat_layer.Resources.Buffers.{create_buffer, finish_buffer, add_buffer, new_buffer, is_sparse}
use compat_layer.Resources.Staging.{
  own_memory, update, give_id, round_up, obtain_memory, bind_staging, bind_obtained, give_memory,
  stage, create_staging_buffer, drop_staging_buffer,
}
use compat_layer.Resources.Staging.Give.{
  IsStaged, update-IsStaged, destroy_buffer-IsStaged, drop_staging_buffer-IsStaged,
  opened-give_back,
}

-- Without a buffer all is as before; with one, it is so once the buffer is dropped.
pub IsBalanced : Driver → Device → State → Option ℕ → State → Type 0
IsBalanced d dev s none t = Same d s t
IsBalanced d dev s (some handle) t = Same d s (drop_staging_buffer dev handle t)

abbrev HasBalance : Driver → Device → State → Option ℕ × State → Type 0
HasBalance d dev s r = IsBalanced d dev s r.0 r.1

kept :
    (handle : ℕ) (entry : Buffer) (s t t' : State)
    → t'.buffers ≡ t.buffers
    → t'.images ≡ t.images
    → t'.committed ≡ t.committed
    → IsStaged handle entry s t
    → IsStaged handle entry s t'
kept handle entry s t t' b i c v = record {
  found = ap (find handle) b ∙ v.found;
  others = λ p n. ap (find p) b ∙ v.others p n;
  images = λ p. ap (find p) i ∙ v.images p;
  committed = c ∙ v.committed;
}

module _ (d : Driver) (dev : Device) (handle : ℕ) (s : State)
    (fresh : find handle s.buffers ≡ none) where
  bind_staging-IsBalanced :
      (entry : Buffer) (given memory : ℕ) (t : State)
      → entry.sparse ≡ none
      → entry.owns_memory ≡ (given == 0)
      → IsStaged handle entry s t
      → ((o : Object) (p : ℕ)
          → let bound = Call.bind_buffer_memory handle memory 0 ∷ t.history in
            opened d o p (
              Call.destroy Object.buffer handle
              ∷ (if given == 0 then Call.destroy Object.memory memory ∷ bound else bound))
            ≡ opened d o p s.history)
      → let r = bind_staging d dev handle given memory t in IsBalanced d dev s r.0 r.1
  unfolding bind_staging bind_buffer_memory give_id IsBalanced update set_memory find
  bind_staging-IsBalanced entry given memory t plain owns v o =
      let c = Call.bind_buffer_memory handle memory 0 in
      let tried = call c t in
      let t1 : State = record tried {
        buffers = update (λ b. record b { memory = memory; offset = 0 }) handle t.buffers;
      } in
      let bound : Buffer = record entry { memory = memory; offset = 0 } in
      let v1 : IsStaged handle bound s t1 =
        update-IsStaged (λ b. record b { memory = memory; offset = 0 }) handle entry s t t1 refl
          refl refl v in
      let freed : State = call (Call.destroy Object.memory memory) tried in
      elim (Bool-cases (is_success (d.result t.history c))) [
        | inl e ↦
            rw (e, bind_staging, bind_buffer_memory)
              (drop_staging_buffer-IsStaged d dev handle (record bound { id = t.next_id }) s _ plain
                fresh
                (update-IsStaged (λ b. record b { id = t.next_id }) handle bound s t1 _ refl refl
                  refl v1)
                (λ o' p. rw owns (o o' p)))
        | inr e ↦
            rw (e, bind_staging, bind_buffer_memory)
              (rw e (elim (Bool-cases (given == 0)) [
                | inl k ↦ rw k (
                    destroy_buffer-IsStaged d dev handle entry s freed plain fresh
                      (kept handle entry s t freed refl refl refl v) (λ o' p. rw k at (o o' p)))
                | inr k ↦ rw k (
                    destroy_buffer-IsStaged d dev handle entry s tried plain fresh
                      (kept handle entry s t tried refl refl refl v) (λ o' p. rw k at (o o' p)))
              ]))
      ]

obtain_memory-allocated :
    (d : Driver) (dev : Device) (handle memory : ℕ) (t : State)
    → let reqs = d.requirements t.history Object.buffer handle in
      let c =
        Call.create Object.memory
          (reqs.size ∷ find_memory_type dev reqs.type_bits any_property ∷ []) in
      (memory == 0) ≡ true
      → is_success (d.result t.history c) ≡ true
      → obtain_memory d dev handle memory t ≡ (
        some (d.handle t.history c),
        record (call c t) { buffers = update own_memory handle t.buffers },
      )
unfolding obtain_memory
obtain_memory-allocated d dev handle memory t k q = rw (k, q) refl

module _ (d : Driver) (dev : Device) (new : MakesNewObjects d) (args : List ℕ) (s : State)
    (created : is_success (d.result s.history (Call.create Object.buffer args)) ≡ true) where
  abbrev creation : Call
  creation = Call.create Object.buffer args

  abbrev made : ℕ
  made = d.handle s.history creation

  abbrev staged : ℕ → State
  staged size = add_buffer made size none (call creation s)

  staged-IsStaged : (size : ℕ) → IsStaged made (new_buffer size none) s (staged size)
  unfolding add_buffer
  staged-IsStaged size = record {
    found = find-insert_self made (new_buffer size none) s.buffers;
    others = λ p n. ground (arith, find-insert made p (new_buffer size none) s.buffers, n);
    images = λ p. refl;
    committed = refl;
  }

  opened-unowned :
      (o : Object) (p memory : ℕ)
      → opened d o p (
          Call.destroy Object.buffer made
          ∷ Call.bind_buffer_memory made memory 0
          ∷ creation
          ∷ s.history)
        ≡ opened d o p s.history
  unfolding opened
  opened-unowned o p memory = opened-destroy_create d Object.buffer o args p s.history new created

  opened-owned :
      (o : Object) (p memory : ℕ) (args' : List ℕ)
      → let c = Call.create Object.memory args' in
        is_success (d.result (creation ∷ s.history) c) ≡ true
        → let m = d.handle (creation ∷ s.history) c in
          opened d o p (
            Call.destroy Object.buffer made
            ∷ Call.destroy Object.memory m
            ∷ Call.bind_buffer_memory made m 0
            ∷ c
            ∷ creation
            ∷ s.history)
          ≡ opened d o p s.history
  unfolding opened
  opened-owned o p memory args' q = opened-give_back d o args args' p s.history new created q

  opened-refused :
      (o : Object) (p : ℕ) (args' : List ℕ)
      → let c = Call.create Object.memory args' in
        is_success (d.result (creation ∷ s.history) c) ≡ false
        → opened d o p (Call.destroy Object.buffer made ∷ c ∷ creation ∷ s.history)
          ≡ opened d o p s.history
  unfolding opened
  opened-refused o p args' q =
      rw (opened-failed d Object.memory o args' p (creation ∷ s.history) q)
        (opened-destroy_create d Object.buffer o args p s.history new created)

  give_memory-IsBalanced :
      (fresh : find made s.buffers ≡ none) (size memory : ℕ)
      → let r = give_memory d dev made memory (staged size) in IsBalanced d dev s r.0 r.1
  unfolding give_memory obtain_memory bind_obtained IsBalanced add_buffer
  give_memory-IsBalanced fresh size memory =
      let t = staged size in
      let entry = new_buffer size none in
      let v = staged-IsStaged size in
      let reqs = d.requirements t.history Object.buffer made in
      let args' = reqs.size ∷ find_memory_type dev reqs.type_bits any_property ∷ [] in
      let c = Call.create Object.memory args' in
      let owned : State = record (call c t) { buffers = update own_memory made t.buffers } in
      elim (Bool-cases (memory == 0)) [
        | inr k ↦
            rw (k, give_memory, obtain_memory)
              (bind_staging-IsBalanced d dev made s fresh entry memory memory t refl (sym k) v
                (λ o p. rw k (opened-unowned o p memory)))
        | inl k ↦ elim (Bool-cases (is_success (d.result t.history c))) [
          | inl q ↦
              subst (λ x. HasBalance d dev s (bind_obtained d dev made memory x))
                (sym (obtain_memory-allocated d dev made memory t k q))
                (bind_staging-IsBalanced d dev made s fresh (own_memory entry) memory
                  (d.handle t.history c) owned refl (sym k)
                  (update-IsStaged own_memory made entry s t owned refl refl refl v)
                  (λ o p. rw k (opened-owned o p memory args' q)))
          | inr q ↦
              rw (k, q, give_memory, obtain_memory)
                (destroy_buffer-IsStaged d dev made entry s (call c t) refl fresh
                  (kept made entry s t (call c t) refl refl refl v)
                  (λ o p. opened-refused o p args' q))
        ]
      ]

-- Without sparse flags
not_sparse : (dev : Device) → is_sparse dev 0 ≡ false
not_sparse dev = ground arith

module _ (d : Driver) (env : Option ℕ) (submit : (History → History) → History → VkResult × History)
    (new : MakesNewObjects d) (dev : Device) where
  create_buffer-made :
      (size usage : ℕ) (s : State)
      → let c = Call.create Object.buffer (0 ∷ size ∷ usage ∷ []) in
        let handle = d.handle s.history c in
        is_success (d.result s.history c) ≡ true
        → create_buffer d env submit (some dev) 0 size usage s
          ≡ (VkResult.success, handle, add_buffer handle size none (call c s))
  unfolding create_buffer finish_buffer
  create_buffer-made size usage s e = rw (not_sparse dev, e) refl

  create_buffer-refused :
      (size usage : ℕ) (s : State)
      → let c = Call.create Object.buffer (0 ∷ size ∷ usage ∷ []) in
        is_success (d.result s.history c) ≡ false
        → create_buffer d env submit (some dev) 0 size usage s ≡ (d.result s.history c, 0, call c s)
  unfolding create_buffer
  create_buffer-refused size usage s e = rw (not_sparse dev, e) refl

  -- CreateStagingBuffer, whichever call of the driver fails and whether it is given memory or
  -- allocates it, leaves nothing behind when it answers nullptr; and when it answers a buffer,
  -- the loop of Cleanup takes back what it left: the buffer, its map entry and the memory that it
  -- owns, and nothing else.
  pub create_staging_buffer-IsBalanced :
      (size usage memory : ℕ) (s : State)
      → IsTracked d s
      → let r = create_staging_buffer d dev env submit size usage memory s in
        IsBalanced d dev s r.0 r.1
  unfolding create_staging_buffer stage IsBalanced
  create_staging_buffer-IsBalanced size usage memory s v =
      let size' = round_up size in
      let args = 0 ∷ size' ∷ usage ∷ [] in
      let c = Call.create Object.buffer args in
      let handle = d.handle s.history c in
      elim (Bool-cases (is_success (d.result s.history c))) [
        | inr e ↦
            subst (λ x. HasBalance d dev s (stage d dev memory x))
              (sym (create_buffer-refused size' usage s e))
              (rw (e, stage) (not_created-Same d Object.buffer args s e))
        | inl e ↦
            subst (λ x. HasBalance d dev s (stage d dev memory x))
              (sym (create_buffer-made size' usage s e))
              (rw ((staged-IsStaged d dev new args s e size').found) (
                give_memory-IsBalanced d dev new args s e
                  (holds-none handle s.buffers
                    (v.buffers handle ∙ (new s.history Object.buffer args e).1))
                  size' memory))
      ]
