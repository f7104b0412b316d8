-- ===== src/Resources/Staging/Give.antt =====
-- src/buffer.cpp: what a staging buffer changes, and that destroying it takes this back.
use compat_layer.Prelude.{
  ℕ, ◌≡◌, refl, ap, ◌∙◌, true, false, Bool, List, ◌∷◌, none, some, Dict, find, insert, find-insert,
  find-insert_self, find-erase, ◌==◌, if◌then◌else◌, Bool-cases, inl, inr, arith,
}
use compat_layer.Device.{Device}
use compat_layer.Driver.{Driver, History, Call, Object, is_success}
use compat_layer.Driver.Objects.{MakesNewObjects, opened, is_it}
use compat_layer.Resources.{State, Buffer, call, set_memory}
use compat_layer.Resources.Balance.{Same}
use compat_layer.Resources.RoundTrip.{opened-destroy_both}
use compat_layer.Resources.Shadow.{destroy_sparse}
use compat_layer.Resources.Buffers.{destroy_buffer}
use compat_layer.Resources.Staging.{update, drop_staging_buffer}

-- The second state is the first with one more buffer in the map.
pub record IsStaged (handle : ℕ) (entry : Buffer) (s t : State) : Type 0 where
  pub found : find handle t.buffers ≡ some entry
  pub others : (p : ℕ) → (handle == p) ≡ false → find p t.buffers ≡ find p s.buffers
  pub images : (p : ℕ) → find p t.images ≡ find p s.images
  pub committed : t.committed ≡ s.committed

find-insert_other :
    (k j : ℕ) (v : Buffer) (m : Dict Buffer) → (k == j) ≡ false → find j (insert k v m) ≡ find j m
find-insert_other k j v m e = ground (arith, find-insert k j v m, e)

update-found :
    (f : Buffer → Buffer) (handle : ℕ) (m : Dict Buffer) (b : Buffer)
    → find handle m ≡ some b
    → update f handle m ≡ insert handle (f b) m
unfolding update
update-found f handle m b e = rw (e, update) refl

pub set_memory-update :
    (handle memory offset : ℕ) (m : Dict Buffer)
    → set_memory handle memory offset m
      ≡ update (λ b. record b { memory = memory; offset = offset }) handle m
unfolding update set_memory
set_memory-update handle memory offset m = refl

pub update-IsStaged :
    (f : Buffer → Buffer) (handle : ℕ) (entry : Buffer) (s t t' : State)
    → t'.buffers ≡ update f handle t.buffers
    → t'.images ≡ t.images
    → t'.committed ≡ t.committed
    → IsStaged handle entry s t
    → IsStaged handle (f entry) s t'
update-IsStaged f handle entry s t t' b i c v =
    let same : t'.buffers ≡ insert handle (f entry) t.buffers =
      b ∙ update-found f handle t.buffers entry v.found in
    record {
      found = ap (find handle) same ∙ find-insert_self handle (f entry) t.buffers;
      others =
          λ p n. ap (find p) same ∙ find-insert_other handle p (f entry) t.buffers n ∙ v.others p n;
      images = λ p. ap (find p) i ∙ v.images p;
      committed = c ∙ v.committed;
    }

module _ (d : Driver) (dev : Device) where
  pub destroy_buffer-IsStaged :
      (handle : ℕ) (entry : Buffer) (s t : State)
      → entry.sparse ≡ none
      → find handle s.buffers ≡ none
      → IsStaged handle entry s t
      → ((o : Object) (p : ℕ)
          → opened d o p (Call.destroy Object.buffer handle ∷ t.history) ≡ opened d o p s.history)
      → Same d s (destroy_buffer (some dev) handle t)
  unfolding destroy_buffer destroy_sparse
  destroy_buffer-IsStaged handle entry s t plain new v o =
      rw (v.found, destroy_buffer)
        (rw (plain, destroy_sparse)
          (record {
            buffers = λ p. elim (Bool-cases (handle == p)) [
              | inl e ↦
                  let same : handle ≡ p = ground (arith, e) in
                  ground
                    (arith, find-erase handle p t.buffers, e, ap (λ x. find x s.buffers) same, new)
              | inr e ↦ ground (arith, find-erase handle p t.buffers, e, v.others p e)
            ];
            images = v.images;
            committed = v.committed;
            open_objects = o;
          }))

  -- The memory that a buffer owns is freed with it.
  pub drop_staging_buffer-IsStaged :
      (handle : ℕ) (entry : Buffer) (s t : State)
      → entry.sparse ≡ none
      → find handle s.buffers ≡ none
      → IsStaged handle entry s t
      → ((o : Object) (p : ℕ)
          → opened d o p (
              Call.destroy Object.buffer handle
              ∷ (if entry.owns_memory
                  then Call.destroy Object.memory entry.memory ∷ t.history
                  else t.history))
            ≡ opened d o p s.history)
      → Same d s (drop_staging_buffer dev handle t)
  unfolding drop_staging_buffer
  drop_staging_buffer-IsStaged handle entry s t plain new v =
      rw (v.found, drop_staging_buffer)
        (elim (Bool-cases entry.owns_memory) [
          | inl e ↦ rw e (λ o. destroy_buffer-IsStaged handle entry s _ plain new (freed v) o)
          | inr e ↦ rw e (λ o. destroy_buffer-IsStaged handle entry s t plain new v o)
        ])
    where
      freed :
          IsStaged handle entry s t
          → IsStaged handle entry s (call (Call.destroy Object.memory entry.memory) t)
      freed v = record {
        found = v.found;
        others = v.others;
        images = v.images;
        committed = v.committed;
      }

if-swap :
    (a b : Bool) (n : ℕ)
    → (if a then 0 else (if b then 0 else n)) ≡ (if b then 0 else (if a then 0 else n))
if-swap true true n = refl
if-swap true false n = refl
if-swap false true n = refl
if-swap false false n = refl

-- A buffer and memory are made, and given back in the other order.
pub opened-give_back :
    (d : Driver) (o : Object) (args1 args2 : List ℕ) (p : ℕ) (h : History)
    → MakesNewObjects d
    → let c1 = Call.create Object.buffer args1 in
      let c2 = Call.create Object.memory args2 in
      is_success (d.result h c1) ≡ true
      → is_success (d.result (c1 ∷ h) c2) ≡ true
      → opened d o p (
          Call.destroy Object.buffer (d.handle h c1)
          ∷ Call.destroy Object.memory (d.handle (c1 ∷ h) c2)
          ∷ c2
          ∷ c1
          ∷ h)
        ≡ opened d o p h
unfolding opened
opened-give_back d o args1 args2 p h new e1 e2 =
    if-swap (is_it Object.buffer _ o p) (is_it Object.memory _ o p) _
    ∙ opened-destroy_both d new Object.buffer Object.memory o args1 args2 p h refl e1 e2
