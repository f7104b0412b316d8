-- ===== src/Driver/Objects.antt =====
-- Which objects of the driver are open after a history: created and not yet given back.
use compat_layer.Prelude.{
  ℕ, ◌≡◌, ◌≢◌, ◌≤◌, refl, sym, ap, ◌∙◌, get_or, true, false, Bool, ◌&&◌, List, ◌∷◌, [], ◌==◌,
  if◌then◌else◌, arith,
}
use compat_layer.Driver.{Driver, History, Call, Object, is_success}

abbrev pub number : Object → ℕ
number Object.buffer = 0
number Object.buffer_view = 1
number Object.image = 2
number Object.image_view = 3
number Object.memory = 4
number Object.sampler = 5
number Object.conversion = 6
number Object.fence = 7
number Object.semaphore = 8
number Object.command_pool = 9
number Object.query_pool = 10

abbrev pub is_it : Object → ℕ → Object → ℕ → Bool
is_it o p o' p' = number o == number o' && p == p'

unfoldable pub opened : Driver → Object → ℕ → History → ℕ
opened d o p [] = 0
opened d o p (Call.create o' args ∷ h) =
    let before = opened d o p h in
    if is_success (d.result h (Call.create o' args))
    then if is_it o' (d.handle h (Call.create o' args)) o p then 1 else before
    else before
opened d o p (Call.destroy o' p' ∷ h) =
    let before = opened d o p h in if is_it o' p' o p then 0 else before
opened d o p (_ ∷ h) = opened d o p h

-- What the Vulkan specification says of an object that is created: it has a handle, and not the
-- handle of an object of its kind that is open.
abbrev pub MakesNewObjects : Driver → Type 0
MakesNewObjects d =
    (h : History) (o : Object) (args : List ℕ)
    → is_success (d.result h (Call.create o args)) ≡ true
    → (d.handle h (Call.create o args) ≢ 0) × (opened d o (d.handle h (Call.create o args)) h ≡ 0)

-- The driver never fails to create an object, and gives it a handle.
abbrev pub Supplies : Driver → Type 0
Supplies d =
    (h : History) (o : Object) (args : List ℕ)
    → (is_success (d.result h (Call.create o args)) ≡ true) × (d.handle h (Call.create o args) ≢ 0)

-- A handle names at most one open object of a kind.
pub opened-le : (d : Driver) (o : Object) (p : ℕ) (h : History) → opened d o p h ≤ 1
unfolding opened
opened-le d o p [] = omega arith
opened-le d o p (Call.create o' args ∷ h) = ground (arith, opened-le d o p h)
opened-le d o p (Call.destroy o' q ∷ h) = ground (arith, opened-le d o p h)
opened-le d o p (_ ∷ h) = opened-le d o p h

objects : List Object
objects =
    Object.buffer ∷ Object.buffer_view ∷ Object.image ∷ Object.image_view ∷ Object.memory
    ∷ Object.sampler ∷ Object.conversion ∷ Object.fence ∷ Object.semaphore ∷ Object.command_pool
    ∷ Object.query_pool ∷ []

of_number : ℕ → Object
of_number n = get_or objects n Object.buffer

of_number-number : (o : Object) → of_number (number o) ≡ o
unfolding of_number objects
of_number-number Object.buffer = refl
of_number-number Object.buffer_view = refl
of_number-number Object.image = refl
of_number-number Object.image_view = refl
of_number-number Object.memory = refl
of_number-number Object.sampler = refl
of_number-number Object.conversion = refl
of_number-number Object.fence = refl
of_number-number Object.semaphore = refl
of_number-number Object.command_pool = refl
of_number-number Object.query_pool = refl

pub number-injective : (o o' : Object) → number o ≡ number o' → o ≡ o'
number-injective o o' e = sym (of_number-number o) ∙ ap of_number e ∙ of_number-number o'

is_it-both : (o o' : Object) (p p' : ℕ) → is_it o' p' o p ≡ true → (number o ≡ number o') × (p ≡ p')
is_it-both o o' p p' e = ground (arith, e)

pub opened-is_it :
    (d : Driver) (o o' : Object) (p p' : ℕ) (h : History)
    → is_it o' p' o p ≡ true
    → opened d o p h ≡ opened d o' p' h
opened-is_it d o o' p p' h e =
    let (k, q) = is_it-both o o' p p' e in
    ap (λ x. opened d x p h) (number-injective o o' k) ∙ ap (λ x. opened d o' x h) q

module _ (d : Driver) (o o' : Object) (p : ℕ) (h : History) where
  -- Objects of another kind do not matter.
  pub opened-create_other :
      (args : List ℕ)
      → (number o' == number o) ≡ false
      → opened d o p (Call.create o' args ∷ h) ≡ opened d o p h
  unfolding opened
  opened-create_other args e = ground (arith, e)

  pub opened-destroy_other :
      (p' : ℕ)
      → (number o' == number o) ≡ false
      → opened d o p (Call.destroy o' p' ∷ h) ≡ opened d o p h
  unfolding opened
  opened-destroy_other p' e = ground (arith, e)
