-- ===== src/NullDescriptors/Key.antt =====
-- src/null_descriptors.hpp: `GetImageShapeKey`, the key of the cache of null images.
use Prim.Native.Nat.{bit_or, bit_or-bitwise, digits, max}
use compat_layer.Prelude.{
  ℕ, zero, suc, ◌+◌, ◌*◌, ◌/◌, ◌%◌, ◌^◌, ◌≤◌, ◌<◌, ◌≡◌, refl, sym, ap, ◌∙◌, arith,
}

-- The arithmetic is that of `uint64_t`.
pub get_image_shape_key : (view_type format samples : ℕ) → ℕ
get_image_shape_key view_type format samples =
    bit_or (bit_or (view_type * 2 ^ 44 % 2 ^ 64) (format * 2 ^ 8 % 2 ^ 64)) samples

abbrev or_digits : ℕ → ℕ → ℕ → ℕ
or_digits = digits (λ b. b) max

or_digits-zero : (n a : ℕ) → a ≤ n → or_digits n a 0 ≡ a
or_digits-zero zero a h = omega arith
or_digits-zero (suc n) zero h = refl
or_digits-zero (suc n) (suc a) h = omega (arith, or_digits-zero n (suc a / 2) (omega arith))

-- `x << k`
abbrev double : ℕ → ℕ → ℕ
double zero x = x
double (suc k) x = 2 * double k x

or_digits-double :
    (n a d b : ℕ)
    → a ≡ 2 * d
    → a ≤ n
    → ((m : ℕ) → d ≤ m → or_digits m d (b / 2) ≡ d + b / 2)
    → or_digits n a b ≡ a + b
or_digits-double zero a d b e h rec = omega arith
or_digits-double (suc n) zero d b e h rec = omega arith
or_digits-double (suc n) (suc a) d b e h rec =
    let half : suc a / 2 ≡ d = omega arith in
    omega (arith, ap (λ x. or_digits n x (b / 2)) half, rec n (omega arith))

or_digits-add :
    (k n x b : ℕ) → double k x ≤ n → b < double k 1 → or_digits n (double k x) b ≡ double k x + b
or_digits-add zero n x b h l = rw (zero_of b l) (or_digits-zero n x h ∙ omega arith)
  where
    zero_of : (b : ℕ) → b < 1 → b ≡ 0
    zero_of b l = omega arith
or_digits-add (suc k) n x b h l =
    or_digits-double n (double (suc k) x) (double k x) b refl h
      (λ m h'. or_digits-add k m x (b / 2) h' (omega arith))

bit_or-add : (k x b : ℕ) → b < double k 1 → bit_or (double k x) b ≡ double k x + b
bit_or-add k x b l =
    bit_or-bitwise (double k x) b ∙ or_digits-add k (double k x) x b (omega arith) l

key :
    (v f s : ℕ)
    → (v < 2 ^ 20) × (f < 2 ^ 36) × (s < 2 ^ 8)
    → get_image_shape_key v f s ≡ v * 2 ^ 44 + f * 2 ^ 8 + s
unfolding get_image_shape_key
key v f s (hv, hf, hs) =
    let view : v * 2 ^ 44 % 2 ^ 64 ≡ double 44 v = omega arith in
    let shape : f * 2 ^ 8 % 2 ^ 64 ≡ f * 2 ^ 8 = omega arith in
    let both : double 44 v + f * 2 ^ 8 ≡ double 8 (v * 2 ^ 36 + f) = omega arith in
    ap (λ a. bit_or (bit_or a (f * 2 ^ 8 % 2 ^ 64)) s) view
    ∙ ap (λ b. bit_or (bit_or (double 44 v) b) s) shape
    ∙ ap (λ a. bit_or a s) (bit_or-add 44 v (f * 2 ^ 8) (omega arith) ∙ both)
    ∙ bit_or-add 8 (v * 2 ^ 36 + f) s (omega arith)
    ∙ omega arith

-- Keys of different shapes are different, for view types below 2^20, formats below 2^36 and
-- sample counts below 2^8; those of Vulkan are.
pub get_image_shape_key-injective :
    (v f s v' f' s' : ℕ)
    → (v < 2 ^ 20) × (f < 2 ^ 36) × (s < 2 ^ 8)
    → (v' < 2 ^ 20) × (f' < 2 ^ 36) × (s' < 2 ^ 8)
    → get_image_shape_key v f s ≡ get_image_shape_key v' f' s'
    → (v ≡ v') × (f ≡ f') × (s ≡ s')
unfolding get_image_shape_key
get_image_shape_key-injective v f s v' f' s' h h' e =
    let q = sym (key v f s h) ∙ e ∙ key v' f' s' h' in (omega arith, omega arith, omega arith)
