-- ===== src/Memory/Choice.antt =====
-- src/buffer.cpp: the type that `FindMemoryType` picks is one that the resource allows, if the
-- device has one.
use compat_layer.Prelude.{
  ℕ, ◌+◌, ◌≤◌, ◌<◌, length, ◌≡◌, ◌⊎◌, inl, inr, subst, true, ◌&&◌, List, [], ◌∷◌, some, get_elem?,
  Bool-cases, arith, zero, suc,
}
use compat_layer.Device.{Device}
use compat_layer.Memory.{has_bit, meets, find_type, find_memory_type}

-- Type `i + k` is allowed and has one of the properties.
abbrev Serves : (type_bits required i k : ℕ) → List ℕ → Type 0
Serves type_bits required i k types =
    (flags : ℕ) × (get_elem? types k ≡ some flags)
    × ((has_bit type_bits (i + k) && meets 32 flags required) ≡ true)

find_type-allowed :
    (type_bits required i k : ℕ) (types : List ℕ) (otherwise : ℕ)
    → Serves type_bits required i k types
    → has_bit type_bits (find_type type_bits required i types otherwise) ≡ true
unfolding find_type
find_type-allowed type_bits required i k [] otherwise s = ground (arith, s.1)
find_type-allowed type_bits required i zero (flags ∷ types) otherwise (f, q, e') =
    ground (arith, q, e')
find_type-allowed type_bits required i (suc k) (flags ∷ types) otherwise (f, q, e') =
    elim (Bool-cases (has_bit type_bits i && meets 32 flags required)) [
      | inl e ↦ rw (e, find_type) (ground (arith, e))
      | inr e ↦
          rw (e, find_type)
            (find_type-allowed type_bits required (i + 1) k types otherwise (f, q, moved))
    ]
  where
    moved : (has_bit type_bits (i + 1 + k) && meets 32 f required) ≡ true
    moved =
        subst (λ n. (has_bit type_bits n && meets 32 f required) ≡ true) {x = i + suc k}
          (omega arith) e'

-- If the device's own memory type is allowed, or another that has one of the properties asked
-- for, then the type picked is allowed.
pub find_memory_type-allowed :
    (dev : Device) (type_bits required : ℕ)
    → (has_bit type_bits dev.memory_index ≡ true)
      ⊎ ((k : ℕ) × Serves type_bits required 0 k dev.memory_types)
    → has_bit type_bits (find_memory_type dev type_bits required) ≡ true
unfolding find_memory_type
find_memory_type-allowed dev type_bits required h =
    elim (Bool-cases (has_bit type_bits dev.memory_index)) [
      | inl e ↦ rw (e, find_memory_type) e
      | inr e ↦
          rw (e, find_memory_type)
            (elim h [
              | inl e' ↦ ground (arith, e, e')
              | inr (k, s) ↦
                  find_type-allowed type_bits required 0 k dev.memory_types dev.memory_index s
            ])
    ]

-- The type picked is the device's own or one that it has.
pub find_type-lt :
    (type_bits required i : ℕ) (types : List ℕ) (otherwise bound : ℕ)
    → i + length types ≤ bound
    → otherwise < bound
    → find_type type_bits required i types otherwise < bound
unfolding find_type
find_type-lt type_bits required i [] otherwise bound h k = k
find_type-lt type_bits required i (flags ∷ types) otherwise bound h k =
    ground (arith, find_type-lt type_bits required (i + 1) types otherwise bound)

pub find_memory_type-lt :
    (dev : Device) (type_bits required bound : ℕ)
    → length dev.memory_types ≤ bound
    → dev.memory_index < bound
    → find_memory_type dev type_bits required < bound
unfolding find_memory_type
find_memory_type-lt dev type_bits required bound h k = ground (
  arith,
  find_type-lt type_bits required 0 dev.memory_types dev.memory_index bound (omega arith) k,
)
