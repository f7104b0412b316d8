-- ===== src/Memory.antt =====
-- src/buffer.cpp: `FindMemoryType`. A set of types, or of properties, is its bit mask.
pub mod Choice
mod Tests
use compat_layer.Prelude.{
  ℕ, zero, suc, ◌+◌, ◌-◌, ◌*◌, ◌/◌, ◌%◌, ◌^◌, Bool, true, false, ◌&&◌, ◌||◌, List, [], ◌∷◌, ◌==◌,
  if◌then◌else◌,
}
use compat_layer.Device.{Device}

abbrev pub has_bit : ℕ → ℕ → Bool
has_bit mask i = (mask / 2 ^ i) % 2 == 1

-- `a & b` is not 0, in the lowest bits.
pub meets : (bits a b : ℕ) → Bool
meets zero a b = false
meets (suc n) a b = has_bit a n && has_bit b n || meets n a b

-- The loop, from type `i` on.
pub find_type : (type_bits required i : ℕ) → List ℕ → (otherwise : ℕ) → ℕ
find_type type_bits required i [] otherwise = otherwise
find_type type_bits required i (flags ∷ rest) otherwise =
    let later = find_type type_bits required (i + 1) rest otherwise in
    if has_bit type_bits i && meets 32 flags required then i else later

pub find_memory_type : Device → (type_bits required : ℕ) → ℕ
find_memory_type dev type_bits required =
    if has_bit type_bits dev.memory_index
    then dev.memory_index
    else find_type type_bits required 0 dev.memory_types dev.memory_index

-- VK_MEMORY_PROPERTY_FLAG_BITS_MAX_ENUM, the default of `required`, and HOST_VISIBLE
abbrev pub any_property : ℕ
any_property = 2 ^ 31 - 1

abbrev pub host_visible : ℕ
host_visible = 2
