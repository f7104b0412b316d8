-- ===== src/Formats/Tests.antt =====
-- Block shapes of three formats.
use compat_layer.Prelude.{◌≡◌, refl}
use compat_layer.Formats.{labels, is_one_of, switch, block_dimensions, texel_bytes, block_shape}

-- VK_FORMAT_R8G8B8A8_UNORM, VK_FORMAT_BC1_RGB_UNORM_BLOCK and VK_FORMAT_ASTC_12x10_SFLOAT_BLOCK
block_shape_rgba8 : block_shape 37 ≡ record { width = 128; height = 128; depth = 1 }
unfolding labels is_one_of switch block_dimensions texel_bytes block_shape
block_shape_rgba8 = refl

block_shape_bc1 : block_shape 131 ≡ record { width = 512; height = 256; depth = 1 }
unfolding labels is_one_of switch block_dimensions texel_bytes block_shape
block_shape_bc1 = refl

block_shape_astc : block_shape 1000066012 ≡ record { width = 768; height = 640; depth = 1 }
unfolding labels is_one_of switch block_dimensions texel_bytes block_shape
block_shape_astc = refl
