-- ===== src/Formats.antt =====
-- src/sparse_binding.cpp: `GetBlockDimensions`, `GetTexelBytes` and `GetBlockShape`. A format is
-- its number in `VkFormat`.
mod Tests
use compat_layer.Prelude.{
  ℕ, zero, suc, ◌+◌, ◌*◌, Bool, true, false, ◌&&◌, ◌||◌, List, [], ◌∷◌, ◌++◌, ◌==◌, leb,
  if◌then◌else◌,
}

-- `first, first + 1, …`, as many as the number says
pub labels : (first many : ℕ) → List ℕ
labels first zero = []
labels first (suc n) = first ∷ labels (first + 1) n

pub is_one_of : ℕ → List ℕ → Bool
is_one_of f [] = false
is_one_of f (label ∷ rest) = f == label || is_one_of f rest

-- A switch: the labels of each case beside its value, and the default.
pub switch {ℓ} : {A : Type ℓ} → ℕ → List (List ℕ × A) → A → A
switch f [] default = default
switch f (c ∷ cases) default = if is_one_of f c.0 then c.1 else switch f cases default

abbrev pub in_range : ℕ → ℕ → ℕ → Bool
in_range f first last = leb first f && leb f last

-- UNORM, SRGB and SFLOAT of the ASTC block sizes, in the order of `VkFormat`.
abbrev pub astc : ℕ → List ℕ
astc n = (157 + 2 * n) ∷ (158 + 2 * n) ∷ (1000066000 + n) ∷ []

abbrev pub astc_dimensions : List (List ℕ × (ℕ × ℕ))
astc_dimensions =
    (astc 0, (4, 4))
    ∷ (astc 1, (5, 4))
    ∷ (astc 2, (5, 5))
    ∷ (astc 3, (6, 5))
    ∷ (astc 4, (6, 6))
    ∷ (astc 5, (8, 5))
    ∷ (astc 6, (8, 6))
    ∷ (astc 7, (8, 8))
    ∷ (astc 8, (10, 5))
    ∷ (astc 9, (10, 6))
    ∷ (astc 10, (10, 8))
    ∷ (astc 11, (10, 10))
    ∷ (astc 12, (12, 10))
    ∷ (astc 13, (12, 12))
    ∷ []

-- BC1_RGB_UNORM to BC7_SRGB, and ETC2_R8G8B8_UNORM to EAC_R11G11_SNORM
pub block_dimensions : ℕ → ℕ × ℕ
block_dimensions f =
    switch f astc_dimensions (if in_range f 131 146 || in_range f 147 156 then (4, 4) else (1, 1))

-- R8 and S8
abbrev pub one_byte : List ℕ
one_byte = labels 9 7 ++ 127 ∷ []

-- R8G8, R16 and D16
abbrev pub two_bytes : List ℕ
two_bytes = labels 16 7 ++ labels 70 7 ++ 124 ∷ []

-- R8G8B8A8, B8G8R8A8, R16G16, R32, D32, D24_S8 and D32_S8
abbrev pub four_bytes : List ℕ
four_bytes = labels 37 7 ++ labels 44 7 ++ labels 77 7 ++ labels 98 3 ++ 126 ∷ 129 ∷ 130 ∷ []

-- R16G16B16A16, R32G32, R64, BC1, BC4, ETC2_R8G8B8, ETC2_R8G8B8A1 and EAC_R11
abbrev pub eight_bytes : List ℕ
eight_bytes =
    labels 91 7
    ++ labels 101 3
    ++ labels 110 3
    ++ labels 131 4
    ++ labels 139 2
    ++ labels 147 4
    ++ labels 153 2

-- R32G32B32A32, R64G64, BC2, BC3, BC5, BC6H, BC7, ETC2_R8G8B8A8 and EAC_R11G11
abbrev pub sixteen_bytes : List ℕ
sixteen_bytes =
    labels 107 3 ++ labels 113 3 ++ labels 135 4 ++ labels 141 6 ++ labels 151 2 ++ labels 155 2

abbrev pub bytes : List (List ℕ × ℕ)
bytes =
    (one_byte, 1) ∷ (two_bytes, 2) ∷ (four_bytes, 4) ∷ (eight_bytes, 8) ∷ (sixteen_bytes, 16) ∷ []

pub texel_bytes : ℕ → ℕ
texel_bytes f =
    if in_range f 157 184 || in_range f 1000066000 1000066013 then 16 else switch f bytes 4

pub record Extent : Type 0 where
  pub width : ℕ
  pub height : ℕ
  pub depth : ℕ

abbrev pub shapes : List (List ℕ × (ℕ × ℕ))
shapes =
    (1 ∷ [], (256, 256))
    ∷ (2 ∷ [], (256, 128))
    ∷ (4 ∷ [], (128, 128))
    ∷ (8 ∷ [], (128, 64))
    ∷ (16 ∷ [], (64, 64))
    ∷ []

pub block_shape : ℕ → Extent
block_shape f =
    let (width, height) = switch (texel_bytes f) shapes (128, 128) in
    let (block_width, block_height) = block_dimensions f in
    record { width = width * block_width; height = height * block_height; depth = 1 }
