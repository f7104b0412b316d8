-- ===== src/Profile/Reported.antt =====
-- src/spoof_profile.cpp: every feature of the profile is reported.
use compat_layer.Prelude.{ℕ, ◌≡◌, true, List, [], ◌∷◌, All, ◌==◌, arith}
use compat_layer.Profile.{Struct, Node, as_rows, spoof_struct, spoof_next_features}

spoof_struct-one :
    (table : List (ℕ × ℕ)) (t : ℕ) (st : Struct) (o : ℕ)
    → st o ≡ 1
    → spoof_struct (as_rows table) t st o ≡ 1
unfolding spoof_struct
spoof_struct-one [] t st o e = e
spoof_struct-one ((t', o') ∷ rows) t st o e = spoof_struct-one rows t _ o (ground (arith, e))

spoof_struct-reported :
    (table : List (ℕ × ℕ)) (t : ℕ) (st : Struct)
    → All (λ row. (t == row.0) ≡ true → spoof_struct (as_rows table) t st row.1 ≡ 1) table
unfolding spoof_struct
spoof_struct-reported [] t st = tt
spoof_struct-reported ((t', o) ∷ rows) t st =
    (λ k. spoof_struct-one rows t _ o (ground (arith, k)), spoof_struct-reported rows t _)

abbrev pub IsReported : List (ℕ × ℕ) → Node → Type 0
IsReported table n = All (λ row. (n.s_type == row.0) ≡ true → n.fields row.1 ≡ 1) table

-- Whatever the driver answered, each feature of the table for the pNext chain is reported in each
-- structure of the chain that has it.
pub spoof_next_features-IsReported :
    (table : List (ℕ × ℕ)) (ns : List Node) → All (IsReported table) (spoof_next_features table ns)
unfolding spoof_next_features
spoof_next_features-IsReported table [] = tt
spoof_next_features-IsReported table (n ∷ ns) =
    (spoof_struct-reported table n.s_type n.fields, spoof_next_features-IsReported table ns)
