-- ===== src/Allocator/Spare.antt =====
-- src/layer.cpp: how the number of pools with no set allocated follows from the map `occupancy`.
use compat_layer.Prelude.{
  ℕ, ◌+◌, ◌-◌, ◌<◌, ◌≡◌, refl, List, [], ◌∷◌, ◌++◌, find-insert, find-erase, insert, erase, Dict,
  count, erase_first, ◌==◌, if◌then◌else◌, arith,
}
use compat_layer.Allocator.{State, occupancy_of, release}
use compat_layer.Allocator.Free.{vacant}

-- The number of pools that stand by.
abbrev pub spare : State → ℕ
spare s = vacant s.exhausted_pools s.occupancy

pub vacant-append :
    (ps qs : List ℕ) (occ : Dict ℕ) → vacant (ps ++ qs) occ ≡ vacant ps occ + vacant qs occ
vacant-append [] qs occ = omega arith
vacant-append (p ∷ ps) qs occ = omega (arith, vacant-append ps qs occ)

pub vacant-erase_first :
    (p : ℕ) (ps : List ℕ) (occ : Dict ℕ)
    → 0 < count p ps
    → vacant (erase_first p ps) occ + (if occupancy_of p occ == 0 then 1 else 0) ≡ vacant ps occ
vacant-erase_first p [] occ h = absurd (omega arith)
vacant-erase_first p (q ∷ ps) occ h = ground (arith, vacant-erase_first p ps occ)

pub vacant_none :
    (ps : List ℕ) (occ : Dict ℕ)
    → ((p : ℕ) → 0 < count p ps → 0 < occupancy_of p occ)
    → vacant ps occ ≡ 0
vacant_none [] occ h = refl
vacant_none (p ∷ ps) occ h = ground (arith, h p, vacant_none ps occ (λ q k. h q (ground arith)))

-- Only the pools of the list matter.
pub vacant_congr :
    (ps : List ℕ) (a b : Dict ℕ)
    → ((p : ℕ) → 0 < count p ps → occupancy_of p a ≡ occupancy_of p b)
    → vacant ps a ≡ vacant ps b
vacant_congr [] a b h = refl
vacant_congr (p ∷ ps) a b h = ground (arith, h p, vacant_congr ps a b (λ q k. h q (ground arith)))

pub occupancy_of-insert :
    (k p n : ℕ) (occ : Dict ℕ)
    → occupancy_of p (insert k n occ) ≡ (if k == p then n else occupancy_of p occ)
unfolding occupancy_of
occupancy_of-insert k p n occ = ground (arith, find-insert k p n occ)

pub occupancy_of-erase :
    (k p : ℕ) (occ : Dict ℕ)
    → occupancy_of p (erase k occ) ≡ (if k == p then 0 else occupancy_of p occ)
unfolding occupancy_of
occupancy_of-erase k p occ = ground (arith, find-erase k p occ)

pub vacant-insert :
    (k n : ℕ) (ps : List ℕ) (occ : Dict ℕ)
    → 0 < occupancy_of k occ
    → vacant ps (insert k n occ) ≡ vacant ps occ + (if n == 0 then count k ps else 0)
vacant-insert k n [] occ h = ground arith
vacant-insert k n (p ∷ ps) occ h =
    ground (arith, vacant-insert k n ps occ h, occupancy_of-insert k p n occ)

pub release-insert :
    (pool : ℕ) (occ : Dict ℕ)
    → 0 < occupancy_of pool occ
    → release pool occ ≡ insert pool (occupancy_of pool occ - 1) occ
unfolding release occupancy_of
release-insert pool occ h = ground arith
