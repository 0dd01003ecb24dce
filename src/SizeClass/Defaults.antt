-- ===== src/SizeClass/Defaults.antt =====
-- The sizes of the default slab classes (src/kvcache.cpp).
use kvcache.Base.{ℕ, ◌≤◌, List, [], ◌∷◌}

-- The sizes lie between `low` and `high` and do not fall.
abbrev pub Climbs : ℕ → ℕ → List ℕ → Type 0
Climbs low high [] = Unit {0}
Climbs low high (x ∷ xs) = (low ≤ x) × (x ≤ high) × Climbs x high xs

-- The last of a list, or a default.
abbrev pub last_or : ℕ → List ℕ → ℕ
last_or d [] = d
last_or d (x ∷ xs) = last_or x xs
