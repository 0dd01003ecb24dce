-- ===== src/Lists/Count.antt =====
-- How often a slab stands on a list.
use kvcache.Base.{ℕ, ◌+◌, ◌-◌, ◌<◌, ◌≡◌, List, [], ◌∷◌, some, arith, ◌==◌, if◌then◌else◌}
use kvcache.State.{list_del, first_entry}

unfoldable pub count : ℕ → List ℕ → ℕ
count q [] = 0
count q (x ∷ xs) = (if x == q then 1 else 0) + count q xs

pub count-list_del :
    (d q : ℕ) (xs : List ℕ)
    → count q (list_del d xs) ≡ (if d == q then count q xs - 1 else count q xs)
unfolding count list_del
count-list_del d q [] = ground arith
count-list_del d q (x ∷ xs) = ground (arith, count-list_del d q xs)

pub first_entry-count : (m : ℕ) (xs : List ℕ) → first_entry xs ≡ some m → 0 < count m xs
unfolding count first_entry
first_entry-count m [] p = cc
first_entry-count m (x ∷ xs) p = ground arith
