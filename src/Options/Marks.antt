-- ===== src/Options/Marks.antt =====
-- The water marks that the constructor computes (src/kvcache.cpp).
use kvcache.Base.{ℕ, ◌+◌, ◌≤◌, ◌≡◌, refl, arith, min}
use kvcache.Base.Int.{ℤ, pos, negsuc, pos_part}
use kvcache.Options.{Floats, Options, water_marks, min_int}

module _ (fl : Floats) where
  open fl use {int_product}

  min_int-pos_part : (m : ℕ) (z : ℤ) → pos_part (min_int m z) ≡ min m (pos_part z)
  min_int-pos_part m (pos n) = refl
  min_int-pos_part m (negsuc n) = omega arith

  -- Whatever the options say: the limits are at least 1 and 11 and 10 apart, and each mark keeps to its
  -- limit.
  pub water_marks-ordered :
      (o : Options fl) (nr_blocks : ℕ)
      → (1 ≤ (water_marks fl o nr_blocks).low_min)
        × ((water_marks fl o nr_blocks).low_min + 10 ≤ (water_marks fl o nr_blocks).high_max)
        × ((water_marks fl o nr_blocks).low_min ≤ (water_marks fl o nr_blocks).low)
        × (pos_part (water_marks fl o nr_blocks).high ≤ (water_marks fl o nr_blocks).high_max)
  unfolding water_marks
  water_marks-ordered o nr_blocks =
      let high =
        min_int-pos_part (water_marks fl o nr_blocks).high_max
          (int_product o.free_block_water_mark_high nr_blocks) in
      (omega arith, omega arith, omega arith, omega (arith, high))
