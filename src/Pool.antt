-- ===== src/Pool.antt =====
-- `check_ops_pool` of src/kvcache.cpp, which the code asserts: the over-provisioned pool and its counters agree.
pub mod Sized
use kvcache.Base.{
  ℕ, zero, suc, ◌+◌, Bool, true, false, Option, none, some, length, ◌==◌, if◌then◌else◌,
}
use mathlib.Core.Option.{map}
use kvcache.State.{Config, Cache, Ring}

-- The sum of the sizes of the first `n` lists; `none` where a list has not as many elements as its size says.
unfoldable pub pool_sum : (ℕ → Ring) → ℕ → Option ℕ
pool_sum pool zero = some 0
pool_sum pool (suc n) =
    let rest = pool_sum pool n in
    if length (pool n).items == (pool n).size
    then map (λ (sum : ℕ). sum + (pool n).size) rest
    else none

unfoldable pub check_ops_pool : {D : Type 0} → Config → Cache D → Bool
check_ops_pool cfg c = elim (pool_sum c.ops_pool cfg.nr_channels) [
  | none ↦ false
  | some sum ↦ sum == c.ops_pool_size
]
