-- ===== src/Pool/Sized.antt =====
-- The pool of over-provisioned slabs after `slab_init`, and where slabs are given back to it
-- (src/kvcache.cpp).
use kvcache.Base.{
  ℕ, zero, suc, ◌+◌, ◌-◌, ◌<◌, ◌≤◌, ◌≡◌, ◌∙◌, refl, ap, Bool-cases, true, false, List, [], ◌∷◌,
  Option-cases, some, arith, length, ltb, ◌==◌, update, inl, inr,
}
use kvcache.Index.{Index}
use kvcache.State.{Config, Cache, Ring, empty_ring, push, channel_id}
use kvcache.Lists.{count}
use kvcache.Init.{blank, init_slab, free_mslabs, place_block, place_blocks, slab_init}
use kvcache.Pool.{pool_sum, check_ops_pool}

pool_sum_apart :
    (pool : ℕ → Ring) (channel n : ℕ) (r : Ring)
    → n ≤ channel
    → pool_sum (update pool channel r) n ≡ pool_sum pool n
unfolding pool_sum
pool_sum_apart pool channel zero r h = refl
pool_sum_apart pool channel (suc n) r h =
    let other : (channel == n) ≡ false = ground (arith, h) in
    rw (other, pool_sum_apart pool channel n r (omega (arith, h))) refl

-- A slab more on a list, and one more in the sum.
pool_sum-push :
    (pool : ℕ → Ring) (channel n d sum : ℕ)
    → channel < n
    → pool_sum pool n ≡ some sum
    → pool_sum (update pool channel (push d (pool channel))) n ≡ some (sum + 1)
unfolding pool_sum push
pool_sum-push pool channel zero d sum h e = absurd (omega (arith, h))
pool_sum-push pool channel (suc n) d sum h e =
    elim (Bool-cases (length (pool n).items == (pool n).size)) [
      | inr bad ↦ absurd (ground (arith, bad, e))
      | inl good ↦ elim (Option-cases (pool_sum pool n)) [
        | inl z ↦ absurd (ground (arith, good, z, e))
        | inr (rest, z) ↦
            let total : rest + (pool n).size ≡ sum = ground (arith, good, z, e) in
            elim (Bool-cases (channel == n)) [
              | inl y ↦
                  let at : channel ≡ n = ground (arith, y) in
                  let new : update pool channel (push d (pool channel)) n ≡ push d (pool n) =
                    rw y (ap (λ x. push d (pool x)) at) in
                  let apart =
                    pool_sum_apart pool channel n (push d (pool channel)) (omega (arith, at)) in
                  rw (new, apart, z) (ground (arith, good, total))
              | inr m ↦
                  let kept = pool_sum-push pool channel n d rest (ground (arith, h, m)) z in
                  rw (m, kept, good) (ap some (omega (arith, total)))
            ]
      ]
    ]

sum_of_check :
    {D : Type 0} (cfg : Config) (c : Cache D)
    → check_ops_pool cfg c ≡ true
    → pool_sum c.ops_pool cfg.nr_channels ≡ some c.ops_pool_size
unfolding check_ops_pool
sum_of_check cfg c h = elim (Option-cases (pool_sum c.ops_pool cfg.nr_channels)) [
  | inl z ↦ absurd (ground (arith, z, h))
  | inr (sum, z) ↦ z ∙ ap some (ground (arith, z, h))
]

check_of_sum :
    {D : Type 0} (cfg : Config) (c : Cache D)
    → pool_sum c.ops_pool cfg.nr_channels ≡ some c.ops_pool_size
    → check_ops_pool cfg c ≡ true
unfolding check_ops_pool
check_of_sum cfg c h = rw (check_ops_pool, h) (ground arith)

place_block-check_ops_pool :
    {D : Type 0} (cfg : Config) (ops_size sid b : ℕ) (c : Cache D)
    → channel_id cfg b < cfg.nr_channels
    → check_ops_pool cfg c ≡ true
    → check_ops_pool cfg (place_block cfg ops_size sid b c) ≡ true
unfolding place_block
place_block-check_ops_pool cfg ops_size sid b c below h =
    let channel = channel_id cfg b in
    let sum = sum_of_check cfg c h in
    let pushed = pool_sum-push c.ops_pool channel cfg.nr_channels sid c.ops_pool_size below sum in
    elim (Bool-cases (ltb (c.ops_pool channel).size ops_size)) [
      | inl y ↦ check_of_sum cfg (place_block cfg ops_size sid b c) (rw (place_block, y) pushed)
      | inr n ↦ check_of_sum cfg (place_block cfg ops_size sid b c) (rw (place_block, n) sum)
    ]

place_blocks-check_ops_pool :
    {D : Type 0} (cfg : Config) (ops_size : ℕ) (blocks : List ℕ) (sid : ℕ) (c : Cache D)
    → ((b : ℕ) → 0 < count b blocks → channel_id cfg b < cfg.nr_channels)
    → check_ops_pool cfg c ≡ true
    → check_ops_pool cfg (place_blocks cfg ops_size sid blocks c) ≡ true
unfolding place_blocks count
place_blocks-check_ops_pool cfg ops_size [] sid c below h = h
place_blocks-check_ops_pool cfg ops_size (b ∷ bs) sid c below h =
    place_blocks-check_ops_pool cfg ops_size bs (sid + 1) (place_block cfg ops_size sid b c)
      (λ q i. below q (omega (arith, i)))
      (place_block-check_ops_pool cfg ops_size sid b c (below b (ground arith)) h)

empty_sum : (n : ℕ) → pool_sum (λ _. empty_ring) n ≡ some 0
unfolding pool_sum
empty_sum zero = refl
empty_sum (suc n) = rw (empty_sum n) (ground arith)

-- Where every block is in one of the channels, `check_ops_pool` holds after `slab_init` of a new cache: each
-- list of the pool has as many slabs as its size says, and the sizes add up to `ops_pool_size_`.
pub slab_init-check_ops_pool :
    {D : Type 0} (cfg : Config) (ops_size : ℕ) (blocks : List ℕ) (idx : Index) (disk : D)
    (low high : ℕ)
    → ((b : ℕ) → 0 < count b blocks → channel_id cfg b < cfg.nr_channels)
    → check_ops_pool cfg (slab_init cfg ops_size blocks (blank idx disk low high)) ≡ true
unfolding slab_init check_ops_pool
slab_init-check_ops_pool cfg ops_size blocks idx disk low high below =
    let new = blank idx disk low high in
    let start = record new {
      slabs = λ s. init_slab (new.slabs s) s;
      mslab_free = free_mslabs (cfg.nr_mslab - 1) new.mslab_free;
    } in
    place_blocks-check_ops_pool cfg ops_size blocks cfg.nr_mslab start below
      (check_of_sum cfg start (empty_sum cfg.nr_channels))
