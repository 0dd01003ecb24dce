-- ===== src/Init/Lists.antt =====
-- The lists of slabs after `slab_init` (src/kvcache.cpp).
use kvcache.Base.{
  ℕ, zero, suc, ◌+◌, ◌<◌, ◌≤◌, ◌≡◌, refl, ap, List, [], ◌∷◌, ◌++◌, none, some, arith, ltb, ◌==◌,
  if◌then◌else◌, update, Bool-cases, inl, inr,
}
use kvcache.Slab.{Slab}
use kvcache.State.{Config, Cache, empty_ring, push, channel_id}
use kvcache.Lists.{count, Placed}
use kvcache.Lists.Channels.{Spread, OnChannel, listed_block}
use kvcache.Lists.Channels.Give.{give_pool-Spread, give_free-Spread}
use kvcache.Init.{
  channel_blocks, iterate_channels, iterate_all_blocks, free_mslabs, place_block, place_blocks,
}

count-append : (b : ℕ) (xs ys : List ℕ) → count b (xs ++ ys) ≡ count b xs + count b ys
unfolding count
count-append b [] ys = omega arith
count-append b (x ∷ xs) ys = ground (arith, count-append b xs ys)

count-channel_blocks :
    (n i b : ℕ)
    → count b (channel_blocks n i) ≡ (if ltb b i then 0 else if ltb b (i + n) then 1 else 0)
unfolding count channel_blocks
count-channel_blocks zero i b = ground arith
count-channel_blocks (suc n) i b = ground (arith, count-channel_blocks n (i + 1) b)

iterate_channels_once :
    (p n i b : ℕ)
    → (count b (iterate_channels p n i) ≤ 1) × (b < i → count b (iterate_channels p n i) ≡ 0)
unfolding count iterate_channels
iterate_channels_once p zero i b = (omega arith, λ h. refl)
iterate_channels_once p (suc n) i b =
    let (once, below) = iterate_channels_once p n (i + p) b in
    let both = count-append b (channel_blocks p i) (iterate_channels p n (i + p)) in
    let first = count-channel_blocks p i b in
    (ground (arith, both, first, once, below), λ h. ground (arith, both, first, h, below))

-- On a device every block is visited once at most.
pub iterate_all_blocks_once : (cfg : Config) (b : ℕ) → count b (iterate_all_blocks cfg) ≤ 1
unfolding iterate_all_blocks
iterate_all_blocks_once cfg b = (iterate_channels_once cfg.blocks_per_channel cfg.nr_channels 0 b).0

pub count-free_mslabs :
    (n m : ℕ) → count m (free_mslabs n empty_ring).items ≡ (if ltb m n then 1 else 0)
unfolding count free_mslabs push
count-free_mslabs zero m = ground arith
count-free_mslabs (suc n) m = ground (arith, count-free_mslabs n m)

-- A slab that is on no list gets a block, and is in hand.
abbrev with_block : (ℕ → Slab) → ℕ → ℕ → ℕ → Slab
with_block slabs d b = update slabs d (record (slabs d) { block_id = some b })

module _ (cfg : Config) where
  kept_place :
      (slabs : ℕ → Slab) (d b x q : ℕ)
      → (slabs d).block_id ≡ none
      → OnChannel cfg slabs x q
      → OnChannel cfg (with_block slabs d b) x q
  kept_place slabs d b x q off (b', p, r) = (b', ground (arith, p, off), r)

  held-Spread :
      (slabs : ℕ → Slab) (free full pool extra : ℕ → List ℕ) (d b : ℕ)
      → Spread cfg slabs free full pool extra []
      → (slabs d).block_id ≡ none
      → Spread cfg (with_block slabs d b) free full pool extra (d ∷ [])
  unfolding count
  held-Spread slabs free full pool extra d b w off = record {
    once = λ x q. elim (Bool-cases (d == q)) [
      | inl y ↦
          elim (Bool-cases
            (ltb 0 (count q (free x) + count q (full x) + count q (pool x) + count q (extra x)))) [
              | inl on ↦
                  let (b', at) =
                    listed_block cfg slabs free full pool extra [] x q w (ground (arith, on)) in
                  absurd (ground (arith, at, off, y))
              | inr z ↦ ground (arith, z)
            ]
      | inr n ↦ ground (arith, n, w.once x q)
    ];
    free_dslab = λ x q h.
        let (p, z) = w.free_dslab x q h in (kept_place slabs d b x q off p, ground (arith, z));
    full_dslab = λ x q h. kept_place slabs d b x q off (w.full_dslab x q h);
    pool_dslab = λ x q h.
        let (p, z) = w.pool_dslab x q h in (kept_place slabs d b x q off p, ground (arith, z));
    extra_dslab = λ x q h. kept_place slabs d b x q off (w.extra_dslab x q h);
    held_dslab = λ q h. (b, ground (arith, h));
  }

-- Between two blocks: the slabs from `sid` on are not in use, and no block of `bs` is taken.
pub record Placing {D : Type 0} (cfg : Config) (c : Cache D) (sid : ℕ) (bs : List ℕ) : Type 0 where
  pub sids : (s : ℕ) → (c.slabs s).sid ≡ s
  pub unused : (s : ℕ) → (c.slabs s).nr_alloc ≡ 0
  pub start : cfg.nr_mslab ≤ sid
  pub memory : (s : ℕ) → s < cfg.nr_mslab → (c.slabs s).block_id ≡ none
  pub later : (s : ℕ) → sid ≤ s → (c.slabs s).block_id ≡ none
  pub taken : (s b : ℕ) → (c.slabs s).block_id ≡ some b → count b bs ≡ 0
  pub blocks : (s t b : ℕ) → (c.slabs s).block_id ≡ some b → (c.slabs t).block_id ≡ some b → s ≡ t
  pub placed : Placed cfg c (λ _. empty_ring) []

module _ {D : Type 0} (cfg : Config) (ops_size : ℕ) where
  place_block-Placed :
      (c : Cache D) (sid b : ℕ) (bs : List ℕ)
      → Placing cfg c sid (b ∷ bs)
      → Placed cfg (place_block cfg ops_size sid b c) (λ _. empty_ring) []
  unfolding place_block
  place_block-Placed c sid b bs p =
      let channel = channel_id cfg b in
      let w = held-Spread cfg c.slabs _ _ _ _ sid b p.placed (p.later sid (omega arith)) in
      let at : OnChannel cfg (with_block c.slabs sid b) channel sid = (b, ground arith, refl) in
      elim (Bool-cases (ltb (c.ops_pool channel).size ops_size)) [
        | inl y ↦
            rw (y, place_block)
              (give_pool-Spread cfg (with_block c.slabs sid b) _ _ _ _ [] _ channel sid w at
                (ground (arith, p.unused sid)) (λ x. unfold push in ground arith))
        | inr n ↦
            rw (n, place_block)
              (give_free-Spread cfg (with_block c.slabs sid b) _ _ _ _ [] _ channel sid w at
                (ground (arith, p.unused sid)) (λ x. unfold push in ground arith))
      ]

  place_block-slabs :
      (c : Cache D) (sid b : ℕ)
      → (place_block cfg ops_size sid b c).slabs ≡ with_block c.slabs sid b
  unfolding place_block
  place_block-slabs c sid b = ground arith

  place_block-Placing :
      (c : Cache D) (sid b : ℕ) (bs : List ℕ)
      → Placing cfg c sid (b ∷ bs)
      → count b bs ≡ 0
      → Placing cfg (place_block cfg ops_size sid b c) (sid + 1) bs
  unfolding count
  place_block-Placing c sid b bs p n =
      let e : (s : ℕ) → (place_block cfg ops_size sid b c).slabs s ≡ with_block c.slabs sid b s =
        λ s. ap (λ (f : ℕ → Slab). f s) (place_block-slabs c sid b) in
      let off = p.later sid (omega arith) in
      record {
        sids = λ s. ground (arith, e s, p.sids s);
        unused = λ s. ground (arith, e s, p.unused s);
        start = omega (arith, p.start);
        memory = λ s h. ground (arith, e s, h, p.memory s, p.start);
        later = λ s h. ground (arith, e s, h, p.later s);
        taken = λ s x q. ground (arith, e s, q, n, p.taken s x);
        blocks =
            λ s t x q r. ground (arith, e s, e t, q, r, p.blocks s t x, p.taken s b, p.taken t b);
        placed = place_block-Placed c sid b bs p;
      }

  pub place_blocks-Placing :
      (bs : List ℕ) (c : Cache D) (sid : ℕ)
      → Placing cfg c sid bs
      → ((b : ℕ) → count b bs ≤ 1)
      → (last : ℕ) × Placing cfg (place_blocks cfg ops_size sid bs c) last []
  unfolding place_blocks count
  place_blocks-Placing [] c sid p once = (sid, p)
  place_blocks-Placing (b ∷ bs) c sid p once =
      place_blocks-Placing bs (place_block cfg ops_size sid b c) (sid + 1)
        (place_block-Placing c sid b bs p (ground (arith, once b))) (λ x. omega (arith, once x))
