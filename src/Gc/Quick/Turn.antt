-- ===== src/Gc/Quick/Turn.antt =====
-- A whole run of `do_quick_gc` (src/kvcache.cpp): reads, and the lists of disk slabs.
use kvcache.Base.{
  ℕ, zero, suc, ◌+◌, ◌<◌, ◌≡◌, refl, ap, subst, Bool, List, [], ◌∷◌, arith, update, inl,
}
use kvcache.Base.Int.{ℤ, pos, pos_part, ◌+ℤ◌}
use kvcache.Slab.{reset}
use kvcache.State.{Platform, Config, Cache, Ring, done, >>=-eq-done, done_injective, set_slab, push}
use kvcache.Reads.{Unreferenced}
use kvcache.Reads.Turn.{SameMemory}
use kvcache.Lists.{count, Placed}
use kvcache.Lists.Channels.{OnChannel, lose-Spread}
use kvcache.Lists.Channels.Give.{give_pool-Spread, give_free-Spread}
use kvcache.Gc.Quick.{
  select_to_drop, evict_all, refill_ops_pool, refill_free, do_quick_gc, quick_gc, raise_water_marks,
  channel_of,
}
use kvcache.Gc.Copy.Turn.{Collecting}
use kvcache.Gc.Normal.Merge.{Merged, same-Merged, stays}
use kvcache.Gc.Normal.Recycle.{recycled, reset_place, reset-Spread}
use kvcache.Gc.Quick.Drop.{
  nothing, after, select_to_drop-Merged, Lost, Lost-trans, Merged-Lost, evict_all-Evicts,
}

module _ (pf : Platform) (cfg : Config) where
  open pf use {Disk, hashing, read_block}

  -- No entry points to the slabs of `ds`.
  abbrev Cleared : Cache Disk → List ℕ → Type 0
  Cleared c ds = (d : ℕ) → 0 < count d ds → Unreferenced pf cfg c d

  -- A slab in hand is reset and goes on a list or nowhere.
  returned :
      (c c' : Cache Disk) (d : ℕ) (ds : List ℕ)
      → Collecting pf cfg c nothing (d ∷ ds)
      → Cleared c (d ∷ ds)
      → c'.index ≡ c.index
      → c'.slabs ≡ update c.slabs d (reset (c.slabs d))
      → c'.disk ≡ c.disk
      → SameMemory pf cfg c c'
      → Placed cfg c' nothing ds
      → Merged pf cfg c c' nothing ds × Cleared c' ds
  unfolding count
  returned c c' d ds s u idx slabs disk memory w =
      let here : 0 < count d (d ∷ ds) = ground arith in
      let (b, on) = s.placed.held_dslab d here in
      (
        recycled pf cfg c c' nothing nothing (d ∷ ds) ds d s (u d here) (λ z. ground (arith, z, on))
            idx slabs disk memory w (λ x q h. inl h),
        λ q h k e p at. u q (ground (arith, h)) k e (ground (arith, idx, p)) at,
      )

  -- The slab in hand is on the channel of its block, and has no slot in use once it is reset.
  own_channel :
      (c : Cache Disk) (d : ℕ) (ds : List ℕ)
      → Collecting pf cfg c nothing (d ∷ ds)
      → OnChannel cfg (update c.slabs d (reset (c.slabs d))) (channel_of cfg (c.slabs d)) d
  unfolding count
  own_channel c d ds s =
      let (b, on) = s.placed.held_dslab d (ground arith) in
      reset_place pf cfg c.slabs (channel_of cfg (c.slabs d)) d (b, on, ground (arith, on))

  pooled :
      (c : Cache Disk) (d : ℕ) (ds : List ℕ)
      → Collecting pf cfg c nothing (d ∷ ds)
      → Cleared c (d ∷ ds)
      → let channel = channel_of cfg (c.slabs d) in
        let c' = record c {
          slabs = update c.slabs d (reset (c.slabs d));
          ops_pool = update c.ops_pool channel (push d (c.ops_pool channel));
          ops_pool_size = c.ops_pool_size + 1;
        } in
        Merged pf cfg c c' nothing ds × Cleared c' ds
  pooled c d ds s u =
      let channel = channel_of cfg (c.slabs d) in
      let pool : ℕ → Ring = update c.ops_pool channel (push d (c.ops_pool channel)) in
      returned c _ d ds s u refl refl refl (record { free = refl; full = refl; partial = refl })
        (give_pool-Spread cfg (update c.slabs d (reset (c.slabs d))) _ _ _ _ ds
          (λ x. (pool x).items) channel d (reset-Spread pf cfg c.slabs _ _ _ _ (d ∷ ds) d s.placed)
          (own_channel c d ds s) (unfold reset in ground arith) (λ x. unfold push in ground arith))

  freed :
      (c : Cache Disk) (d : ℕ) (ds : List ℕ)
      → Collecting pf cfg c nothing (d ∷ ds)
      → Cleared c (d ∷ ds)
      → let channel = channel_of cfg (c.slabs d) in
        let c' = record c {
          slabs = update c.slabs d (reset (c.slabs d));
          dslab_free = update c.dslab_free channel (push d (c.dslab_free channel));
          nr_free_dslab = c.nr_free_dslab + 1;
        } in
        Merged pf cfg c c' nothing ds × Cleared c' ds
  freed c d ds s u =
      let channel = channel_of cfg (c.slabs d) in
      let free : ℕ → Ring = update c.dslab_free channel (push d (c.dslab_free channel)) in
      returned c _ d ds s u refl refl refl (record { free = refl; full = refl; partial = refl })
        (give_free-Spread cfg (update c.slabs d (reset (c.slabs d))) _ _ _ _ ds
          (λ x. (free x).items) channel d (reset-Spread pf cfg c.slabs _ _ _ _ (d ∷ ds) d s.placed)
          (own_channel c d ds s) (unfold reset in ground arith) (λ x. unfold push in ground arith))

  refill_ops_pool-Merged :
      (ds : List ℕ) (c : Cache Disk) (n : ℕ)
      → Collecting pf cfg c nothing ds
      → Cleared c ds
      → let r = refill_ops_pool pf cfg c n ds in Merged pf cfg c r.0 nothing r.1 × Cleared r.0 r.1
  unfolding refill_ops_pool
  refill_ops_pool-Merged [] c n s u = (stays pf cfg c c nothing nothing [] s refl, u)
  refill_ops_pool-Merged (d ∷ ds) c zero s u =
      returned c (set_slab c d (reset (c.slabs d))) d ds s u refl refl refl
        (record { free = refl; full = refl; partial = refl })
        (lose-Spread cfg (update c.slabs d (reset (c.slabs d))) _ _ _ _ ds d
          (reset-Spread pf cfg c.slabs _ _ _ _ (d ∷ ds) d s.placed))
  refill_ops_pool-Merged (d ∷ ds) c (suc n) s u =
      let (first, clear) = pooled c d ds s u in
      let (rest, clear') = refill_ops_pool-Merged ds _ n first.state clear in
      (after pf cfg c _ _ ds _ first rest, clear')

  refill_free-Merged :
      (ds : List ℕ) (c : Cache Disk)
      → Collecting pf cfg c nothing ds
      → Cleared c ds
      → Merged pf cfg c (refill_free pf cfg c ds) nothing []
  unfolding refill_free
  refill_free-Merged [] c s u = stays pf cfg c c nothing nothing [] s refl
  refill_free-Merged (d ∷ ds) c s u =
      let (first, clear) = freed c d ds s u in
      after pf cfg c _ _ ds [] first (refill_free-Merged ds _ first.state clear)

  pub do_quick_gc-Lost :
      (fuel : ℕ) (c c' : Cache Disk) (more : Bool) (nr_back_to_free_dslab : ℤ)
      (nr_back_to_ops_pool : ℕ)
      → Collecting pf cfg c nothing []
      → do_quick_gc pf cfg fuel c nr_back_to_free_dslab nr_back_to_ops_pool ≡ done (more, c')
      → Lost pf cfg c c' []
  unfolding do_quick_gc
  do_quick_gc-Lost fuel c c' more nr_back_to_free_dslab nr_back_to_ops_pool s p =
      let n = pos_part (nr_back_to_free_dslab +ℤ pos nr_back_to_ops_pool) in
      let ((selected, to_drop), q, r) = >>=-eq-done (select_to_drop pf cfg fuel c n []) _ p in
      let (evicted, q', r') = >>=-eq-done (evict_all pf cfg selected to_drop) _ r in
      let chosen = select_to_drop-Merged pf cfg fuel c n [] selected to_drop s q in
      let gone = evict_all-Evicts pf cfg to_drop selected evicted to_drop chosen.state q' in
      let (pool, clear) =
        refill_ops_pool-Merged to_drop evicted nr_back_to_ops_pool gone.lost.state gone.cleared in
      let (refilled, rest) = refill_ops_pool pf cfg evicted nr_back_to_ops_pool to_drop in
      let free = refill_free-Merged rest refilled pool.state clear in
      let last : refill_free pf cfg refilled rest ≡ c' =
        ap (λ (x : Bool × Cache Disk). x.1) (done_injective r') in
      Lost-trans pf cfg c selected c' to_drop [] (Merged-Lost pf cfg c selected to_drop chosen) (
        Lost-trans pf cfg selected evicted c' to_drop [] gone.lost (
          subst (λ x. Lost pf cfg evicted x []) last
            (Merged-Lost pf cfg evicted _ [] (after pf cfg evicted refilled _ rest [] pool free))))

  pub quick_gc-Lost :
      (fuel : ℕ) (c c' : Cache Disk) (more : Bool)
      → Collecting pf cfg c nothing []
      → quick_gc pf cfg fuel c ≡ done (more, c')
      → Lost pf cfg c c' []
  unfolding quick_gc raise_water_marks
  quick_gc-Lost fuel c c' more s p =
      let raised = raise_water_marks pf cfg c in
      let t =
        same-Merged pf cfg c raised nothing [] s refl refl refl
          (record { free = refl; full = refl; partial = refl })
          (record { free = refl; full = refl; pool = refl }) in
      Lost-trans pf cfg c raised c' [] [] (Merged-Lost pf cfg c raised [] t)
        (do_quick_gc-Lost fuel raised c' more _ _ t.state p)
