-- ===== src/Gc/Quick/Reads.antt =====
-- A whole run of `do_quick_gc` (src/kvcache.cpp), and the reads after it.
use kvcache.Base.Int.{negsuc, ◌+ℤ◌}
use kvcache.Base.{
  ℕ, zero, suc, ◌+◌, ◌≡◌, refl, ap, subst, Bool, List, [], ◌∷◌, arith, update, inl, inr,
  Option-cases,
}
use kvcache.Base.Int.{ℤ, pos, pos_part, ◌+ℤ◌}
use kvcache.Slab.{reset}
use kvcache.State.{
  Platform, Config, Cache, done, >>=-eq-done, done_injective, first_entry, set_slab, detach, push,
  next_channel,
}
use kvcache.Move.{read_dslab}
use kvcache.Reads.{Sound, Unreferenced}
use kvcache.Gc.Quick.{
  select_to_drop, evict_dslab, evict_all, refill_ops_pool, refill_free, do_quick_gc, channel_of,
}
use kvcache.Gc.Quick.Thins.{
  Thins, Thins-trans, same-Thins, Forgets, Thins-Forgets, Thins-Unreferenced,
}
use kvcache.Gc.Quick.Evict.{Imaged, Thins-Imaged, evict_dslab-Evicted}

module _ (pf : Platform) (cfg : Config) where
  open pf use {Disk, hashing, read_block}

  -- No entry points to a slab of the list.
  unfoldable AllUnreferenced : Cache Disk → List ℕ → Type 0
  AllUnreferenced c [] = Unit
  AllUnreferenced c (d ∷ ds) = Unreferenced pf cfg c d × AllUnreferenced c ds

  Thins-AllUnreferenced :
      (c c' : Cache Disk) (ds : List ℕ)
      → Thins pf cfg c c'
      → AllUnreferenced c ds
      → AllUnreferenced c' ds
  unfolding AllUnreferenced
  Thins-AllUnreferenced c c' [] t u = u
  Thins-AllUnreferenced c c' (d ∷ ds) t (u, us) =
      (Thins-Unreferenced pf cfg c c' t d u, Thins-AllUnreferenced c c' ds t us)

  record SameStore (c c' : Cache Disk) : Type 0 where
    index : c'.index ≡ c.index
    slabs : c'.slabs ≡ c.slabs
    disk : c'.disk ≡ c.disk

  select_to_drop-SameStore :
      (fuel : ℕ) (c : Cache Disk) (n : ℕ) (to_drop : List ℕ) (c' : Cache Disk) (dropped : List ℕ)
      → select_to_drop pf cfg fuel c n to_drop ≡ done (c', dropped)
      → SameStore c c'
  unfolding select_to_drop
  select_to_drop-SameStore fuel c zero to_drop c' dropped p =
      let e : c ≡ c' = ground arith in
      subst (SameStore c) e (record { index = refl; slabs = refl; disk = refl })
  select_to_drop-SameStore zero c (suc n) to_drop c' dropped p = absurd (ground arith)
  select_to_drop-SameStore (suc fuel) c (suc n) to_drop c' dropped p =
      let channel = next_channel cfg c.next_ops_pool_remove_channel in
      let turned = record c { next_ops_pool_remove_channel = channel } in
      elim (Option-cases (first_entry (c.dslab_full channel).items)) [
        | inl e ↦
            let s =
              select_to_drop-SameStore fuel turned (suc n) to_drop c' dropped
                (ground (arith, e, p)) in
            record { index = s.index; slabs = s.slabs; disk = s.disk }
        | inr (d, e) ↦
            let s =
              select_to_drop-SameStore fuel
                (record turned {
                  dslab_full = update c.dslab_full channel (detach d (c.dslab_full channel));
                  nr_full_dslab = c.nr_full_dslab +ℤ negsuc 0;
                })
                n (d ∷ to_drop) c' dropped (ground (arith, e, p)) in
            record { index = s.index; slabs = s.slabs; disk = s.disk }
      ]

  unused-Thins :
      (c : Cache Disk) (d : ℕ) → Thins pf cfg c (set_slab c d (record (c.slabs d) { nr_used = 0 }))
  unused-Thins c d = record {
    unique = λ u. u;
    chain_count = refl;
    fewer = λ k e p. p;
    disk = refl;
    sid = λ s. ground arith;
    block_id = λ s. ground arith;
    in_use = λ k e p used. (ground arith, ground (arith, used));
    nr_alloc = λ s. ground arith;
  }

  reset-Thins :
      (c : Cache Disk) (d : ℕ)
      → Unreferenced pf cfg c d
      → Thins pf cfg c (set_slab c d (reset (c.slabs d)))
  unfolding reset
  reset-Thins c d u = record {
    unique = λ u. u;
    chain_count = refl;
    fewer = λ k e p. p;
    disk = refl;
    sid = λ s. ground arith;
    block_id = λ s. ground arith;
    in_use = λ k e p used. (ground arith, ground (arith, used, u k e p));
    nr_alloc = λ s. ground arith;
  }

  back-Thins :
      (c c' : Cache Disk) (d : ℕ)
      → Unreferenced pf cfg c d
      → c'.index ≡ c.index
      → c'.slabs ≡ update c.slabs d (reset (c.slabs d))
      → c'.disk ≡ c.disk
      → Thins pf cfg c c'
  back-Thins c c' d u idx slabs disk =
      let cleared = set_slab c d (reset (c.slabs d)) in
      Thins-trans pf cfg c cleared c' (reset-Thins c d u)
        (same-Thins pf cfg cleared c' idx slabs disk)

  evict_all-Thins :
      (ds : List ℕ) (c c' : Cache Disk)
      → Sound pf cfg c
      → Imaged pf cfg c
      → evict_all pf cfg c ds ≡ done c'
      → Thins pf cfg c c' × AllUnreferenced c' ds
  unfolding evict_all AllUnreferenced
  evict_all-Thins [] c c' v im p =
      let e : c ≡ c' = ground arith in
      (subst (Thins pf cfg c) e (same-Thins pf cfg c c refl refl refl), tt)
  evict_all-Thins (d ∷ ds) c c' v im p =
      let (fake_slab, q, r) = >>=-eq-done (read_dslab pf c (c.slabs d)) _ p in
      let (evicted, t, u) = >>=-eq-done (evict_dslab pf cfg c fake_slab) _ r in
      let ev = evict_dslab-Evicted pf cfg c evicted d fake_slab v im q t in
      let next = set_slab evicted d (record (evicted.slabs d) { nr_used = 0 }) in
      let step = Thins-trans pf cfg c evicted next ev.thins (unused-Thins evicted d) in
      let sound = (Thins-Forgets pf cfg c next step v).sound in
      let (rest, gone) = evict_all-Thins ds next c' sound (Thins-Imaged pf cfg c next step im) u in
      (
        Thins-trans pf cfg c next c' step rest,
        (
          Thins-Unreferenced pf cfg evicted c'
              (Thins-trans pf cfg evicted next c' (unused-Thins evicted d) rest) d ev.emptied,
          gone,
        ),
      )

  refill_ops_pool-Thins :
      (ds : List ℕ) (c : Cache Disk) (n : ℕ)
      → AllUnreferenced c ds
      → let r = refill_ops_pool pf cfg c n ds in Thins pf cfg c r.0 × AllUnreferenced r.0 r.1
  unfolding refill_ops_pool AllUnreferenced
  refill_ops_pool-Thins [] c n us = (same-Thins pf cfg c c refl refl refl, tt)
  refill_ops_pool-Thins (d ∷ ds) c zero (u, us) =
      let t = reset-Thins c d u in (t, Thins-AllUnreferenced c _ ds t us)
  refill_ops_pool-Thins (d ∷ ds) c (suc n) (u, us) =
      let channel = channel_of cfg (c.slabs d) in
      let next = record c {
        slabs = update c.slabs d (reset (c.slabs d));
        ops_pool = update c.ops_pool channel (push d (c.ops_pool channel));
        ops_pool_size = c.ops_pool_size + 1;
      } in
      let t = back-Thins c next d u refl refl refl in
      let (rest, left) = refill_ops_pool-Thins ds next n (Thins-AllUnreferenced c next ds t us) in
      (Thins-trans pf cfg c next _ t rest, left)

  refill_free-Thins :
      (ds : List ℕ) (c : Cache Disk)
      → AllUnreferenced c ds
      → Thins pf cfg c (refill_free pf cfg c ds)
  unfolding refill_free AllUnreferenced
  refill_free-Thins [] c us = same-Thins pf cfg c c refl refl refl
  refill_free-Thins (d ∷ ds) c (u, us) =
      let channel = channel_of cfg (c.slabs d) in
      let next = record c {
        slabs = update c.slabs d (reset (c.slabs d));
        dslab_free = update c.dslab_free channel (push d (c.dslab_free channel));
        nr_free_dslab = c.nr_free_dslab + 1;
      } in
      let t = back-Thins c next d u refl refl refl in
      Thins-trans pf cfg c next _ t
        (refill_free-Thins ds next (Thins-AllUnreferenced c next ds t us))

  do_quick_gc-Thins :
      (fuel : ℕ) (c c' : Cache Disk) (to_free : ℤ) (to_pool : ℕ) (more : Bool)
      → Sound pf cfg c
      → Imaged pf cfg c
      → do_quick_gc pf cfg fuel c to_free to_pool ≡ done (more, c')
      → Thins pf cfg c c'
  unfolding do_quick_gc
  do_quick_gc-Thins fuel c c' to_free to_pool more v im p =
      let n = pos_part (to_free +ℤ pos to_pool) in
      let ((selected, to_drop), q, r) = >>=-eq-done (select_to_drop pf cfg fuel c n []) _ p in
      let (evicted, t, u) = >>=-eq-done (evict_all pf cfg selected to_drop) _ r in
      let same = select_to_drop-SameStore fuel c n [] selected to_drop q in
      let chosen = same-Thins pf cfg c selected same.index same.slabs same.disk in
      let sound = (Thins-Forgets pf cfg c selected chosen v).sound in
      let (gone, us) =
        evict_all-Thins to_drop selected evicted sound (Thins-Imaged pf cfg c selected chosen im)
          t in
      let refilled = refill_ops_pool pf cfg evicted to_pool to_drop in
      let (pool, left) = refill_ops_pool-Thins to_drop evicted to_pool us in
      let free = refill_free-Thins refilled.1 refilled.0 left in
      let last : refill_free pf cfg refilled.0 refilled.1 ≡ c' =
        ap (λ (x : Bool × Cache Disk). x.1) (done_injective u) in
      subst (Thins pf cfg c) last (
        Thins-trans pf cfg c selected _ chosen (
          Thins-trans pf cfg selected evicted _ gone
            (Thins-trans pf cfg evicted refilled.0 _ pool free)))

  -- Where the image of each disk slab has at least the slots that its header in memory has, and quick
  -- GC returns: the invariant and that condition hold afterwards, and every key reads what it read
  -- before, or is not found.
  pub do_quick_gc-Forgets :
      (fuel : ℕ) (c c' : Cache Disk) (to_free : ℤ) (to_pool : ℕ) (more : Bool)
      → Sound pf cfg c
      → Imaged pf cfg c
      → do_quick_gc pf cfg fuel c to_free to_pool ≡ done (more, c')
      → Forgets pf cfg c c' × Imaged pf cfg c'
  do_quick_gc-Forgets fuel c c' to_free to_pool more v im p =
      let t = do_quick_gc-Thins fuel c c' to_free to_pool more v im p in
      (Thins-Forgets pf cfg c c' t v, Thins-Imaged pf cfg c c' t im)
