-- ===== src/Gc/Normal/Turn.antt =====
-- A whole run of `normal_gc` (src/kvcache.cpp): reads, and the lists of disk slabs.
use kvcache.Base.{ℕ, ◌-◌, ◌*◌, ◌≡◌, ap, subst, Bool, List, arith, length}
use kvcache.State.{Platform, Config, Cache, Ring, empty_ring, done, >>=-eq-done, done_injective}
use kvcache.Lists.{count}
use kvcache.Gc.Copy.Turn.{Collecting}
use kvcache.Gc.Normal.{
  offer_channels, of_class, merge_classes, tune, repay_ops_pool, shrink_ops_pool, release_channels,
  queue_top, normal_gc,
}
use kvcache.Gc.Normal.Select.{count-of_class, of_class-cid, count-offer_channels}
use kvcache.Gc.Normal.Merge.{Pending, Merged, Merged-trans, same-Merged, merge_classes-Merged}
use kvcache.Gc.Normal.Recycle.{
  repay_ops_pool-Merged, shrink_ops_pool-Merged, release_channels-Merged, fewer-Merged,
}

module _ (pf : Platform) (cfg : Config) where
  open pf use {Disk}

  tune-Merged :
      (c : Cache Disk) (n : ℕ) (free_list : ℕ → Ring) (held : List ℕ)
      → Collecting pf cfg c free_list held
      → Merged pf cfg c (tune pf cfg c n).1 free_list held
  unfolding tune
  tune-Merged c n free_list held s =
      same-Merged pf cfg c _ free_list held s (ground arith) (ground arith) (ground arith)
        (record { free = ground arith; full = ground arith; partial = ground arith })
        (record { free = ground arith; full = ground arith; pool = ground arith })

  -- The queue holds full slabs.
  first_Pending :
      (c : Cache Disk) (room n : ℕ) (held : List ℕ)
      → Collecting pf cfg c (λ _. empty_ring) held
      → Pending pf cfg c (λ i. of_class c.slabs i (offer_channels c.slabs room c.dslab_full n)) 0
  first_Pending c room n held s =
      let pq = offer_channels c.slabs room c.dslab_full n in
      record {
        listed = λ j d h. omega (
          arith,
          count-of_class c.slabs d j pq,
          count-offer_channels cfg c.slabs room c.dslab_full _ _ _ held s.placed n d,
        );
        apart = λ j k d h h'.
            ground (arith, of_class-cid c.slabs d j pq h, of_class-cid c.slabs d k pq h');
      }

  pub normal_gc-Merged :
      (fuel : ℕ) (c c' : Cache Disk) (more : Bool) (held : List ℕ)
      → Collecting pf cfg c (λ _. empty_ring) held
      → normal_gc pf cfg fuel c ≡ done (more, c')
      → Merged pf cfg c c' (λ _. empty_ring) held
  unfolding normal_gc
  normal_gc-Merged fuel c c' more held s p =
      let pq = offer_channels c.slabs (3 * c.ops_pool_size) c.dslab_full cfg.nr_channels in
      let classes : ℕ → List ℕ = λ i. of_class c.slabs i pq in
      let (_, _, p') = >>=-eq-done (queue_top pf cfg c) _ p in
      let ((merged, free_list), q, r) =
        >>=-eq-done
          (merge_classes pf cfg (length cfg.slab_class_table) 0 c classes (λ _. empty_ring)) _ p' in
      let m =
        merge_classes-Merged pf cfg (length cfg.slab_class_table) 0 c merged classes
          (λ _. empty_ring) free_list held s
          (first_Pending c (3 * c.ops_pool_size) cfg.nr_channels held s) q in
      let tuned = (tune pf cfg merged c.ops_pool_size).1 in
      let size = (tune pf cfg merged c.ops_pool_size).0 in
      let t = tune-Merged merged c.ops_pool_size free_list held m.state in
      let ((repaid, free_list₁), q', r') =
        >>=-eq-done
          (repay_ops_pool pf cfg fuel 0 (c.ops_pool_size - tuned.ops_pool_size) tuned free_list) _
          r in
      let paid =
        repay_ops_pool-Merged pf cfg fuel 0 (c.ops_pool_size - tuned.ops_pool_size) tuned repaid
          free_list free_list₁ held t.state q' in
      let shrunk =
        shrink_ops_pool-Merged pf cfg (repaid.ops_pool_size - size) repaid free_list₁ held
          paid.state in
      let small = shrink_ops_pool pf cfg (repaid.ops_pool_size - size) repaid free_list₁ in
      let free = release_channels-Merged pf cfg cfg.nr_channels small.1 small.0 held shrunk.state in
      let last : release_channels pf cfg cfg.nr_channels small.1 small.0 ≡ c' =
        ap (λ (x : Bool × Cache Disk). x.1) (done_injective r') in
      subst (λ x. Merged pf cfg c x (λ _. empty_ring) held) last
        (Merged-trans pf cfg c merged _ free_list _ held m (
          Merged-trans pf cfg merged tuned _ free_list _ held t (
            Merged-trans pf cfg tuned repaid _ free_list₁ _ held paid (
              Merged-trans pf cfg repaid small.0 _ small.1 _ held shrunk (
                Merged-trans pf cfg small.0 _ _ _ (λ _. empty_ring) held free
                  (fewer-Merged pf cfg _ _ (λ _. empty_ring) held free.state
                    (λ x d. unfold count in omega arith)))))))
