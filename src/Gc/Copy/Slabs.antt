-- ===== src/Gc/Copy/Slabs.antt =====
-- The loop of `gc_dslabs` (src/kvcache.cpp) over the slabs to free: reads, and who is still referred to.
use kvcache.Base.{
  ℕ, ◌+◌, ◌<◌, ◌≡◌, ◌≢◌, refl, sym, ◌∙◌, subst, List, [], ◌∷◌, some, arith, false, ◌==◌, Bool-cases,
  inl, inr, Bool, if◌then◌else◌,
}
use kvcache.Index.{Index}
use kvcache.Slab.{Slab, assign, for_each_slot}
use kvcache.State.{
  Platform, Config, Cache, done, or_throw, or_throw_done, >>=-eq-done, done_injective, set_slab,
  gc_buffer, within, faults, Outcome,
}
use kvcache.Move.{read_dslab}
use kvcache.Reads.{Sound, Unreferenced}
use kvcache.Reads.Frame.{Keeps, Keeps-Sound, get_slice-Keeps}
use kvcache.Reads.Turn.{Turn, Turn-trans, touch-Turn, same-Turn}
use kvcache.Lists.{count}
use kvcache.Gc.Copy.{rescue, rescue_all}
use kvcache.Gc.Copy.Rescue.{packed, Rescued, for_slots-Rescued}

module _ (pf : Platform) (cfg : Config) where
  open pf use {Disk, hashing, read_block}

  pub read_dslab_done :
      (c : Cache Disk) (s fake_slab : Slab)
      → read_dslab pf c s ≡ done fake_slab
      → (b : ℕ) × (image : Slab) × (s.block_id ≡ some b)
        × (read_block c.disk b ≡ some image)
        × (fake_slab ≡ assign image s)
  unfolding read_dslab
  read_dslab_done c s fake_slab p =
      let (b, x, p') = >>=-eq-done (or_throw s.block_id) _ p in
      let (image, y, p'') = >>=-eq-done (or_throw (read_block c.disk b)) _ p' in
      (b, image, or_throw_done _ b x, or_throw_done _ image y, sym (done_injective p''))

  -- The lists of disk slabs.
  pub record SameDisk (c c' : Cache Disk) : Type 0 where
    pub free : c'.dslab_free ≡ c.dslab_free
    pub full : c'.dslab_full ≡ c.dslab_full
    pub pool : c'.ops_pool ≡ c.ops_pool

  -- The live slots of the slabs have gone to `gc_buffer_`.
  pub record Emptied (c c' : Cache Disk) (ds : List ℕ) : Type 0 where
    pub turn : Turn pf cfg false c c'
    pub gone : (d : ℕ) → 0 < count d ds → Unreferenced pf cfg c' d
    pub others : (d : ℕ) → d ≢ gc_buffer cfg → Unreferenced pf cfg c d → Unreferenced pf cfg c' d
    pub nr_alloc : (s : ℕ) → s ≢ gc_buffer cfg → (c'.slabs s).nr_alloc ≡ (c.slabs s).nr_alloc
    pub lists : SameDisk c c'

  module _ (c : Cache Disk) (d : ℕ) (fake_slab : Slab) (v : Sound pf cfg c)
      (p : read_dslab pf c (c.slabs d) ≡ done fake_slab) where
    abbrev start : Index × Slab
    start = (c.index, c.slabs (gc_buffer cfg))

    start-Keeps : Keeps pf cfg c (packed pf cfg c start)
    start-Keeps = record {
      chains = refl;
      chain_count = refl;
      disk = refl;
      sid = λ s. ground arith;
      block_id = λ s. ground arith;
      in_use = λ k e q used. (ground arith, ground arith);
    }

    start-Sound : Sound pf cfg (packed pf cfg c start)
    start-Sound = Keeps-Sound pf cfg c (packed pf cfg c start) start-Keeps v

    copied : Index × Slab
    copied = for_each_slot fake_slab (rescue pf cfg (c.slabs d).sid) start

    off : d ≢ gc_buffer cfg
    off e =
        let (b, image, on, read, same) = read_dslab_done c (c.slabs d) fake_slab p in
        ground (arith, on, e, v.buffer)

    copied-Rescued : Rescued pf cfg c d 0 (0 + (c.slabs d).nr_alloc) start copied
    unfolding copied for_each_slot assign
    copied-Rescued =
        let (b, image, on, read, same) = read_dslab_done c (c.slabs d) fake_slab p in
        rw (v.sids d, same)
          (for_slots-Rescued pf cfg c d b image off on read (c.slabs d).nr_alloc 0 c.index
            (c.slabs (gc_buffer cfg)) start-Sound)

    -- The state when the slab is copied and its `nr_used` is reset.
    pub drained : Cache Disk
    drained = let a = packed pf cfg c copied in set_slab a d (record (a.slabs d) { nr_used = 0 })

    copied-Turn : Turn pf cfg false c (packed pf cfg c copied)
    copied-Turn =
        let r = copied-Rescued in
        record {
          sound = r.sound;
          reads = λ q. r.reads q ∙ get_slice-Keeps pf cfg c (packed pf cfg c start) start-Keeps v q;
          imaged =
              λ im s b image q read. ground (arith, im s b image, q, read, r.block_id, v.buffer);
          block_id = λ s. ground (arith, r.block_id);
          spared = λ m q n. record {
            slab = ground (arith, n);
            entries =
                λ k e z at. elim (r.entries k e z) [ inl y ↦ y | inr g ↦ absurd (n (sym at ∙ g)) ];
          };
          absent = r.absent;
          memory = record { free = refl; full = refl; partial = refl };
        }

    pub drained-Emptied : Emptied c drained (d ∷ [])
    unfolding drained
    drained-Emptied =
        let (b, image, on, read, same) = read_dslab_done c (c.slabs d) fake_slab p in
        let a = packed pf cfg c copied in
        let r = copied-Rescued in
        record {
          turn = Turn-trans pf cfg false c a drained copied-Turn (
              touch-Turn pf cfg a drained d (record (a.slabs d) { nr_used = 0 }) r.sound refl refl
                refl refl refl (omega arith) (λ i. refl) (inl (λ z. ground (arith, on, z, off)))
                (inr refl) (record { free = refl; full = refl; partial = refl }));
          gone = λ x h q e z at.
              let used = (r.sound.points q e z).0 in
              let high = r.left q e z in unfold count in ground (arith, used, high, h, at, off);
          others = λ x n u q e z at. elim (r.entries q e z) [
            | inl y ↦ u q e y at
            | inr g ↦ n (sym at ∙ g)
          ];
          nr_alloc = λ s n. ground (arith, n);
          lists = record { free = refl; full = refl; pool = refl };
        }

  -- What was behind a test that would have faulted.
  went_on :
      (b : Bool) (next : Outcome (Cache Disk)) (c' : Cache Disk)
      → (if b then next else faults) ≡ done c'
      → next ≡ done c'
  went_on b next c' p = elim (Bool-cases b) [
    | inl y ↦ ground (arith, p, y)
    | inr n ↦ absurd (ground (arith, p, n))
  ]

  pub rescue_all-Emptied :
      (ds : List ℕ) (c c' : Cache Disk)
      → Sound pf cfg c
      → ((d : ℕ) → 0 < count d ds → (b : ℕ) × ((c.slabs d).block_id ≡ some b))
      → rescue_all pf cfg c ds ≡ done c'
      → Emptied c c' ds
  unfolding rescue_all count
  rescue_all-Emptied [] c c' v on p =
      let e : c ≡ c' = done_injective p in
      subst (λ x. Emptied c x []) e
        (record {
          turn =
              same-Turn pf cfg c c v refl refl refl
                (record { free = refl; full = refl; partial = refl });
          gone = λ d h. absurd (omega (arith, h));
          others = λ d n u. u;
          nr_alloc = λ s n. refl;
          lists = record { free = refl; full = refl; pool = refl };
        })
  rescue_all-Emptied (d ∷ ds) c c' v on p =
      let (fake_slab, q, r) = >>=-eq-done (read_dslab pf c (c.slabs d)) _ p in
      let next = drained c d fake_slab v q in
      let fits : rescue_all pf cfg next ds ≡ done c' =
        went_on (within cfg (copied c d fake_slab v q).1) _ c' (unfold drained copied in r) in
      let step = drained-Emptied c d fake_slab v q in
      let (b, block) = on d (ground arith) in
      let off : (x : ℕ) → 0 < count x (d ∷ ds) → x ≢ gc_buffer cfg =
        λ x h e. let (b', z) = on x h in ground (arith, z, e, v.buffer) in
      let rest =
        rescue_all-Emptied ds next c' step.turn.sound
          (λ x h. let (b', z) = on x (omega (arith, h)) in (b', step.turn.block_id x ∙ z)) fits in
      record {
        turn = Turn-trans pf cfg false c next c' step.turn rest.turn;
        gone = λ x h. elim (Bool-cases (d == x)) [
          | inl y ↦ rest.others x (off x h) (step.gone x (ground (arith, y)))
          | inr n ↦ rest.gone x (ground (arith, h, n))
        ];
        others = λ x n u. rest.others x n (step.others x n u);
        nr_alloc = λ s n. rest.nr_alloc s n ∙ step.nr_alloc s n;
        lists = record {
          free = rest.lists.free ∙ step.lists.free;
          full = rest.lists.full ∙ step.lists.full;
          pool = rest.lists.pool ∙ step.lists.pool;
        };
      }
