-- ===== src/Api/Running.antt =====
-- The invariant of src/kvcache.cpp between calls and rounds, and how turns of the background
-- threads keep it.
use kvcache.Base.{
  ℕ, ◌+◌, ◌<◌, ◌≡◌, ◌≢◌, ◌∙◌, sym, ap, subst, Bool, Bool-cases, ◌==◌, none, some, arith,
  Option-cases, inl, inr, true, [],
}
use kvcache.Slab.{Slab}
use kvcache.State.{Platform, Config, Cache, Outcome, done, done_injective, first_entry, gc_buffer}
use kvcache.Reads.Frame.{Keeps, Keeps-Sound, same_found}
use kvcache.Lists.{count, Mslabs, Apart, Roomy, HasSlots}
use kvcache.Lists.Channels.{Spread-slabs, listed_block}
use kvcache.Gc.{do_slab_gc}
use kvcache.Gc.Copy.Slabs.{SameDisk}
use kvcache.Gc.Turn.{Resting, do_slab_gc-Lost}
use kvcache.Flush.Turn.{Flushes, Flushes-refl, Lost-Flushes, do_slab_flush-Flushes}
use kvcache.Api.{flush_if_full}

module _ (pf : Platform) (cfg : Config) where
  open pf use {Disk, hashing}

  pub record Running (c : Cache Disk) : Type 0 where
    pub rest : Resting pf cfg c
    pub mslabs : Mslabs cfg c
    pub apart : Apart c
    pub roomy : Roomy cfg c

  pub Flushes-Running : (c c' : Cache Disk) → Running c → Flushes pf cfg c c' → Running c'
  Flushes-Running c c' r f = record {
    rest = f.state;
    mslabs = record {
      free_mslab = λ m h. listed m (omega (arith, h));
      full_mslab = λ m h. listed m (omega (arith, h));
      partial_mslab = λ cid m h.
          let (p, n) = r.mslabs.partial_mslab cid m (ground (arith, f.partial, h)) in
          (f.block_id m ∙ p, n);
    };
    apart = record {
      once = λ cid m. ground (arith, r.apart.once cid m, f.listed m, f.partial);
      classed = λ cid m h.
          let on : 0 < count m (c.slab_partial cid) = ground (arith, f.partial, h) in
          let (p, n) = r.mslabs.partial_mslab cid m on in
          let off = r.apart.once cid m in
          let same = (f.spared m p n (omega (arith, on, off))).slab in
          ap (λ (x : Slab). x.cid) same ∙ r.apart.classed cid m on;
    };
    roomy = record {
      free_unused =
          λ m h. (f.emptied (λ x on. (r.mslabs.free_mslab x on, r.roomy.free_unused x on)) m h).1;
      partial_slots = λ cid m h.
          let on : 0 < count m (c.slab_partial cid) = ground (arith, f.partial, h) in
          let (p, n) = r.mslabs.partial_mslab cid m on in
          let same = (f.spared m p n (omega (arith, on, r.apart.once cid m))).slab in
          subst (HasSlots cfg) (sym same) (r.roomy.partial_slots cid m on);
    };
  }
    where
      listed :
          (m : ℕ)
          → 0 < count m c'.mslab_free.items + count m c'.mslab_full.items
          → ((c'.slabs m).block_id ≡ none) × (m ≢ gc_buffer cfg)
      listed m h =
          let old : 0 < count m c.mslab_free.items + count m c.mslab_full.items =
            omega (arith, h, f.listed m) in
          elim (Bool-cases (count m c.mslab_free.items == 0)) [
            | inl y ↦
                let (p, n) = r.mslabs.full_mslab m (ground (arith, old, y)) in (f.block_id m ∙ p, n)
            | inr z ↦
                let (p, n) = r.mslabs.free_mslab m (ground (arith, z)) in (f.block_id m ∙ p, n)
          ]

  -- A change that no entry is affected by, and that leaves the disk slabs as they were.
  pub Keeps-Resting :
      (c c' : Cache Disk)
      → Resting pf cfg c
      → Keeps pf cfg c c'
      → ((s b : ℕ) → (c.slabs s).block_id ≡ some b → (c'.slabs s).nr_alloc ≡ (c.slabs s).nr_alloc)
      → SameDisk pf cfg c c'
      → Resting pf cfg c'
  Keeps-Resting c c' s k same lists = record {
    sound = Keeps-Sound pf cfg c c' k s.sound;
    imaged = λ d b image p q.
        let on = sym (k.block_id d) ∙ p in
        ground (arith, s.imaged d b image on, k.disk, q, same d b on);
    idle = λ q e p. s.idle q e (sym (same_found pf cfg c c' k q) ∙ p);
    placed =
        rw (lists.free, lists.full, lists.pool)
          (Spread-slabs cfg c.slabs _ _ _ _ [] c'.slabs s.placed k.block_id (λ x d h z.
            let (b, on) = listed_block cfg c.slabs _ _ _ _ [] x d s.placed (omega (arith, h)) in
            same d b on ∙ z));
    cleared = λ x d h. absurd (unfold count in ground (arith, h));
  }

  pub flush_if_full-Flushes :
      (gc_fuel flush_fuel : ℕ) (c : Cache Disk) (r : Bool × Cache Disk)
      → Running c
      → flush_if_full pf cfg gc_fuel flush_fuel c ≡ done r
      → Flushes pf cfg c r.1
  unfolding flush_if_full
  flush_if_full-Flushes gc_fuel flush_fuel c r s p =
      elim (Option-cases (first_entry c.mslab_full.items)) [
        | inl z ↦
            let same : ◌≡◌ {A = Outcome (Bool × Cache Disk)} (done (true, c)) (done r) =
              ground (arith, p, z) in
            subst (Flushes pf cfg c) (ap (λ (x : Bool × Cache Disk). x.1) (done_injective same))
              (Flushes-refl pf cfg c s.rest)
        | inr (m, z) ↦
            do_slab_flush-Flushes pf cfg gc_fuel flush_fuel c r.1 r.0 s.rest s.mslabs
              (ground (arith, p, z))
      ]

  pub do_slab_gc-Flushes :
      (gc_fuel : ℕ) (c : Cache Disk) (r : Bool × Cache Disk)
      → Running c
      → do_slab_gc pf cfg gc_fuel c ≡ done r
      → Flushes pf cfg c r.1
  do_slab_gc-Flushes gc_fuel c r s p =
      Lost-Flushes pf cfg c r.1 (do_slab_gc-Lost pf cfg gc_fuel c r.1 r.0 s.rest p)
