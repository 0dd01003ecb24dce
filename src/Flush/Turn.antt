-- ===== src/Flush/Turn.antt =====
-- A whole round of `do_slab_flush` (src/kvcache.cpp), the rounds of garbage collection that it waits
-- for included: reads, and the lists of slabs.
use kvcache.Base.{
  ℕ, Bytes, ◌+◌, ◌≤◌, ◌≡◌, ◌≢◌, ◌==◌, ◌<◌, ◌∙◌, refl, sym, ap, subst, Bool, true, false, [], Option,
  none, some, arith, Bool-cases, Option-cases, inl, inr,
}
use kvcache.Index.{get_index_entry}
use kvcache.Slab.{Slab}
use kvcache.State.{
  Platform, Config, Cache, Outcome, done, ◌>>=◌, >>=-eq-done, done_injective, push, detach,
  first_entry, gc_buffer,
}
use kvcache.Reads.Turn.{Answers, Answers-trans, Spares, Spares-trans}
use kvcache.Reads.Frame.{Keeps, Keeps-Sound, get_slice-Keeps}
use kvcache.Lists.{count, count-list_del, first_entry-count, Mslabs, FreeUnused, IsMslab}
use kvcache.Api.{get_slice}
use kvcache.Gc.Quick.Drop.{Lost}
use kvcache.Gc.Turn.{Resting}
use kvcache.Flush.{await_free_dslab, flush_pair, do_slab_flush}
use kvcache.Flush.Wait.{Awaited, Waited, await_free_dslab-Waited}
use kvcache.Flush.Pair.{flush_pair-Freed}

module _ (pf : Platform) (cfg : Config) where
  open pf use {Disk, hashing, write_block}

  -- What a round of flushing that returns does to reads and to the lists of memory slabs.
  pub record Flushes (c c' : Cache Disk) : Type 0 where
    pub state : Resting pf cfg c'
    pub reads : (q : Bytes) → Answers true (get_slice pf cfg c' q) (get_slice pf cfg c q)
    pub block_id : (s : ℕ) → (c'.slabs s).block_id ≡ (c.slabs s).block_id
    pub spared :
        (s : ℕ)
        → (c.slabs s).block_id ≡ none
        → s ≢ gc_buffer cfg
        → count s c.mslab_free.items + count s c.mslab_full.items ≡ 0
        → Spares pf cfg c c' s
    pub absent :
        (q : Bytes)
        → get_index_entry hashing c.index q ≡ none
        → get_index_entry hashing c'.index q ≡ none
    pub listed :
        (s : ℕ)
        → count s c'.mslab_free.items + count s c'.mslab_full.items
          ≤ count s c.mslab_free.items + count s c.mslab_full.items
    pub partial : c'.slab_partial ≡ c.slab_partial
    pub emptied : FreeUnused cfg c → FreeUnused cfg c'

  -- A turn that takes no list of memory slabs apart leaves free slabs unused.
  Lost-FreeUnused : (c c' : Cache Disk) → Lost pf cfg c c' [] → FreeUnused cfg c → FreeUnused cfg c'
  Lost-FreeUnused c c' l u m h =
      let ((p, n), z) = u m (ground (arith, l.turn.memory.free, h)) in
      ((l.turn.block_id m ∙ p, n), ap (λ (x : Slab). x.nr_alloc) (l.turn.spared m p n).slab ∙ z)

  -- Flushing and collection in general: only what is in use at the beginning stays.
  pub Lost-Flushes : (c c' : Cache Disk) → Lost pf cfg c c' [] → Flushes c c'
  Lost-Flushes c c' l = record {
    state = l.state;
    reads = l.turn.reads;
    block_id = l.turn.block_id;
    spared = λ s p n z. l.turn.spared s p n;
    absent = l.turn.absent;
    listed = λ s. ground (arith, l.turn.memory.free, l.turn.memory.full);
    partial = l.turn.memory.partial;
    emptied = Lost-FreeUnused c c' l;
  }

  -- The caller of the wait has taken `m` off the list of full slabs.
  abbrev held_full : Cache Disk → ℕ → Cache Disk
  held_full c m = record c { mslab_full = detach m c.mslab_full }

  held_full-Keeps : (c : Cache Disk) (m : ℕ) → Keeps pf cfg c (held_full c m)
  held_full-Keeps c m = record {
    chains = refl;
    chain_count = refl;
    disk = refl;
    sid = λ s. refl;
    block_id = λ s. refl;
    in_use = λ k e p used. (refl, used);
  }

  held_full-Resting : (c : Cache Disk) (m : ℕ) → Resting pf cfg c → Resting pf cfg (held_full c m)
  held_full-Resting c m s = record {
    sound = Keeps-Sound pf cfg c (held_full c m) (held_full-Keeps c m) s.sound;
    imaged = s.imaged;
    idle = s.idle;
    placed = s.placed;
    cleared = s.cleared;
  }

  -- The wait ended at shutdown.
  waited_in_vain :
      (c c' : Cache Disk) (m : ℕ)
      → Resting pf cfg c
      → Lost pf cfg (held_full c m) c' []
      → Flushes c c'
  waited_in_vain c c' m s l = record {
    state = l.state;
    reads = λ q.
        Answers-trans true _ _ _
          (inl (get_slice-Keeps pf cfg c (held_full c m) (held_full-Keeps c m) s.sound q))
          (l.turn.reads q);
    block_id = l.turn.block_id;
    spared =
        λ x p n z. let t = l.turn.spared x p n in record { slab = t.slab; entries = t.entries };
    absent = l.turn.absent;
    listed = λ x.
        unfold detach in
        ground
          (arith, l.turn.memory.free, l.turn.memory.full, count-list_del m x c.mslab_full.items);
    partial = l.turn.memory.partial;
    emptied = λ u. Lost-FreeUnused (held_full c m) c' l u;
  }

  flushed_after_wait :
      (c c₁ c' : Cache Disk) (m channel d : ℕ)
      → Resting pf cfg c
      → first_entry c.mslab_full.items ≡ some m
      → (c.slabs m).block_id ≡ none
      → m ≢ gc_buffer cfg
      → Awaited pf cfg (held_full c m) c₁ channel d
      → flush_pair pf cfg c₁ m channel d ≡ done c'
      → Flushes c c'
  flushed_after_wait c c₁ c' m channel d s first memory off a p =
      let f =
        flush_pair-Freed pf cfg c₁ c' m channel d a.state a.place a.unused
          (a.turn.block_id m ∙ memory) p in
      let on = first_entry-count m c.mslab_full.items first in
      record {
        state = f.state;
        reads = λ q.
            Answers-trans true _ _ _
              (Answers-trans true _ _ _
                (inl (get_slice-Keeps pf cfg c (held_full c m) (held_full-Keeps c m) s.sound q))
                (a.turn.reads q))
              (inl (f.reads q));
        block_id = λ x. f.block_id x ∙ a.turn.block_id x;
        spared = λ x z n listed.
            let t = a.turn.spared x z n in
            let u = f.spared x (a.turn.block_id x ∙ z) (λ y. ground (arith, y, listed, on)) in
            record {
              slab = u.slab ∙ t.slab;
              entries = λ q e found at. t.entries q e (u.entries q e found at) at;
            };
        absent = λ q z. f.absent q (a.turn.absent q z);
        listed = λ x.
            unfold detach push count in
            ground (
              arith,
              f.free,
              f.full,
              a.turn.memory.free,
              a.turn.memory.full,
              on,
              count-list_del m x c.mslab_full.items,
            );
        partial = f.partial ∙ a.turn.memory.partial;
        emptied = λ u x h. elim (Bool-cases (m == x)) [
          | inl y ↦
              let e : m ≡ x = ground (arith, y) in
              subst (λ z. IsMslab cfg c' z × ((c'.slabs z).nr_alloc ≡ 0)) e
                ((f.block_id m ∙ a.turn.block_id m ∙ memory, off), f.emptied)
          | inr n ↦
              let old : 0 < count x c.mslab_free.items =
                unfold push count in ground (arith, h, n, f.free, a.turn.memory.free) in
              let ((p, not_buffer), z) = u x old in
              let t = a.turn.spared x p not_buffer in
              let s = f.spared x (a.turn.block_id x ∙ p) (λ y. ground (arith, y, n)) in
              (
                (f.block_id x ∙ a.turn.block_id x ∙ p, not_buffer),
                ap (λ (y : Slab). y.nr_alloc) (s.slab ∙ t.slab) ∙ z,
              )
        ];
      }

  pub Flushes-refl : (c : Cache Disk) → Resting pf cfg c → Flushes c c
  Flushes-refl c s = record {
    state = s;
    reads = λ q. inl refl;
    block_id = λ x. refl;
    spared = λ x p n z. record { slab = refl; entries = λ q e found at. found };
    absent = λ q z. z;
    listed = λ x. omega arith;
    partial = refl;
    emptied = λ u. u;
  }

  -- What follows the wait.
  abbrev after_wait : ℕ → Option (ℕ × ℕ) × Cache Disk → Outcome (Bool × Cache Disk)
  after_wait m r = elim r.0 [
    | none ↦ done (false, r.1)
    | some found ↦ flush_pair pf cfg r.1 m found.0 found.1 >>= λ c''. done (true, c'')
  ]

  do_slab_flush_run :
      (gc_fuel fuel : ℕ) (c : Cache Disk) (m : ℕ)
      → c.shutdown ≡ false
      → first_entry c.mslab_full.items ≡ some m
      → do_slab_flush pf cfg gc_fuel fuel c
        ≡ (await_free_dslab pf cfg gc_fuel fuel (held_full c m) >>= after_wait m)
  unfolding do_slab_flush
  do_slab_flush_run gc_fuel fuel c m n z = ground (arith, n, z)

  Waited-Flushes :
      (c c₁ c' : Cache Disk) (m : ℕ) (found : Option (ℕ × ℕ)) (more : Bool)
      → Resting pf cfg c
      → Mslabs cfg c
      → first_entry c.mslab_full.items ≡ some m
      → Waited pf cfg (held_full c m) (found, c₁)
      → after_wait m (found, c₁) ≡ done (more, c')
      → Flushes c c'
  unfolding Waited
  Waited-Flushes c c₁ c' m none more s l z w r =
      subst (Flushes c) (ap (λ (x : Bool × Cache Disk). x.1) (done_injective r))
        (waited_in_vain c c₁ m s w)
  Waited-Flushes c c₁ c' m (some (channel, d)) more s l z w r =
      let (memory, off) = l.full_mslab m (first_entry-count m c.mslab_full.items z) in
      let (c₂, q, e) = >>=-eq-done (flush_pair pf cfg c₁ m channel d) _ r in
      subst (Flushes c) (ap (λ (x : Bool × Cache Disk). x.1) (done_injective e))
        (flushed_after_wait c c₁ c₂ m channel d s z memory off w q)

  pub do_slab_flush-Flushes :
      (gc_fuel fuel : ℕ) (c c' : Cache Disk) (more : Bool)
      → Resting pf cfg c
      → Mslabs cfg c
      → do_slab_flush pf cfg gc_fuel fuel c ≡ done (more, c')
      → Flushes c c'
  unfolding do_slab_flush Waited
  do_slab_flush-Flushes gc_fuel fuel c c' more s l p = elim (Bool-cases c.shutdown) [
    | inl y ↦
        let same : ◌≡◌ {A = Outcome (Bool × Cache Disk)} (done (false, c)) (done (more, c')) =
          ground (arith, p, y) in
        subst (Flushes c) (ap (λ (x : Bool × Cache Disk). x.1) (done_injective same))
          (Flushes-refl c s)
    | inr n ↦ elim (Option-cases (first_entry c.mslab_full.items)) [
      | inl z ↦ absurd (ground (arith, p, n, z))
      | inr (m, z) ↦
          let ((found, c₁), q, r) =
            >>=-eq-done (await_free_dslab pf cfg gc_fuel fuel (held_full c m)) _
              (sym (do_slab_flush_run gc_fuel fuel c m n z) ∙ p) in
          let w =
            await_free_dslab-Waited pf cfg gc_fuel fuel (held_full c m) (found, c₁)
              (held_full-Resting c m s) q in
          Waited-Flushes c c₁ c' m found more s l z w r
    ]
  ]

  pub Flushes-trans : (a b c : Cache Disk) → Flushes a b → Flushes b c → Flushes a c
  Flushes-trans a b c f g = record {
    state = g.state;
    reads = λ q. Answers-trans true _ _ _ (f.reads q) (g.reads q);
    block_id = λ s. g.block_id s ∙ f.block_id s;
    spared = λ s p n z.
        Spares-trans pf cfg a b c s (f.spared s p n z)
          (g.spared s (f.block_id s ∙ p) n (omega (arith, z, f.listed s)));
    absent = λ q z. g.absent q (f.absent q z);
    listed = λ s. omega (arith, f.listed s, g.listed s);
    partial = g.partial ∙ f.partial;
    emptied = λ u. g.emptied (f.emptied u);
  }
