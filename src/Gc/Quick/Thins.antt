-- ===== src/Gc/Quick/Thins.antt =====
-- Changes of the state that take entries out of the index (as `evict_dslab` of src/kvcache.cpp does)
-- and leave the slots that the other entries point to.
use kvcache.Base.{
  ℕ, ◌<◌, ◌≤◌, ◌≡◌, ◌∙◌, sym, ap, inl, inr, ◌⊎◌, Bytes, none, some, arith, Option-cases,
}
use kvcache.Status.{not_found_status}
use kvcache.Slab.{Slab}
use kvcache.Index.{Index, IndexEntry, get_index_entry}
use kvcache.Index.Unique.{IsUnique}
use kvcache.State.{Platform, Config, Cache, done, gc_buffer}
use kvcache.Reads.{
  Sound, Unreferenced, fetch_memory, fetch_disk, disk_slot, get_slice_absent, get_slice_found,
}
use kvcache.Api.{fetch, get_slice}

module _ (pf : Platform) (cfg : Config) where
  open pf use {Disk, hashing}

  pub record Thins (c c' : Cache Disk) : Type 0 where
    pub unique : IsUnique c.index → IsUnique c'.index
    pub chain_count : c'.index.table_size ≡ c.index.table_size
    pub fewer :
        (k : Bytes) (e : IndexEntry)
        → get_index_entry hashing c'.index k ≡ some e
        → get_index_entry hashing c.index k ≡ some e
    pub disk : c'.disk ≡ c.disk
    pub sid : (s : ℕ) → (c'.slabs s).sid ≡ (c.slabs s).sid
    pub block_id : (s : ℕ) → (c'.slabs s).block_id ≡ (c.slabs s).block_id
    pub in_use :
        (k : Bytes) (e : IndexEntry)
        → get_index_entry hashing c'.index k ≡ some e
        → e.slot_id < (c.slabs e.slab_id).nr_alloc
        → ((c'.slabs e.slab_id).memory e.slot_id ≡ (c.slabs e.slab_id).memory e.slot_id)
          × (e.slot_id < (c'.slabs e.slab_id).nr_alloc)
    pub nr_alloc : (s : ℕ) → (c'.slabs s).nr_alloc ≤ (c.slabs s).nr_alloc

  pub Thins-trans : (a b c : Cache Disk) → Thins a b → Thins b c → Thins a c
  Thins-trans a b c f g = record {
    unique = λ u. g.unique (f.unique u);
    chain_count = g.chain_count ∙ f.chain_count;
    fewer = λ k e p. f.fewer k e (g.fewer k e p);
    disk = g.disk ∙ f.disk;
    sid = λ s. g.sid s ∙ f.sid s;
    block_id = λ s. g.block_id s ∙ f.block_id s;
    in_use = λ k e p used.
        let (first, still) = f.in_use k e (g.fewer k e p) used in
        let (second, after) = g.in_use k e p still in (second ∙ first, after);
    nr_alloc = λ s. omega (arith, f.nr_alloc s, g.nr_alloc s);
  }

  -- A state with the same index, slabs and disk.
  pub same-Thins :
      (c c' : Cache Disk) → c'.index ≡ c.index → c'.slabs ≡ c.slabs → c'.disk ≡ c.disk → Thins c c'
  same-Thins c c' idx slabs disk = record {
    unique = λ u. rw idx u;
    chain_count = ap (λ (x : Index). x.table_size) idx;
    fewer = λ k e p. ground (arith, idx, p);
    disk = disk;
    sid = λ s. ap (λ (f : ℕ → Slab). (f s).sid) slabs;
    block_id = λ s. ap (λ (f : ℕ → Slab). (f s).block_id) slabs;
    in_use = λ k e p used.
        (ap (λ (f : ℕ → Slab). (f e.slab_id).memory e.slot_id) slabs, ground (arith, slabs, used));
    nr_alloc = λ s. ground (arith, slabs);
  }

  -- Every key reads what it read before, or nothing.
  pub record Forgets (c c' : Cache Disk) : Type 0 where
    pub sound : Sound pf cfg c'
    pub reads :
        (q : Bytes)
        → (get_slice pf cfg c' q ≡ get_slice pf cfg c q)
          ⊎ (get_slice pf cfg c' q ≡ done (not_found_status "Key not found", none))

  pub Forgets-trans : (a b c : Cache Disk) → Forgets a b → Forgets b c → Forgets a c
  Forgets-trans a b c f g = record {
    sound = g.sound;
    reads = λ q. elim (g.reads q) [
      | inr n ↦ inr n
      | inl e ↦ elim (f.reads q) [ inl e' ↦ inl (e ∙ e') | inr n ↦ inr (e ∙ n) ]
    ];
  }

  module _ (c c' : Cache Disk) (t : Thins c c') where
    pub Thins-Unreferenced : (s : ℕ) → Unreferenced pf cfg c s → Unreferenced pf cfg c' s
    Thins-Unreferenced s u k e p = u k e (t.fewer k e p)

    module _ (v : Sound pf cfg c) where
      same_fetch :
          (k : Bytes) (e : IndexEntry)
          → get_index_entry hashing c'.index k ≡ some e
          → fetch pf cfg c' e ≡ fetch pf cfg c e
      same_fetch k e p = elim (Option-cases (c.slabs e.slab_id).block_id) [
        | inl z ↦
            fetch_memory pf cfg c' e (t.block_id e.slab_id ∙ z)
            ∙ ap done (t.in_use k e p (v.points k e (t.fewer k e p)).0).0
            ∙ sym (fetch_memory pf cfg c e z)
        | inr (b, z) ↦
            fetch_disk pf cfg c' e b (t.block_id e.slab_id ∙ z)
            ∙ ap (λ (x : Disk). disk_slot pf cfg x b e.slot_id) t.disk
            ∙ sym (fetch_disk pf cfg c e b z)
      ]

      Thins-Sound : Sound pf cfg c'
      Thins-Sound = record {
        sids = λ s. t.sid s ∙ v.sids s;
        blocks = λ s u b y z. v.blocks s u b (sym (t.block_id s) ∙ y) (sym (t.block_id u) ∙ z);
        buffer = t.block_id (gc_buffer cfg) ∙ v.buffer;
        unique = t.unique v.unique;
        points = λ k e p.
            let (used, (slot, fetched, same)) = v.points k e (t.fewer k e p) in
            (
              (t.in_use k e p used).1,
              (slot, same_fetch k e p ∙ fetched, ground (arith, same, t.chain_count)),
            );
      }

      pub Thins-Forgets : Forgets c c'
      Thins-Forgets = record {
        sound = Thins-Sound;
        reads = λ q. elim (Option-cases (get_index_entry hashing c'.index q)) [
          | inl z ↦ inr (get_slice_absent pf cfg c' q z)
          | inr (e, z) ↦
              let (used, (slot, fetched, same)) = v.points q e (t.fewer q e z) in
              inl (
                get_slice_found pf cfg c' q e slot z (same_fetch q e z ∙ fetched)
                ∙ sym (get_slice_found pf cfg c q e slot (t.fewer q e z) fetched))
        ];
      }
