-- ===== src/Reads/Frame.antt =====
-- Changes of the state that leave the chains, the disk and the slots in use as they were.
use kvcache.Base.{
  ℕ, ◌<◌, ◌≡◌, refl, ◌∙◌, sym, ap, inl, inr, Bytes, Option, none, some, arith, Option-cases,
}
use kvcache.Index.{IndexEntry, get_index_entry}
use kvcache.State.{Platform, Config, Cache, done, gc_buffer}
use kvcache.Reads.{
  Sound, Unreferenced, fetch_memory, fetch_disk, disk_slot, get_slice_absent, get_slice_found,
}
use kvcache.Api.{fetch, get_slice}

module _ (pf : Platform) (cfg : Config) where
  open pf use {Disk, hashing}

  pub record Keeps (c c' : Cache Disk) : Type 0 where
    pub chains : c'.index.table ≡ c.index.table
    pub chain_count : c'.index.table_size ≡ c.index.table_size
    pub disk : c'.disk ≡ c.disk
    pub sid : (s : ℕ) → (c'.slabs s).sid ≡ (c.slabs s).sid
    pub block_id : (s : ℕ) → (c'.slabs s).block_id ≡ (c.slabs s).block_id
    pub in_use :
        (k : Bytes) (e : IndexEntry)
        → get_index_entry hashing c.index k ≡ some e
        → e.slot_id < (c.slabs e.slab_id).nr_alloc
        → ((c'.slabs e.slab_id).memory e.slot_id ≡ (c.slabs e.slab_id).memory e.slot_id)
          × (e.slot_id < (c'.slabs e.slab_id).nr_alloc)

  module _ (c c' : Cache Disk) (kept : Keeps c c') where
    pub same_found :
        (k : Bytes) → get_index_entry hashing c'.index k ≡ get_index_entry hashing c.index k
    unfolding get_index_entry
    same_found k = rw (kept.chains, kept.chain_count)

    module _ (v : Sound pf cfg c) where
      same_fetch :
          (k : Bytes) (e : IndexEntry)
          → get_index_entry hashing c.index k ≡ some e
          → fetch pf cfg c' e ≡ fetch pf cfg c e
      same_fetch k e p = elim (Option-cases (c.slabs e.slab_id).block_id) [
        | inl z ↦
            fetch_memory pf cfg c' e (kept.block_id e.slab_id ∙ z)
            ∙ ap done (kept.in_use k e p (v.points k e p).0).0
            ∙ sym (fetch_memory pf cfg c e z)
        | inr (b, z) ↦
            fetch_disk pf cfg c' e b (kept.block_id e.slab_id ∙ z)
            ∙ ap (λ (x : Disk). disk_slot pf cfg x b e.slot_id) kept.disk
            ∙ sym (fetch_disk pf cfg c e b z)
      ]

      pub Keeps-Sound : Sound pf cfg c'
      Keeps-Sound = record {
        sids = λ s. kept.sid s ∙ v.sids s;
        blocks =
            λ s t b y z. v.blocks s t b (sym (kept.block_id s) ∙ y) (sym (kept.block_id t) ∙ z);
        buffer = kept.block_id (gc_buffer cfg) ∙ v.buffer;
        unique = λ b d. ground (arith, kept.chains, v.unique b d);
        points = λ k e p.
            let old = sym (same_found k) ∙ p in
            let (used, (slot, fetched, same)) = v.points k e old in
            (
              (kept.in_use k e old used).1,
              (slot, same_fetch k e old ∙ fetched, ground (arith, same, kept.chain_count)),
            );
      }

      pub get_slice-Keeps : (k : Bytes) → get_slice pf cfg c' k ≡ get_slice pf cfg c k
      get_slice-Keeps k = go (get_index_entry hashing c.index k) refl
        where
          go :
              (o : Option IndexEntry)
              → get_index_entry hashing c.index k ≡ o
              → get_slice pf cfg c' k ≡ get_slice pf cfg c k
          go none z =
              get_slice_absent pf cfg c' k (same_found k ∙ z) ∙ sym (get_slice_absent pf cfg c k z)
          go (some e) z =
              let (used, (slot, fetched, same)) = v.points k e z in
              get_slice_found pf cfg c' k e slot (same_found k ∙ z) (same_fetch k e z ∙ fetched)
              ∙ sym (get_slice_found pf cfg c k e slot z fetched)

    pub Keeps-Unreferenced : (s : ℕ) → Unreferenced pf cfg c s → Unreferenced pf cfg c' s
    Keeps-Unreferenced s u k e p = u k e (sym (same_found k) ∙ p)
