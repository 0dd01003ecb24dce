-- ===== src/Gc/Quick/Evict.antt =====
-- Quick GC (`do_quick_gc` of src/kvcache.cpp), and the reads after it.
use kvcache.Base.{
  ℕ, zero, suc, ◌+◌, ◌<◌, ◌≤◌, ◌≡◌, subst, refl, ◌∙◌, Bytes, none, some, arith, true, Option-cases,
  Bool-cases, ◌==◌, inl, inr,
}
use kvcache.Index.{
  Index, IndexEntry, get_index_entry, del_index_entry, same_entry, unlink, index_entry_free,
}
use kvcache.Index.Unique.{IsUnique, del_index_entry-IsUnique, get-del_index_entry}
use kvcache.Slot.{Slot, key}
use kvcache.Slab.{Slab, for_slots, for_each_slot, assign}
use kvcache.State.{
  Platform, Config, Cache, done, or_throw, or_throw_done, >>=-eq-done, done_injective,
}
use kvcache.Move.{read_dslab}
use kvcache.Reads.{Sound, Unreferenced, fetch_disk, disk_slot}
use kvcache.Gc.Quick.{drop_entry, evict_dslab}
use kvcache.Api.{fetch}
use kvcache.Gc.Quick.Thins.{Thins}

module _ (pf : Platform) (cfg : Config) where
  open pf use {Disk, hashing, read_block}

  del-table_size :
      (idx : Index) (k : Bytes) → (del_index_entry hashing idx k).table_size ≡ idx.table_size
  unfolding del_index_entry unlink index_entry_free
  del-table_size idx k = ground arith

  record Swept (idx after : Index) (memory : ℕ → Slot) (i n : ℕ) : Type 0 where
    unique : IsUnique after
    chain_count : after.table_size ≡ idx.table_size
    fewer :
        (q : Bytes) (e : IndexEntry)
        → get_index_entry hashing after q ≡ some e
        → get_index_entry hashing idx q ≡ some e
    gone :
        (j : ℕ) (q : Bytes)
        → i ≤ j
        → j < i + n
        → same_entry hashing idx (key (memory j)) q ≡ true
        → get_index_entry hashing after q ≡ none

  for_slots-Swept :
      (n i : ℕ) (idx : Index) (memory : ℕ → Slot)
      → IsUnique idx
      → Swept idx (for_slots n memory (drop_entry pf cfg) i idx) memory i n
  unfolding for_slots drop_entry
  for_slots-Swept zero i idx memory u = record {
    unique = u;
    chain_count = refl;
    fewer = λ q e p. p;
    gone = λ j q h k. absurd (omega arith);
  }
  for_slots-Swept (suc n) i idx memory u =
      let k = key (memory i) in
      let first = del_index_entry hashing idx k in
      let rest_index = for_slots n memory (drop_entry pf cfg) (i + 1) first in
      let rest =
        for_slots-Swept n (i + 1) first memory (del_index_entry-IsUnique hashing idx k u) in
      record {
        unique = rest.unique;
        chain_count = rest.chain_count ∙ del-table_size idx k;
        fewer = λ q e p. ground (arith, rest.fewer q e p, get-del_index_entry hashing idx k q u);
        gone = λ j q h b same. elim (Bool-cases (j == i)) [
          | inl at ↦ elim (Option-cases (get_index_entry hashing rest_index q)) [
            | inl z ↦ z
            | inr (e, z) ↦
                absurd (ground (arith, at, rest.fewer q e z, get-del_index_entry hashing idx k q u))
          ]
          | inr off ↦
              rest.gone j q (ground (arith, off, h)) (omega arith)
                (ground (arith, del-table_size idx k, same))
        ];
      }

  -- The image of a disk slab has at least the slots that its header in memory has.
  abbrev pub Imaged : Cache Disk → Type 0
  Imaged c =
      (d b : ℕ) (image : Slab)
      → (c.slabs d).block_id ≡ some b
      → read_block c.disk b ≡ some image
      → (c.slabs d).nr_alloc ≤ image.nr_alloc

  pub Thins-Imaged : (c c' : Cache Disk) → Thins pf cfg c c' → Imaged c → Imaged c'
  Thins-Imaged c c' t im d b image p q =
      let old : (c.slabs d).nr_alloc ≤ image.nr_alloc =
        im d b image (ground (arith, t.block_id d, p)) (ground (arith, t.disk, q)) in
      omega (arith, old, t.nr_alloc d)

  pub record Evicted (c c' : Cache Disk) (d : ℕ) : Type 0 where
    pub thins : Thins pf cfg c c'
    pub emptied : Unreferenced pf cfg c' d
    pub slabs : c'.slabs ≡ c.slabs

  -- The state after the entries of an image were dropped.
  abbrev pub dropped : Cache Disk → Slab → Cache Disk
  dropped c image = record c {
    index = for_slots image.nr_alloc image.memory (drop_entry pf cfg) 0 c.index;
  }

  pub evict_dslab_done :
      (c c' : Cache Disk) (d : ℕ) (fake_slab : Slab)
      → read_dslab pf c (c.slabs d) ≡ done fake_slab
      → evict_dslab pf cfg c fake_slab ≡ done c'
      → (b : ℕ) × (image : Slab) × ((c.slabs d).block_id ≡ some b)
        × (read_block c.disk b ≡ some image)
        × (dropped c image ≡ c')
  unfolding evict_dslab read_dslab assign for_each_slot
  evict_dslab_done c c' d fake_slab p q =
      let (b, x, p') = >>=-eq-done (or_throw (c.slabs d).block_id) _ p in
      let (image, y, p'') = >>=-eq-done (or_throw (read_block c.disk b)) _ p' in
      let on : (c.slabs d).block_id ≡ some b = or_throw_done _ b x in
      let read : read_block c.disk b ≡ some image = or_throw_done _ image y in
      (b, image, on, read, ground (arith, on, read, q, done_injective p''))

  module _ (c : Cache Disk) (d b : ℕ) (image : Slab) (v : Sound pf cfg c) (im : Imaged c)
      (on : (c.slabs d).block_id ≡ some b) (read : read_block c.disk b ≡ some image) where
    swept : Swept c.index (dropped c image).index image.memory 0 image.nr_alloc
    swept = for_slots-Swept image.nr_alloc 0 c.index image.memory v.unique

    pub dropped-Thins : Thins pf cfg c (dropped c image)
    dropped-Thins = record {
      unique = λ u. swept.unique;
      chain_count = swept.chain_count;
      fewer = swept.fewer;
      disk = refl;
      sid = λ s. refl;
      block_id = λ s. refl;
      in_use = λ k e p used. (refl, used);
      nr_alloc = λ s. omega arith;
    }

    pub dropped-Unreferenced : Unreferenced pf cfg (dropped c image) d
    dropped-Unreferenced k e p at =
        let (used, (slot, fetched, same)) = v.points k e (swept.fewer k e p) in
        let from_disk : fetch pf cfg c e ≡ disk_slot pf cfg c.disk b e.slot_id =
          fetch_disk pf cfg c e b (ground (arith, at, on)) in
        let stored : slot ≡ image.memory e.slot_id = ground (arith, from_disk, fetched, read) in
        let room : e.slot_id < image.nr_alloc = ground (arith, at, used, im d b image on read) in
        absurd (
          ground (
            arith,
            p,
            swept.gone e.slot_id k (omega arith) (omega (arith, room))
                (ground (arith, stored, same)),
          ))

  pub evict_dslab-Evicted :
      (c c' : Cache Disk) (d : ℕ) (fake_slab : Slab)
      → Sound pf cfg c
      → Imaged c
      → read_dslab pf c (c.slabs d) ≡ done fake_slab
      → evict_dslab pf cfg c fake_slab ≡ done c'
      → Evicted c c' d
  evict_dslab-Evicted c c' d fake_slab v im p q =
      let (b, image, on, read, e) = evict_dslab_done c c' d fake_slab p q in
      subst (λ x. Evicted c x d) e
        (record {
          thins = dropped-Thins c d b image v im on read;
          emptied = dropped-Unreferenced c d b image v im on read;
          slabs = refl;
        })
