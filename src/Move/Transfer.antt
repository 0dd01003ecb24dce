-- ===== src/Move/Transfer.antt =====
-- A slab in memory that is written to an unused disk slab, with the index led there
-- (src/kvcache.cpp), and the reads after it.
pub mod Spares
use kvcache.Base.{
  ℕ, ◌<◌, ◌≡◌, ◌≢◌, refl, ◌∙◌, sym, ap, inl, inr, ◌⊎◌, Bytes, Option, none, some, arith,
  if◌then◌else◌, ◌==◌, update, Option-cases, Bool-cases,
}
use kvcache.Index.{IndexEntry, get_index_entry}
use kvcache.Index.Unique.{IsUnique}
use kvcache.Slab.{for_each_slot}
use kvcache.State.{Platform, Config, Cache, done, gc_buffer}
use kvcache.Move.{copy_header, flush_mslab_to_dslab, modify_index_to}
use kvcache.Move.Redirect.{retarget, Owned, for_slots-redirect}
use kvcache.Reads.{
  Points, Sound, Unreferenced, fetch_memory, fetch_disk, disk_slot, get_slice_absent,
  get_slice_found,
}
use kvcache.Api.{fetch, get_slice}

module _ (pf : Platform) (cfg : Config) where
  open pf use {Disk, hashing, read_block, write_block, read-write_block}

  -- `m` may be written to `d`: one is in memory, the other is an unused slab of block `b`.
  pub record Ready (c : Cache Disk) (m d b : ℕ) : Type 0 where
    pub from_memory : (c.slabs m).block_id ≡ none
    pub to_block : (c.slabs d).block_id ≡ some b
    pub unused : (c.slabs d).nr_alloc ≡ 0

  Sound-Owned :
      (c : Cache Disk) (m : ℕ)
      → Sound pf cfg c
      → (c.slabs m).block_id ≡ none
      → (dst : ℕ) → Owned pf m dst (c.slabs m).memory c.index
  Sound-Owned c m v p dst q e found at =
      let (_, (slot, fetched, same)) = v.points q e found in ground (arith, fetch_memory pf cfg c e)

  -- The state after the write.
  abbrev pub wrote : Cache Disk → ℕ → ℕ → Disk → Cache Disk
  wrote c m d disk = record c {
    disk = disk;
    slabs = update c.slabs d (copy_header (c.slabs d) (c.slabs m));
  }

  -- The state after the index followed.
  unfoldable pub transferred : Cache Disk → ℕ → ℕ → Disk → Cache Disk
  transferred c m d disk = modify_index_to pf (wrote c m d disk) m d

  pub flush_mslab_to_dslab_done :
      (c : Cache Disk) (m d b : ℕ) (c' : Cache Disk)
      → (c.slabs d).block_id ≡ some b
      → flush_mslab_to_dslab pf c m d ≡ done c'
      → (disk : Disk) × (write_block c.disk b (c.slabs m) ≡ some disk) × (c' ≡ wrote c m d disk)
  unfolding flush_mslab_to_dslab
  flush_mslab_to_dslab_done c m d b c' p q = go (write_block c.disk b (c.slabs m)) refl
    where
      go :
          (o : Option Disk)
          → write_block c.disk b (c.slabs m) ≡ o
          → (disk : Disk) × (write_block c.disk b (c.slabs m) ≡ some disk) × (c' ≡ wrote c m d disk)
      go none e = absurd (ground arith)
      go (some disk) e = (disk, e, ground arith)

  module _ (c : Cache Disk) (m d b : ℕ) (disk : Disk) (v : Sound pf cfg c) (r : Ready c m d b)
      (w : write_block c.disk b (c.slabs m) ≡ some disk) where
    apart : m ≢ d
    apart e = ground (arith, r.from_memory, r.to_block, e)

    at_m : (wrote c m d disk).slabs m ≡ c.slabs m
    at_m = ground (arith, apart)

    at_d : (wrote c m d disk).slabs d ≡ copy_header (c.slabs d) (c.slabs m)
    at_d = ground arith

    loop_facts :
        IsUnique (transferred c m d disk).index
        × ((transferred c m d disk).index.table_size ≡ c.index.table_size)
        × ((q : Bytes)
            → get_index_entry hashing (transferred c m d disk).index q
              ≡ retarget m d 0 (c.slabs m).nr_alloc (get_index_entry hashing c.index q))
    unfolding transferred modify_index_to for_each_slot
    loop_facts =
        rw (at_m, at_d, v.sids m, v.sids d)
          (for_slots-redirect pf m d (c.slabs m).nr_alloc 0 c.index 0 (c.slabs m).memory apart
            v.unique (Sound-Owned c m v r.from_memory d))

    pub transferred-sid : (s : ℕ) → ((transferred c m d disk).slabs s).sid ≡ (c.slabs s).sid
    unfolding transferred modify_index_to
    transferred-sid s = ground arith

    pub transferred-block_id :
        (s : ℕ) → ((transferred c m d disk).slabs s).block_id ≡ (c.slabs s).block_id
    unfolding transferred modify_index_to
    transferred-block_id s = ground arith

    pub transferred-memory :
        (s i : ℕ) → ((transferred c m d disk).slabs s).memory i ≡ (c.slabs s).memory i
    unfolding transferred modify_index_to
    transferred-memory s i = ground arith

    pub transferred-nr_alloc :
        (s : ℕ)
        → ((transferred c m d disk).slabs s).nr_alloc
          ≡ (if s == d then (c.slabs m).nr_alloc else (c.slabs s).nr_alloc)
    unfolding transferred modify_index_to
    transferred-nr_alloc s = ground (arith, apart)

    pub transferred-disk : (transferred c m d disk).disk ≡ disk
    unfolding transferred modify_index_to
    transferred-disk = refl

    -- What becomes of the entry that a key finds.
    record Follows (q : Bytes) (e : IndexEntry) : Type 0 where
      entry : IndexEntry
      found : get_index_entry hashing (transferred c m d disk).index q ≡ some entry
      same_slot : fetch pf cfg (transferred c m d disk) entry ≡ fetch pf cfg c e
      in_use : entry.slot_id < ((transferred c m d disk).slabs entry.slab_id).nr_alloc
      left : entry.slab_id ≢ m
      came : (entry.slab_id ≡ d) ⊎ (entry.slab_id ≡ e.slab_id)

    same_disk_slot :
        (q i : ℕ)
        → q ≢ b
        → disk_slot pf cfg (transferred c m d disk).disk q i ≡ disk_slot pf cfg c.disk q i
    same_disk_slot q i n =
        ground (arith, transferred-disk, read-write_block c.disk disk b q (c.slabs m) w, n)

    off_block :
        (e : IndexEntry) (q : ℕ)
        → (c.slabs e.slab_id).block_id ≡ some q
        → e.slot_id < (c.slabs e.slab_id).nr_alloc
        → b ≢ q
    off_block e q z used y =
        ground (arith, v.blocks e.slab_id d b (z ∙ ap some (sym y)) r.to_block, r.unused, used)

    Follows-moved :
        (q : Bytes) (e : IndexEntry)
        → get_index_entry hashing c.index q ≡ some e
        → e.slab_id ≡ m
        → Follows q e
    Follows-moved q e p at =
        let (used, rest) = v.points q e p in
        let e' : IndexEntry = record e { slab_id = d } in
        record {
          entry = e';
          found = loop_facts.2 q ∙ ap (retarget m d 0 (c.slabs m).nr_alloc) p ∙ ground arith;
          same_slot =
              fetch_disk pf cfg (transferred c m d disk) e' b (transferred-block_id d ∙ r.to_block)
              ∙ ground (
                arith,
                transferred-disk,
                read-write_block c.disk disk b b (c.slabs m) w,
                fetch_memory pf cfg c e,
                r.from_memory,
              );
          in_use = ground (arith, transferred-nr_alloc d, used);
          left = λ z. apart (sym z);
          came = inl refl;
        }

    Follows-stayed :
        (q : Bytes) (e : IndexEntry)
        → get_index_entry hashing c.index q ≡ some e
        → e.slab_id ≢ m
        → Follows q e
    Follows-stayed q e p off =
        let (used, rest) = v.points q e p in
        record {
          entry = e;
          found = loop_facts.2 q ∙ ap (retarget m d 0 (c.slabs m).nr_alloc) p ∙ ground arith;
          same_slot = elim (Option-cases (c.slabs e.slab_id).block_id) [
            | inl z ↦
                fetch_memory pf cfg (transferred c m d disk) e (transferred-block_id e.slab_id ∙ z)
                ∙ ap done (transferred-memory e.slab_id e.slot_id)
                ∙ sym (fetch_memory pf cfg c e z)
            | inr (q', z) ↦
                fetch_disk pf cfg (transferred c m d disk) e q' (transferred-block_id e.slab_id ∙ z)
                ∙ same_disk_slot q' e.slot_id (λ y. off_block e q' z used (sym y))
                ∙ sym (fetch_disk pf cfg c e q' z)
          ];
          in_use = ground (arith, transferred-nr_alloc e.slab_id, r.unused, used);
          left = off;
          came = inr refl;
        }

    follows :
        (q : Bytes) (e : IndexEntry) → get_index_entry hashing c.index q ≡ some e → Follows q e
    follows q e p = elim (Bool-cases (e.slab_id == m)) [
      | inl y ↦ Follows-moved q e p (ground arith)
      | inr n ↦ Follows-stayed q e p (λ z. ground arith)
    ]

    -- An entry that a key finds afterwards comes from one that it found before.
    comes_from :
        (q : Bytes) (e' : IndexEntry)
        → get_index_entry hashing (transferred c m d disk).index q ≡ some e'
        → (e : IndexEntry) × (get_index_entry hashing c.index q ≡ some e)
          × (f : Follows q e) × (f.entry ≡ e')
    comes_from q e' p = go (get_index_entry hashing c.index q) refl
      where
        go :
            (o : Option IndexEntry)
            → get_index_entry hashing c.index q ≡ o
            → (e : IndexEntry) × (get_index_entry hashing c.index q ≡ some e)
              × (f : Follows q e) × (f.entry ≡ e')
        go none z =
            absurd (ground (arith, loop_facts.2 q ∙ ap (retarget m d 0 (c.slabs m).nr_alloc) z))
        go (some e) z = let f = follows q e z in (e, z, f, ground (arith, f.found))

    Follows-Points :
        (q : Bytes) (e e' : IndexEntry)
        → get_index_entry hashing c.index q ≡ some e
        → (f : Follows q e) → f.entry ≡ e'
        → Points pf cfg (transferred c m d disk) q e'
    Follows-Points q e e' p f z =
        let (used, (slot, fetched, same)) = v.points q e p in
        rw (← z) (f.in_use, (slot, f.same_slot ∙ fetched, ground (arith, same, loop_facts.1)))

    pub transferred-Sound : Sound pf cfg (transferred c m d disk)
    transferred-Sound = record {
      sids = λ s. transferred-sid s ∙ v.sids s;
      blocks = λ s t q y z.
          v.blocks s t q (sym (transferred-block_id s) ∙ y) (sym (transferred-block_id t) ∙ z);
      buffer = transferred-block_id (gc_buffer cfg) ∙ v.buffer;
      unique = loop_facts.0;
      points = λ q e' p. let (e, y, f, z) = comes_from q e' p in Follows-Points q e e' y f z;
    }

    -- The memory slab is no longer referred to.
    pub transferred-Unreferenced : Unreferenced pf cfg (transferred c m d disk) m
    transferred-Unreferenced q e' p z =
        let (e, y, f, at) = comes_from q e' p in f.left (ap (λ (x : IndexEntry). x.slab_id) at ∙ z)

    -- Nor is another slab, if it was not before and is not the target.
    pub transferred-Unreferenced_other :
        (s : ℕ) → Unreferenced pf cfg c s → s ≢ d → Unreferenced pf cfg (transferred c m d disk) s
    transferred-Unreferenced_other s u n q e' p z =
        let (e, y, f, at) = comes_from q e' p in
        let there = ap (λ (x : IndexEntry). x.slab_id) at ∙ z in
        elim f.came [ inl t ↦ n (sym there ∙ t) | inr t ↦ u q e y (sym t ∙ there) ]

    -- Every key reads what it read before.
    pub get_slice-transferred :
        (q : Bytes) → get_slice pf cfg (transferred c m d disk) q ≡ get_slice pf cfg c q
    get_slice-transferred q = go (get_index_entry hashing c.index q) refl
      where
        go :
            (o : Option IndexEntry)
            → get_index_entry hashing c.index q ≡ o
            → get_slice pf cfg (transferred c m d disk) q ≡ get_slice pf cfg c q
        go none z =
            get_slice_absent pf cfg (transferred c m d disk) q
              (loop_facts.2 q ∙ ap (retarget m d 0 (c.slabs m).nr_alloc) z)
            ∙ sym (get_slice_absent pf cfg c q z)
        go (some e) z =
            let f = follows q e z in
            let (used, (slot, fetched, same)) = v.points q e z in
            get_slice_found pf cfg (transferred c m d disk) q f.entry slot f.found
              (f.same_slot ∙ fetched)
            ∙ sym (get_slice_found pf cfg c q e slot z fetched)
