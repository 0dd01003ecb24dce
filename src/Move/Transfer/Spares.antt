-- ===== src/Move/Transfer/Spares.antt =====
-- What the write of a slab from memory to a disk slab (src/kvcache.cpp) leaves as it was.
use kvcache.Base.{
  ℕ, ◌≡◌, ◌≢◌, sym, ◌∙◌, ap, Bytes, Option, none, some, arith, ◌==◌, Bool-cases, inl, inr,
}
use kvcache.Index.{IndexEntry, get_index_entry}
use kvcache.State.{Platform, Config, Cache}
use kvcache.Move.{modify_index_to}
use kvcache.Move.Redirect.{retarget}
use kvcache.Move.Transfer.{
  Ready, transferred, loop_facts, transferred-block_id, transferred-nr_alloc, transferred-disk,
}
use kvcache.Reads.{Sound}
use kvcache.Reads.Turn.{Spares}
use kvcache.Gc.Quick.Evict.{Imaged}

module _ (pf : Platform) (cfg : Config) where
  open pf use {Disk, hashing, read_block, write_block, read-write_block}

  module _ (c : Cache Disk) (m d b : ℕ) (disk : Disk) (v : Sound pf cfg c)
      (r : Ready pf cfg c m d b) (w : write_block c.disk b (c.slabs m) ≡ some disk) where
    came_from :
        (o : Option IndexEntry) (e : IndexEntry)
        → retarget m d 0 (c.slabs m).nr_alloc o ≡ some e
        → e.slab_id ≢ d
        → o ≡ some e
    came_from none e p n = absurd (cc)
    came_from (some f) e p n = ground (arith, p, n)

    pub transferred-Spares :
        (s : ℕ) → s ≢ m → s ≢ d → Spares pf cfg c (transferred pf cfg c m d disk) s
    transferred-Spares s n k = record {
      slab = unfold transferred modify_index_to in ground (arith, n, k);
      entries = λ q e p at.
          came_from (get_index_entry hashing c.index q) e
            (sym ((loop_facts pf cfg c m d b disk v r w).2 q) ∙ p) (λ z. k (sym at ∙ z));
    }

    pub transferred-absent :
        (q : Bytes)
        → get_index_entry hashing c.index q ≡ none
        → get_index_entry hashing (transferred pf cfg c m d disk).index q ≡ none
    transferred-absent q p =
        (loop_facts pf cfg c m d b disk v r w).2 q ∙ ap (retarget m d 0 (c.slabs m).nr_alloc) p

    pub transferred-Imaged : Imaged pf cfg c → Imaged pf cfg (transferred pf cfg c m d disk)
    transferred-Imaged im s q image p read =
        let stored = read-write_block c.disk disk b q (c.slabs m) w in
        let block = transferred-block_id pf cfg c m d b disk v r w s in
        let used = transferred-nr_alloc pf cfg c m d b disk v r w s in
        let there = transferred-disk pf cfg c m d b disk v r w in
        elim (Bool-cases (s == d)) [
          | inl y ↦ ground (arith, y, p, read, stored, block, used, there, r.to_block)
          | inr n ↦ ground (
            arith,
            n,
            p,
            read,
            stored,
            block,
            used,
            there,
            r.to_block,
            v.blocks s d b,
            im s q image,
          )
        ]
