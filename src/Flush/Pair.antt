-- ===== src/Flush/Pair.antt =====
-- The write of a full memory slab in `do_slab_flush` (src/kvcache.cpp), and the lists of slabs after
-- it.
use kvcache.Base.{ℕ, Bytes, ◌≡◌, ◌≢◌, ◌∙◌, refl, sym, ap, subst, [], ◌∷◌, none, some, arith}
use kvcache.Index.{get_index_entry}
use kvcache.Slab.{reset}
use kvcache.State.{
  Platform, Config, Cache, empty_ring, done, >>=-eq-done, done_injective, push, gc_buffer,
}
use kvcache.Move.{flush_mslab_to_dslab, modify_index_to}
use kvcache.Move.Transfer.{Ready, wrote, transferred, flush_mslab_to_dslab_done}
use kvcache.Move.Transfer.Spares.{transferred-Spares, transferred-absent}
use kvcache.Reads.{Sound, Unreferenced}
use kvcache.Reads.Turn.{Spares}
use kvcache.Lists.{count, Placed}
use kvcache.Lists.Channels.{OnChannel, Spread-slabs}
use kvcache.Lists.Channels.Give.{give_full-Spread}
use kvcache.Api.{get_slice}
use kvcache.Gc.Copy.Turn.{Collecting}
use kvcache.Gc.Turn.{Resting}
use kvcache.Flush.{flush_pair, finish_flush}
use kvcache.Flush.Reads.{flush_pair-Flushed}
use kvcache.Gc.Quick.Evict.{Imaged}
use kvcache.Flush.Images.{flush_pair-Imaged}

module _ (pf : Platform) (cfg : Config) where
  open pf use {Disk, hashing, write_block}

  -- What a write of the full slab `m` does to reads and slabs.
  pub record Freed (c c' : Cache Disk) (m : ℕ) : Type 0 where
    pub state : Resting pf cfg c'
    pub reads : (q : Bytes) → get_slice pf cfg c' q ≡ get_slice pf cfg c q
    pub block_id : (s : ℕ) → (c'.slabs s).block_id ≡ (c.slabs s).block_id
    pub spared : (s : ℕ) → (c.slabs s).block_id ≡ none → s ≢ m → Spares pf cfg c c' s
    pub absent :
        (q : Bytes)
        → get_index_entry hashing c.index q ≡ none
        → get_index_entry hashing c'.index q ≡ none
    pub free : c'.mslab_free ≡ push m c.mslab_free
    pub full : c'.mslab_full ≡ c.mslab_full
    pub partial : c'.slab_partial ≡ c.slab_partial
    pub emptied : (c'.slabs m).nr_alloc ≡ 0

  module _ (c : Cache Disk) (m d b channel : ℕ) (disk : Disk)
      (s : Collecting pf cfg c (λ _. empty_ring) (d ∷ [])) (place : OnChannel cfg c.slabs channel d)
      (r : Ready pf cfg c m d b) (w : write_block c.disk b (c.slabs m) ≡ some disk) where
    ended : Cache Disk
    ended = finish_flush pf cfg (wrote pf cfg c m d disk) m channel d

    ended-block_id : (x : ℕ) → (ended.slabs x).block_id ≡ (c.slabs x).block_id
    unfolding ended finish_flush modify_index_to reset
    ended-block_id x = ground arith

    ended-nr_alloc : (x : ℕ) → x ≢ d → (c.slabs x).nr_alloc ≡ 0 → (ended.slabs x).nr_alloc ≡ 0
    unfolding ended finish_flush modify_index_to reset
    ended-nr_alloc x n z = ground (arith, n, z)

    ended-Placed : Placed cfg ended (λ _. empty_ring) []
    unfolding ended finish_flush modify_index_to count
    ended-Placed =
        let (b', p, q) = place in
        give_full-Spread cfg ended.slabs _ _ _ _ [] (λ x. (ended.dslab_full x).items) channel d
          (Spread-slabs cfg c.slabs _ _ _ _ (d ∷ []) ended.slabs s.placed ended-block_id
            (λ x y h z. ended-nr_alloc y (λ e. ground (arith, e, s.placed.once x y, h)) z))
          (b', ended-block_id d ∙ p, q) (λ x. unfold push in ground arith)

    ended-Spares : (x : ℕ) → (c.slabs x).block_id ≡ none → x ≢ m → Spares pf cfg c ended x
    unfolding ended finish_flush transferred
    ended-Spares x p n =
        let t =
          transferred-Spares pf cfg c m d b disk s.sound r w x n
            (λ e. ground (arith, e, p, r.to_block)) in
        record { slab = ground (arith, n, t.slab); entries = t.entries }

  pub flush_pair-Freed :
      (c c' : Cache Disk) (m channel d : ℕ)
      → Collecting pf cfg c (λ _. empty_ring) (d ∷ [])
      → OnChannel cfg c.slabs channel d
      → (c.slabs d).nr_alloc ≡ 0
      → (c.slabs m).block_id ≡ none
      → flush_pair pf cfg c m channel d ≡ done c'
      → Freed c c' m
  unfolding flush_pair
  flush_pair-Freed c c' m channel d s place unused memory p =
      let (b, on, at) = place in
      let r : Ready pf cfg c m d b = record {
        from_memory = memory;
        to_block = on;
        unused = unused;
      } in
      let f = flush_pair-Flushed pf cfg c c' m d b channel s.sound r p in
      let im = flush_pair-Imaged pf cfg c c' m d b channel s.sound r s.imaged p in
      let (written, q, z) = >>=-eq-done (flush_mslab_to_dslab pf c m d) _ p in
      let (disk, w, e) = flush_mslab_to_dslab_done pf cfg c m d b written on q in
      let same : ended c m d b channel disk s place r w ≡ c' =
        unfold ended in ap (λ x. finish_flush pf cfg x m channel d) (sym e) ∙ done_injective z in
      let last = λ (x : Cache Disk).
        Sound pf cfg x
        × Imaged pf cfg x
        × Unreferenced pf cfg x (gc_buffer cfg)
        × ((k : Bytes) → get_slice pf cfg x k ≡ get_slice pf cfg c k) in
      let (sound, imaged, idle, reads) = subst last (sym same) (
        f.sound,
        im,
        f.others (gc_buffer cfg) s.idle (λ z. ground (arith, z, s.sound.buffer, on)),
        f.reads,
      ) in
      subst (λ x. Freed c x m) same
        (record {
          state = record {
            sound = sound;
            imaged = imaged;
            idle = idle;
            placed = ended-Placed c m d b channel disk s place r w;
            cleared = λ x y h. absurd (unfold count in omega (arith, h));
          };
          reads = reads;
          block_id = ended-block_id c m d b channel disk s place r w;
          spared = ended-Spares c m d b channel disk s place r w;
          absent =
              unfold ended finish_flush transferred in
              transferred-absent pf cfg c m d b disk s.sound r w;
          free = unfold ended finish_flush modify_index_to in refl;
          full = unfold ended finish_flush modify_index_to in refl;
          partial = unfold ended finish_flush modify_index_to in refl;
          emptied = unfold ended finish_flush modify_index_to reset in ground arith;
        })
