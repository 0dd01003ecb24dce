-- ===== src/Flush/Images.antt =====
-- The images on the disk (as quick GC reads them) after the part of `do_slab_flush` of
-- src/kvcache.cpp behind the choice of the two slabs.
use kvcache.Base.{ℕ, ◌≡◌, subst, some, arith, Bool-cases, inl, inr, ◌==◌}
use kvcache.Slab.{reset}
use kvcache.State.{Platform, Config, Cache, done, >>=-eq-done, done_injective}
use kvcache.Move.{flush_mslab_to_dslab, modify_index_to}
use kvcache.Move.Transfer.{Ready, wrote, flush_mslab_to_dslab_done}
use kvcache.Reads.{Sound}
use kvcache.Flush.{finish_flush, flush_pair}
use kvcache.Gc.Quick.Evict.{Imaged}

module _ (pf : Platform) (cfg : Config) where
  open pf use {Disk, read_block, write_block, read-write_block}

  finish_flush-Imaged :
      (c : Cache Disk) (m d b channel : ℕ) (disk : Disk)
      → Sound pf cfg c
      → Ready pf cfg c m d b
      → Imaged pf cfg c
      → write_block c.disk b (c.slabs m) ≡ some disk
      → Imaged pf cfg (finish_flush pf cfg (wrote pf cfg c m d disk) m channel d)
  unfolding finish_flush modify_index_to reset
  finish_flush-Imaged c m d b channel disk v r im w s q image p read =
      let stored = read-write_block c.disk disk b q (c.slabs m) w in
      elim (Bool-cases (s == d)) [
        | inl y ↦ ground (arith, y, p, read, stored, r.to_block, r.from_memory)
        | inr n ↦
            ground
              (arith, n, p, read, stored, r.to_block, r.from_memory, v.blocks s d b, im s q image)
      ]

  pub flush_pair-Imaged :
      (c c' : Cache Disk) (m d b channel : ℕ)
      → Sound pf cfg c
      → Ready pf cfg c m d b
      → Imaged pf cfg c
      → flush_pair pf cfg c m channel d ≡ done c'
      → Imaged pf cfg c'
  unfolding flush_pair
  flush_pair-Imaged c c' m d b channel v r im p =
      let (written, q, z) = >>=-eq-done (flush_mslab_to_dslab pf c m d) _ p in
      let (disk, w, e) = flush_mslab_to_dslab_done pf cfg c m d b written r.to_block q in
      subst (Imaged pf cfg) (done_injective z)
        (rw e (finish_flush-Imaged c m d b channel disk v r im w))
