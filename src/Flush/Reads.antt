-- ===== src/Flush/Reads.antt =====
-- The part of `do_slab_flush` (src/kvcache.cpp) behind the choice of the two slabs, and the reads
-- after it.
use kvcache.Base.{ℕ, ◌≡◌, ◌≢◌, refl, ◌∙◌, subst, Bytes, some, arith}
use kvcache.Slab.{reset}
use kvcache.State.{Platform, Config, Cache, done, >>=-eq-done, done_injective}
use kvcache.Move.{flush_mslab_to_dslab}
use kvcache.Move.Transfer.{
  Ready, wrote, transferred, flush_mslab_to_dslab_done, transferred-Sound, transferred-Unreferenced,
  transferred-Unreferenced_other, get_slice-transferred,
}
use kvcache.Reads.{Sound, Unreferenced}
use kvcache.Reads.Frame.{Keeps, Keeps-Sound, get_slice-Keeps, Keeps-Unreferenced}
use kvcache.Flush.{finish_flush, flush_pair}
use kvcache.Api.{get_slice}

module _ (pf : Platform) (cfg : Config) where
  open pf use {Disk, write_block}

  -- What a flush of `m` to `d` keeps.
  pub record Flushed (c c' : Cache Disk) (m d : ℕ) : Type 0 where
    pub sound : Sound pf cfg c'
    pub reads : (q : Bytes) → get_slice pf cfg c' q ≡ get_slice pf cfg c q
    pub emptied : Unreferenced pf cfg c' m
    pub others : (s : ℕ) → Unreferenced pf cfg c s → s ≢ d → Unreferenced pf cfg c' s

  module _ (c : Cache Disk) (m d b channel : ℕ) (disk : Disk) where
    finish_flush-Keeps :
        Unreferenced pf cfg (transferred pf cfg c m d disk) m
        → Keeps pf cfg
            (transferred pf cfg c m d disk)
            (finish_flush pf cfg (wrote pf cfg c m d disk) m channel d)
    unfolding finish_flush transferred reset
    finish_flush-Keeps u = record {
      chains = refl;
      chain_count = refl;
      disk = refl;
      sid = λ s. ground arith;
      block_id = λ s. ground arith;
      in_use = λ k e p used. (ground arith, ground (arith, u k e p));
    }

    finish_flush-Flushed :
        Sound pf cfg c
        → Ready pf cfg c m d b
        → write_block c.disk b (c.slabs m) ≡ some disk
        → Flushed c (finish_flush pf cfg (wrote pf cfg c m d disk) m channel d) m d
    finish_flush-Flushed v r w =
        let t = transferred pf cfg c m d disk in
        let u = transferred-Unreferenced pf cfg c m d b disk v r w in
        let kept = finish_flush-Keeps u in
        let c' = finish_flush pf cfg (wrote pf cfg c m d disk) m channel d in
        let sound = transferred-Sound pf cfg c m d b disk v r w in
        record {
          sound = Keeps-Sound pf cfg t c' kept sound;
          reads = λ q.
              get_slice-Keeps pf cfg t c' kept sound q
              ∙ get_slice-transferred pf cfg c m d b disk v r w q;
          emptied = Keeps-Unreferenced pf cfg t c' kept m u;
          others = λ s y n.
              Keeps-Unreferenced pf cfg t c' kept s
                (transferred-Unreferenced_other pf cfg c m d b disk v r w s y n);
        }

  pub flush_pair-Flushed :
      (c c' : Cache Disk) (m d b channel : ℕ)
      → Sound pf cfg c
      → Ready pf cfg c m d b
      → flush_pair pf cfg c m channel d ≡ done c'
      → Flushed c c' m d
  unfolding flush_pair
  flush_pair-Flushed c c' m d b channel v r p =
      let (written, q, z) = >>=-eq-done (flush_mslab_to_dslab pf c m d) _ p in
      let (disk, w, e) = flush_mslab_to_dslab_done pf cfg c m d b written r.to_block q in
      subst (λ x. Flushed c x m d) (done_injective z)
        (rw e (finish_flush-Flushed c m d b channel disk v r w))
