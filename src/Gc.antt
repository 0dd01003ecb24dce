-- ===== src/Gc.antt =====
-- One round of garbage collection (`do_slab_gc` of src/kvcache.cpp).
pub mod Quick
pub mod Copy
pub mod Normal
pub mod Turn
use kvcache.Base.{ℕ, Bool, true, false, ◌==◌, ltb, if◌then◌else◌}
use kvcache.Index.{Index}
use kvcache.State.{Platform, Config, Cache, Outcome, done, blocks}
use Quick.{do_quick_gc, quick_gc}
use Normal.{normal_gc}
use kvcache.Base.Int.{pos, pos_part}

module _ (pf : Platform) (cfg : Config) where
  open pf use {Disk}

  -- The choice among the three ways to collect.
  unfoldable pub gc_round : ℕ → Cache Disk → Outcome (Bool × Cache Disk)
  gc_round fuel c =
      if c.index.nr_free == 0
      then do_quick_gc pf cfg fuel c (pos 1) 0
      else if ltb c.nr_free_dslab c.free_block_water_mark_low
      then quick_gc pf cfg fuel c
      else normal_gc pf cfg fuel c

  -- The wait for `nr_full_dslab_` to be above 0, then the round. The result says whether to run another.
  unfoldable pub do_slab_gc : ℕ → Cache Disk → Outcome (Bool × Cache Disk)
  unfolding gc_round
  do_slab_gc fuel c =
      if c.shutdown
      then done (false, c)
      else if pos_part c.nr_full_dslab == 0
      then blocks
      else gc_round fuel c
