-- ===== src/Gc/Quick.antt =====
-- Quick GC (`quick_gc`, `do_quick_gc` and `evict_dslab` of src/kvcache.cpp).
pub mod Thins
pub mod Turn
pub mod Drop
pub mod Evict
pub mod Reads
pub mod Full
pub mod Select
pub mod Ends
use kvcache.Base.Int.{negsuc, ◌+ℤ◌}
use kvcache.Base.{
  ℕ, zero, suc, ◌+◌, ◌-◌, ◌*◌, ◌/◌, min, Bool, true, List, [], ◌∷◌, Option, none, some, update,
}
use kvcache.Base.Int.{ℤ, pos, pos_part, sub_ℕ, ◌+ℤ◌, truncated_div}
use kvcache.Index.{Index, get_index_entry, del_index_entry}
use kvcache.Slot.{Slot, key}
use kvcache.Slab.{Slab, reset, for_each_slot}
use kvcache.State.{
  Platform, Config, Cache, Ring, Outcome, done, throws, no_fuel, or_throw, ◌>>=◌, set_slab, push,
  detach, first_entry, channel_id, next_channel,
}
use kvcache.Move.{read_dslab}

-- The channel of a disk slab. `-1 / n`, of a slab with no block, is 0.
abbrev pub channel_of : Config → Slab → ℕ
channel_of cfg s = elim s.block_id [ none ↦ 0 | some b ↦ channel_id cfg b ]

module _ (pf : Platform) (cfg : Config) where
  open pf use {Disk, hashing, read_block}

  -- The body of the loop of `evict_dslab`: the entry goes, wherever it points.
  unfoldable pub drop_entry : Index → Slot → ℕ → Index × Bool
  drop_entry idx slot i = (del_index_entry hashing idx (key slot), true)

  -- `evict_dslab(fake_slab, read_buffer)`: the argument lies in the buffer that the block is read to
  -- again, so the header that the loop sees is the one on the disk.
  unfoldable pub evict_dslab : Cache Disk → Slab → Outcome (Cache Disk)
  evict_dslab c fake_slab = do
    block_id ← or_throw fake_slab.block_id
    image ← or_throw (read_block c.disk block_id)
    done (record c { index = for_each_slot image drop_entry c.index })

  -- The loop that selects `n` full disk slabs, in turn from the channels. It has no exit but `n = 0`.
  unfoldable pub select_to_drop : ℕ → Cache Disk → ℕ → List ℕ → Outcome (Cache Disk × List ℕ)
  select_to_drop fuel c zero to_drop = done (c, to_drop)
  select_to_drop zero c (suc n) to_drop = no_fuel
  select_to_drop (suc fuel) c (suc n) to_drop =
      let channel = next_channel cfg c.next_ops_pool_remove_channel in
      let turned = record c { next_ops_pool_remove_channel = channel } in
      elim (first_entry (c.dslab_full channel).items) [
        | none ↦ select_to_drop fuel turned (suc n) to_drop
        | some d ↦
            select_to_drop fuel
              (record turned {
                dslab_full = update c.dslab_full channel (detach d (c.dslab_full channel));
                nr_full_dslab = c.nr_full_dslab +ℤ negsuc 0;
              })
              n (d ∷ to_drop)
      ]

  -- The loop that deletes the index entries of the selected slabs.
  unfoldable pub evict_all : Cache Disk → List ℕ → Outcome (Cache Disk)
  evict_all c [] = done c
  evict_all c (d ∷ ds) = do
    fake_slab ← read_dslab pf c (c.slabs d)
    c' ← evict_dslab c fake_slab
    evict_all (set_slab c' d (record (c'.slabs d) { nr_used = 0 })) ds

  -- The loop that gives slabs back to `ops_pool_`, with the slabs that it leaves on `to_drop`. The
  -- slab in hand when the count is reached has left `to_drop` and goes nowhere.
  unfoldable pub refill_ops_pool : Cache Disk → ℕ → List ℕ → Cache Disk × List ℕ
  refill_ops_pool c n [] = (c, [])
  refill_ops_pool c zero (d ∷ ds) = (set_slab c d (reset (c.slabs d)), ds)
  refill_ops_pool c (suc n) (d ∷ ds) =
      let channel = channel_of cfg (c.slabs d) in
      refill_ops_pool
        (record c {
          slabs = update c.slabs d (reset (c.slabs d));
          ops_pool = update c.ops_pool channel (push d (c.ops_pool channel));
          ops_pool_size = c.ops_pool_size + 1;
        })
        n ds

  -- The loop that gives slabs back to `dslab_free_`.
  unfoldable pub refill_free : Cache Disk → List ℕ → Cache Disk
  refill_free c [] = c
  refill_free c (d ∷ ds) =
      let channel = channel_of cfg (c.slabs d) in
      refill_free
        (record c {
          slabs = update c.slabs d (reset (c.slabs d));
          dslab_free = update c.dslab_free channel (push d (c.dslab_free channel));
          nr_free_dslab = c.nr_free_dslab + 1;
        })
        ds

  unfoldable pub do_quick_gc : ℕ → Cache Disk → ℤ → ℕ → Outcome (Bool × Cache Disk)
  do_quick_gc fuel c nr_back_to_free_dslab nr_back_to_ops_pool = do
    (selected, to_drop) ←
        select_to_drop fuel c (pos_part (nr_back_to_free_dslab +ℤ pos nr_back_to_ops_pool)) []
    evicted ← evict_all selected to_drop
    let (refilled, rest) = refill_ops_pool evicted nr_back_to_ops_pool to_drop
    done (true, refill_free refilled rest)

  -- The water marks after quick GC raised them. The products with 1.5 and 0.9 are taken in `double`
  -- and cut to `int`; up to 2 ^ 31 that is the integer quotient.
  unfoldable pub raise_water_marks : Cache Disk → Cache Disk
  raise_water_marks c =
      let high = min (3 * c.free_block_water_mark_high / 2) cfg.free_block_water_mark_high_max in
      let low = min (3 * c.free_block_water_mark_low / 2) (9 * high / 10) in
      record c {
        free_block_water_mark_high = high;
        free_block_water_mark_low = min low c.max_ops_pool_size;
      }

  unfoldable pub quick_gc : ℕ → Cache Disk → Outcome (Bool × Cache Disk)
  quick_gc fuel c =
      let c' = raise_water_marks c in
      let low = c'.free_block_water_mark_low in
      let nr_back_to_ops_pool = min c.ops_pool_size (c.max_ops_pool_size - c.ops_pool_size) in
      -- `low - nr_free_dslab + 0.3 * low`, cut to `int`
      let nr_back_to_free_dslab = truncated_div (sub_ℕ (13 * low) (10 * c.nr_free_dslab)) 10 in
      do_quick_gc fuel c' nr_back_to_free_dslab nr_back_to_ops_pool
