-- ===== src/Init.antt =====
-- The slabs and slab classes at construction: `slab_init` and `slab_class_init` of src/kvcache.cpp, and the blocks that `iterate_all_blocks`
-- of include/ssd.h visits on a device. A key-value store visits the blocks in the order of its keys.
pub mod Lists
pub mod Running
use kvcache.Base.Int.{pos}
use kvcache.Base.{
  ℕ, zero, suc, ◌+◌, ◌-◌, ◌/◌, List, [], ◌∷◌, ◌++◌, Option, none, some, ltb, if◌then◌else◌, update,
  false,
}
use kvcache.Index.{Index}
use kvcache.Slot.{Slot}
use kvcache.Slab.{Slab}
use kvcache.State.{Config, Cache, Ring, SlabClass, empty_ring, push, channel_id}

-- The fields of a new object, with memory that is all zero, over an index and a disk.
abbrev pub zero_slot : Slot
zero_slot = record { key_len = 0; value_len = 0; bytes = [] }

abbrev pub blank : {D : Type 0} → Index → D → ℕ → ℕ → Cache D
blank idx disk low high = record {
  slabs = λ s. record {
    sid = 0;
    cid = some 0;
    nr_alloc = 0;
    slot_size = 0;
    nr_slots = 0;
    nr_used = 0;
    block_id = some 0;
    memory = λ _. zero_slot;
  };
  slab_partial = λ _. [];
  mslab_free = empty_ring;
  mslab_full = empty_ring;
  dslab_free = λ _. empty_ring;
  dslab_full = λ _. empty_ring;
  ops_pool = λ _. empty_ring;
  max_ops_pool_size = 0;
  ops_pool_size = 0;
  nr_free_dslab = 0;
  nr_full_dslab = pos 0;
  index = idx;
  next_mslab_flush_channel = 0;
  next_ops_pool_remove_channel = 0;
  free_block_water_mark_low = low;
  free_block_water_mark_high = high;
  shutdown = false;
  disk = disk;
}

-- The inner loop of `iterate_all_blocks`, from block `b` on.
unfoldable pub channel_blocks : ℕ → ℕ → List ℕ
channel_blocks zero b = []
channel_blocks (suc n) b = b ∷ channel_blocks n (b + 1)

-- The outer loop, with the channels that are left.
unfoldable pub iterate_channels : ℕ → ℕ → ℕ → List ℕ
iterate_channels blocks_per_channel zero b = []
iterate_channels blocks_per_channel (suc n) b =
    channel_blocks blocks_per_channel b
    ++ iterate_channels blocks_per_channel n (b + blocks_per_channel)

unfoldable pub iterate_all_blocks : Config → List ℕ
iterate_all_blocks cfg = iterate_channels cfg.blocks_per_channel cfg.nr_channels 0

-- The headers after the first loop; the numbers of slabs are those below `nr_mslab + nr_dslab`.
abbrev pub init_slab : Slab → ℕ → Slab
init_slab s sid = record s {
  sid = sid;
  cid = none;
  nr_alloc = 0;
  slot_size = 0;
  nr_slots = 0;
  nr_used = 0;
  block_id = none;
}

-- The memory slabs below `n` go to `mslab_free_`.
unfoldable pub free_mslabs : ℕ → Ring → Ring
free_mslabs zero ring = ring
free_mslabs (suc i) ring = push i (free_mslabs i ring)

module _ {D : Type 0} (cfg : Config) (ops_size : ℕ) where
  -- What is done with one block: the slab `sid` gets it, and goes to the pool or to the free slabs.
  unfoldable pub place_block : ℕ → ℕ → Cache D → Cache D
  place_block sid b c =
      let channel = channel_id cfg b in
      let slabs = update c.slabs sid (record (c.slabs sid) { block_id = some b }) in
      if ltb (c.ops_pool channel).size ops_size
      then record c {
        slabs = slabs;
        ops_pool = update c.ops_pool channel (push sid (c.ops_pool channel));
        ops_pool_size = c.ops_pool_size + 1;
      }
      else record c {
        slabs = slabs;
        dslab_free = update c.dslab_free channel (push sid (c.dslab_free channel));
        nr_free_dslab = c.nr_free_dslab + 1;
      }

  unfoldable pub place_blocks : ℕ → List ℕ → Cache D → Cache D
  place_blocks sid [] c = c
  place_blocks sid (b ∷ bs) c = place_blocks (sid + 1) bs (place_block sid b c)

  unfoldable pub slab_init : List ℕ → Cache D → Cache D
  slab_init blocks c =
      let placed = place_blocks cfg.nr_mslab blocks (record c {
        slabs = λ s. init_slab (c.slabs s) s;
        mslab_free = free_mslabs (cfg.nr_mslab - 1) c.mslab_free;
      }) in
      record placed { max_ops_pool_size = placed.ops_pool_size }

-- `slab_class_init`: the table of slab classes, from class `cid` on.
unfoldable pub slab_class_init : ℕ → ℕ → List ℕ → List SlabClass
slab_class_init block_size cid [] = []
slab_class_init block_size cid (slot_size ∷ sizes) =
    record { cid = cid; slot_size = slot_size; slots_per_slab = block_size / slot_size }
    ∷ slab_class_init block_size (cid + 1) sizes
