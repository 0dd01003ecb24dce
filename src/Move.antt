-- ===== src/Move.antt =====
-- How slots move from a slab to another: reading a disk slab, writing a slab to a disk slab, and
-- letting the index follow (src/kvcache.cpp).
pub mod Redirect
pub mod Transfer
use kvcache.Base.{ℕ, ◌+◌, Bool, true, ◌&&◌, Option, none, some, ◌==◌, if◌then◌else◌, update}
use kvcache.Index.{Index, IndexEntry, get_index_entry, set_location}
use kvcache.Slot.{Slot, key}
use kvcache.Slab.{Slab, assign, for_each_slot}
use kvcache.State.{Platform, Config, Cache, Outcome, done, or_throw, ◌>>=◌, set_slab}

-- What `flush_mslab_to_dslab` copies of the header.
abbrev pub copy_header : Slab → Slab → Slab
copy_header dslab mslab = record dslab {
  cid = mslab.cid;
  slot_size = mslab.slot_size;
  nr_slots = mslab.nr_slots;
  nr_alloc = mslab.nr_alloc;
  nr_used = mslab.nr_used;
}

module _ (pf : Platform) where
  open pf use {Disk, hashing, read_block, write_block}

  -- The slab in `read_buffer`: the block's slots under the header of the disk slab.
  unfoldable pub read_dslab : Cache Disk → Slab → Outcome Slab
  read_dslab c dslab = do
    block_id ← or_throw dslab.block_id
    image ← or_throw (read_block c.disk block_id)
    done (assign image dslab)

  unfoldable pub flush_mslab_to_dslab : Cache Disk → ℕ → ℕ → Outcome (Cache Disk)
  flush_mslab_to_dslab c m d = do
    block_id ← or_throw (c.slabs d).block_id
    disk ← or_throw (write_block c.disk block_id (c.slabs m))
    done (record c { disk = disk; slabs = update c.slabs d (copy_header (c.slabs d) (c.slabs m)) })

  -- The body of the loop of `modify_index_to`, over the index and the count of moved entries.
  unfoldable pub redirect : ℕ → ℕ → Index × ℕ → Slot → ℕ → (Index × ℕ) × Bool
  redirect src dst (idx, nr_used) slot i = elim (get_index_entry hashing idx (key slot)) [
    | none ↦ ((idx, nr_used), true)
    | some e ↦
        if e.slab_id == src && e.slot_id == i
        then ((set_location hashing idx (key slot) dst e.slot_id, nr_used + 1), true)
        else ((idx, nr_used), true)
  ]

  unfoldable pub modify_index_to : Cache Disk → ℕ → ℕ → Cache Disk
  modify_index_to c src dst =
      let s = c.slabs src in
      let d = c.slabs dst in
      let (idx, nr_used) = for_each_slot s (redirect s.sid d.sid) (c.index, 0) in
      let cleared = update c.slabs src (record s { nr_used = 0 }) in
      record c {
        index = idx;
        slabs = update cleared dst (record (cleared dst) { nr_used = nr_used });
      }
