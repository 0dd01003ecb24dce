-- ===== src/Gc/Copy.antt =====
-- `gc_dslabs` (src/kvcache.cpp): the live slots of several full disk slabs are copied to one slab
-- from the over-provisioned pool.
pub mod Rescue
pub mod Turn
pub mod Slabs
pub mod Lists
use kvcache.Base.Int.{negsuc, ◌+ℤ◌}
use kvcache.Base.{
  ℕ, ◌-◌, Bool, true, false, ◌&&◌, List, [], ◌∷◌, none, some, ◌==◌, if◌then◌else◌, update,
}
use kvcache.Index.{Index, get_index_entry, set_location}
use kvcache.Slot.{Slot, key, value, write}
use kvcache.Slab.{Slab, reset, slot_alloc, for_each_slot}
use kvcache.State.{
  Platform, Config, Cache, Ring, Outcome, done, faults, ◌>>=◌, set_slab, push, detach, first_entry,
  gc_buffer, within,
}
use kvcache.Move.{read_dslab, flush_mslab_to_dslab, modify_index_to}
use kvcache.Channel.{find_channel}
use kvcache.Gc.Quick.{channel_of}

abbrev pub has_items : (ℕ → Ring) → ℕ → Bool
has_items rings channel = elim (rings channel).items [ [] ↦ false | x ∷ xs ↦ true ]

module _ (pf : Platform) (cfg : Config) where
  open pf use {Disk, hashing}

  -- The first slab of the next channel of `ops_pool_` that has one. With none the pointer stays null
  -- and is read.
  unfoldable pub take_ops_slab : Cache Disk → Outcome (ℕ × Cache Disk)
  take_ops_slab c =
      let (found, following) =
        find_channel cfg (has_items c.ops_pool) c.next_ops_pool_remove_channel in
      elim found [
        | none ↦ faults
        | some channel ↦ elim (first_entry (c.ops_pool channel).items) [
          | none ↦ faults
          | some d ↦ done (
            d,
            record c {
              next_ops_pool_remove_channel = following;
              ops_pool = update c.ops_pool channel (detach d (c.ops_pool channel));
              ops_pool_size = c.ops_pool_size - 1;
            },
          )
        ]
      ]

  -- The slab from the pool joins the full slabs. `nr_full_dslab_` is not raised here.
  unfoldable pub enlist_ops_slab : Cache Disk → ℕ → Cache Disk
  enlist_ops_slab c d =
      let channel = channel_of cfg (c.slabs d) in
      record c {
        slabs = update c.slabs d (reset (c.slabs d));
        dslab_full = update c.dslab_full channel (push d (c.dslab_full channel));
      }

  -- The slabs to free leave the full slabs for `free_list`.
  unfoldable pub retire : Cache Disk → List ℕ → (ℕ → Ring) → Cache Disk × (ℕ → Ring)
  retire c [] free_list = (c, free_list)
  retire c (d ∷ ds) free_list =
      let channel = channel_of cfg (c.slabs d) in
      retire
        (record c {
          dslab_full = update c.dslab_full channel (detach d (c.dslab_full channel));
          nr_full_dslab = c.nr_full_dslab +ℤ negsuc 0;
        })
        ds (update free_list channel (push d (free_list channel)))

  unfoldable pub prepare_gc_buffer : Cache Disk → ℕ → Cache Disk
  prepare_gc_buffer c first =
      let s = c.slabs first in
      set_slab c (gc_buffer cfg) (record (reset (c.slabs (gc_buffer cfg))) {
        slot_size = s.slot_size;
        nr_slots = s.nr_slots;
        cid = s.cid;
      })

  -- The body of the loop over the slots of a slab with id `sid`: a slot that the index still points
  -- to is written to the next slot of `gc_buffer_`.
  unfoldable pub rescue : ℕ → Index × Slab → Slot → ℕ → (Index × Slab) × Bool
  rescue sid (idx, buffer) slot i = elim (get_index_entry hashing idx (key slot)) [
    | none ↦ ((idx, buffer), true)
    | some e ↦
        if e.slab_id == sid && e.slot_id == i
        then (
          (
            set_location hashing idx (key slot) buffer.sid buffer.nr_alloc,
            record (slot_alloc buffer).1 {
              memory =
                  update buffer.memory buffer.nr_alloc
                    (write (buffer.memory buffer.nr_alloc) (key slot) (value slot));
            },
          ),
          true,
        )
        else ((idx, buffer), true)
  ]

  -- It faults where a slab holds slots that `gc_buffer_` has no room for: the slots of the buffer are
  -- handed out in order, and so the last one tells.
  unfoldable pub rescue_all : Cache Disk → List ℕ → Outcome (Cache Disk)
  rescue_all c [] = done c
  rescue_all c (d ∷ ds) = do
    fake_slab ← read_dslab pf c (c.slabs d)
    let (idx, buffer) =
        for_each_slot fake_slab (rescue (c.slabs d).sid) (c.index, c.slabs (gc_buffer cfg))
    let copied = record c { index = idx; slabs = update c.slabs (gc_buffer cfg) buffer }
    (if within cfg buffer
        then rescue_all (set_slab copied d (record (copied.slabs d) { nr_used = 0 })) ds
        else faults)

  -- `to_drop` has a first element wherever this is called.
  unfoldable pub gc_dslabs : Cache Disk → List ℕ → (ℕ → Ring) → Outcome (Cache Disk × (ℕ → Ring))
  gc_dslabs c [] free_list = faults
  gc_dslabs c (d ∷ ds) free_list = do
    (ops_slab, c₁) ← take_ops_slab c
    let (c₂, free_list') = retire (enlist_ops_slab c₁ ops_slab) (d ∷ ds) free_list
    c₃ ← rescue_all (prepare_gc_buffer c₂ d) (d ∷ ds)
    c₄ ← flush_mslab_to_dslab pf c₃ (gc_buffer cfg) ops_slab
    done (modify_index_to pf c₄ (gc_buffer cfg) ops_slab, free_list')
