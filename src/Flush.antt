-- ===== src/Flush.antt =====
-- One round of flushing (`do_slab_flush` of src/kvcache.cpp): a full memory slab is written to a free
-- disk slab, and the index follows. The locks are not modelled: a round is one step.
pub mod Reads
pub mod Round
pub mod Images
pub mod Turn
pub mod Wait
pub mod Pair
use kvcache.Base.Int.{pos, ◌+ℤ◌}
use kvcache.Base.{
  ℕ, zero, suc, ◌+◌, ◌-◌, Bool, true, false, List, [], ◌∷◌, Option, none, some, update,
  if◌then◌else◌,
}
use kvcache.Slab.{reset}
use kvcache.State.{
  Platform, Config, Cache, Outcome, done, blocks, faults, no_fuel, ◌>>=◌, push, detach, first_entry,
}
use kvcache.Channel.{find_channel}
use kvcache.Move.{flush_mslab_to_dslab, modify_index_to}
use kvcache.Gc.{do_slab_gc}
use kvcache.Gc.Copy.{has_items}

module _ (pf : Platform) (cfg : Config) where
  open pf use {Disk}

  -- The search for a free disk slab: its channel and its id.
  unfoldable pub take_free_dslab : Cache Disk → Option (ℕ × ℕ) × Cache Disk
  take_free_dslab c =
      let (found, following) =
        find_channel cfg (has_items c.dslab_free) c.next_mslab_flush_channel in
      let turned = record c { next_mslab_flush_channel = following } in
      elim found [
        | none ↦ (none, turned)
        | some channel ↦ elim (first_entry (c.dslab_free channel).items) [
          | none ↦ (none, turned)
          | some d ↦ (
            some (channel, d),
            record turned {
              dslab_free = update c.dslab_free channel (detach d (c.dslab_free channel));
              nr_free_dslab = c.nr_free_dslab - 1;
            },
          )
        ]
      ]

  -- The search, repeated after each round of garbage collection while nothing is free. `none`: the
  -- cache is shutting down.
  unfoldable pub await_free_dslab : ℕ → ℕ → Cache Disk → Outcome (Option (ℕ × ℕ) × Cache Disk)
  await_free_dslab gc_fuel zero c = no_fuel
  await_free_dslab gc_fuel (suc fuel) c =
      let (taken, c') = take_free_dslab c in
      elim taken [
        | some d ↦ done (some d, c')
        | none ↦ (do_slab_gc pf cfg gc_fuel c') >>= λ r.
            if r.1.shutdown then done (none, r.1) else await_free_dslab gc_fuel fuel r.1
      ]

  -- What follows the write: the index is led to the disk slab, the memory slab is free again, and the
  -- disk slab is full.
  unfoldable pub finish_flush : Cache Disk → ℕ → ℕ → ℕ → Cache Disk
  finish_flush written m channel d =
      let moved = modify_index_to pf written m d in
      record moved {
        slabs = update moved.slabs m (reset (moved.slabs m));
        mslab_free = push m moved.mslab_free;
        dslab_full = update moved.dslab_full channel (push d (moved.dslab_full channel));
        nr_full_dslab = moved.nr_full_dslab +ℤ pos 1;
      }

  -- From the write of `mslab` to disk slab `d` of `channel` to the end of the round.
  unfoldable pub flush_pair : Cache Disk → ℕ → ℕ → ℕ → Outcome (Cache Disk)
  unfolding finish_flush
  flush_pair c m channel d =
      flush_mslab_to_dslab pf c m d >>= λ written. done (finish_flush written m channel d)

  unfoldable pub do_slab_flush : ℕ → ℕ → Cache Disk → Outcome (Bool × Cache Disk)
  do_slab_flush gc_fuel fuel c =
      if c.shutdown then done (false, c) else elim (first_entry c.mslab_full.items) [
        | none ↦ blocks
        | some m ↦ do
          (taken, c') ←
              await_free_dslab gc_fuel fuel (record c { mslab_full = detach m c.mslab_full })
          elim taken [
            | none ↦ done (false, c')
            | some (channel, d) ↦ flush_pair c' m channel d >>= λ c''. done (true, c'')
          ]
      ]
