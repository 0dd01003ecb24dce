-- ===== src/Api.antt =====
-- The public operations of `class KVCache` (src/kvcache.cpp): `Get`, `Put` and `Delete`, with the
-- allocation of slots. A call is one step: what the background threads do while it waits is the
-- rounds of flushing and collection that it waits for, and nothing else.
pub mod Delete
pub mod Errors
pub mod Record
pub mod Alloc
pub mod Store
pub mod Running
pub mod Room
pub mod Grant
pub mod Relink
pub mod Wait
pub mod Insert
pub mod Puts
pub mod Stored
use kvcache.Base.{
  ℕ, zero, suc, ◌+◌, ◌-◌, ◌/◌, Bytes, bytes_eq, Bool, true, false, ◌&&◌, not, List, [], ◌∷◌, Option,
  none, some, ◌==◌, ltb, if◌then◌else◌, update, length,
}
use kvcache.Status.{
  Status, ok_status, not_found_status, object_too_large_status, buffer_too_small_status,
  shutdown_status,
}
use kvcache.Index.{
  Index, IndexEntry, get_index_entry, put_index_entry, set_location, index_entry_alloc,
  index_entry_free, unlink,
}
use kvcache.Slot.{Slot, key, value, write}
use kvcache.Slab.{Slab, slab_header_size, is_full, im_memory}
use kvcache.Slab
use kvcache.SizeClass.{slot_size, get_slab_class}
use kvcache.State.{
  Platform, Config, Cache, SlabClass, Outcome, done, blocks, faults, no_fuel, within, ◌>>=◌,
  set_slab, push, detach, list_del, first_entry,
}
use kvcache.Move.{read_dslab}
use kvcache.Gc.{do_slab_gc}
use kvcache.Flush.{do_slab_flush}

module _ (pf : Platform) (cfg : Config) where
  open pf use {Disk, hashing}

  -- The slot in hand, of a slab in memory or of one that is read from its disk block.
  unfoldable pub fetch : Cache Disk → IndexEntry → Outcome Slot
  fetch c e =
      let slab = c.slabs e.slab_id in
      if im_memory slab
      then done (slab.memory e.slot_id)
      else (read_dslab pf c slab >>= λ dslab. done (dslab.memory e.slot_id))

  -- The status, and the value where the status is OK.
  unfoldable pub get_slice : Cache Disk → Bytes → Outcome (Status × Option Bytes)
  get_slice c k = elim (get_index_entry hashing c.index k) [
    | none ↦ done (not_found_status "Key not found", none)
    | some e ↦ fetch c e >>= λ slot.
        if not (bytes_eq k (key slot))
        then done (not_found_status "Key not found", none)
        else done (ok_status, some (value slot))
  ]

  -- `Get(key, value)`, with what `*value` holds before and after.
  unfoldable pub get : Cache Disk → Bytes → Bytes → Outcome (Status × Bytes)
  get c k old = get_slice c k >>= λ r. elim r.1 [ none ↦ done (r.0, old) | some v ↦ done (r.0, v) ]

  -- `Get(key, buffer, buffer_len, value_len)`: the status, and what is copied to the buffer.
  unfoldable pub get_into : Cache Disk → Bytes → ℕ → Outcome (Status × Option Bytes)
  get_into c k buffer_len = get_slice c k >>= λ r. elim r.1 [
    | none ↦ done (r.0, none)
    | some v ↦
        if ltb buffer_len (length v)
        then done (buffer_too_small_status "Buffer is too small", none)
        else done (ok_status, some v)
  ]

  -- A free slab becomes the only partial slab of a class.
  unfoldable pub adopt : Cache Disk → SlabClass → ℕ → Cache Disk
  adopt c sc m = record c {
    mslab_free = detach m c.mslab_free;
    slabs = update c.slabs m (record (c.slabs m) {
      cid = some sc.cid;
      slot_size = sc.slot_size;
      nr_slots = (cfg.slab_size - slab_header_size) / sc.slot_size;
    });
    slab_partial = update c.slab_partial sc.cid (m ∷ c.slab_partial sc.cid);
  }

  -- A slot of the first partial slab of a class, which leaves the list when it is full. `slot_alloc`
  -- asks whether it is one of the slab.
  unfoldable pub take_slot : Cache Disk → ℕ → ℕ → ℕ × Cache Disk
  take_slot c cid m =
      let (i, slab) = Slab.slot_alloc (c.slabs m) in
      let partial = c.slab_partial cid in
      (
        i,
        record c {
          slabs = update c.slabs m slab;
          slab_partial =
              update c.slab_partial cid (if is_full slab then list_del m partial else partial);
        },
      )

  -- `slot_alloc`: the slab and the number of the slot, or the status that refuses one. It faults where
  -- the slot is not one of the slab, as for a class whose slots are larger than a slab.
  unfoldable pub slot_alloc :
      ℕ → ℕ → ℕ → Cache Disk → ℕ → Outcome ((Status × Option (ℕ × ℕ)) × Cache Disk)
  slot_alloc gc_fuel flush_fuel zero c size = no_fuel
  slot_alloc gc_fuel flush_fuel (suc fuel) c size =
      elim (get_slab_class cfg.slab_class_table size) [
        | none ↦ done ((object_too_large_status "Object is too large", none), c)
        | some sc ↦ elim (first_entry (c.slab_partial sc.cid)) [
          | some m ↦
              let (i, c') = take_slot c sc.cid m in
              if within cfg (c'.slabs m) then done ((ok_status, some (m, i)), c') else faults
          | none ↦ elim (first_entry c.mslab_free.items) [
            | some m ↦ slot_alloc gc_fuel flush_fuel fuel (adopt c sc m) size
            | none ↦ do_slab_flush pf cfg gc_fuel flush_fuel c >>= λ r.
                if cfg.enable_background_flush && r.1.shutdown
                then done ((shutdown_status "KVCache is shutting down", none), r.1)
                else slot_alloc gc_fuel flush_fuel fuel r.1 size
          ]
        ]
      ]

  -- A turn of the flush thread, which sleeps while no slab is full.
  unfoldable pub flush_if_full : ℕ → ℕ → Cache Disk → Outcome (Bool × Cache Disk)
  flush_if_full gc_fuel flush_fuel c = elim (first_entry c.mslab_full.items) [
    | none ↦ done (true, c)
    | some m ↦ do_slab_flush pf cfg gc_fuel flush_fuel c
  ]

  -- The wait of `Put` for a free index entry. It holds `index_mutex_` when it calls `slab_flush` and
  -- `slab_gc`, which without their threads lock it again. With them it gives the lock up, and they run:
  -- a round of flushing if a slab is full, and a round of collection.
  unfoldable pub await_index_entry : ℕ → ℕ → ℕ → Cache Disk → Outcome (IndexEntry × Cache Disk)
  await_index_entry gc_fuel flush_fuel zero c = no_fuel
  await_index_entry gc_fuel flush_fuel (suc fuel) c = elim (index_entry_alloc c.index) [
    | some (e, idx) ↦ done (e, record c { index = idx })
    | none ↦
        if cfg.enable_background_flush && cfg.enable_background_gc
        then (flush_if_full gc_fuel flush_fuel c >>= λ r.
            do_slab_gc pf cfg gc_fuel r.1 >>= λ s. await_index_entry gc_fuel flush_fuel fuel s.1)
        else blocks
  ]

  -- The index part of `Put`, for the slot `i` of slab `m`.
  unfoldable pub record_slot : ℕ → ℕ → ℕ → Cache Disk → Bytes → ℕ → ℕ → Outcome (Cache Disk)
  record_slot gc_fuel flush_fuel fuel c k m i = elim (get_index_entry hashing c.index k) [
    | some e ↦
        let old = c.slabs e.slab_id in
        done (record c {
          slabs = update c.slabs e.slab_id (record old { nr_used = old.nr_used - 1 });
          index = set_location hashing c.index k (c.slabs m).sid i;
        })
    | none ↦ await_index_entry gc_fuel flush_fuel fuel c >>= λ r. done (record r.1 {
      index =
          put_index_entry hashing r.1.index k
            (record { digest = hashing.make_digest k; slab_id = (r.1.slabs m).sid; slot_id = i });
    })
  ]

  -- The last part of `Put`: a full slab is handed to the flush thread.
  unfoldable pub hand_over : Cache Disk → ℕ → Cache Disk
  hand_over c m = if is_full (c.slabs m) then record c { mslab_full = push m c.mslab_full } else c

  unfoldable pub put : ℕ → ℕ → ℕ → Cache Disk → Bytes → Bytes → Outcome (Status × Cache Disk)
  put gc_fuel flush_fuel fuel c k v = do
    ((status, place), c₁) ← slot_alloc gc_fuel flush_fuel fuel c (slot_size k v)
    elim place [
      | none ↦ done (status, c₁)
      | some (m, i) ↦
          let s = c₁.slabs m in
          let written =
            set_slab c₁ m (record s { memory = update s.memory i (write (s.memory i) k v) }) in
          record_slot gc_fuel flush_fuel fuel written k m i >>= λ c₂.
          done (ok_status, hand_over c₂ m)
    ]

  -- The decrement stands inside an `assert`.
  unfoldable pub delete : Cache Disk → Bytes → Cache Disk
  delete c k = elim (get_index_entry hashing c.index k) [
    | none ↦ c
    | some e ↦
        let slab = c.slabs e.slab_id in
        let freed = record c { index = index_entry_free (unlink hashing c.index k) e } in
        if cfg.ndebug
        then freed
        else set_slab freed e.slab_id (record slab { nr_used = slab.nr_used - 1 })
  ]
