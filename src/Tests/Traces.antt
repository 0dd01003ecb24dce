-- ===== src/Tests/Traces.antt =====
-- The theorems on whole rounds and on sequences of calls, at inputs that meet their hypotheses.
use kvcache.Gc.Normal.Collect.{SelectsFit}
use kvcache.Base.{◌≡◌, ◌⊎◌, refl, inl, Bytes, true, List, [], ◌∷◌, none, replicate}
use kvcache.Status.{ok_status, not_found_status, is_ok}
use kvcache.Index.{
  get_index_entry, find_entry, empty_index, index_entry_alloc, put_index_entry, set_location,
}
use kvcache.State.{Cache, Outcome, done, first_entry, detach, push, within}
use kvcache.Reads.{get_slice_absent}
use kvcache.Gc.{do_slab_gc}
use kvcache.Gc.Normal.{
  normal_gc, merge_classes, collect, of_class, offer_channels, offer_all, offer, pq_push,
  repay_ops_pool, tune, queue_top,
}
use kvcache.Gc.Turn.{Resting, get_slice-normal_gc, get_slice-do_slab_gc}
use kvcache.Flush.{do_slab_flush, await_free_dslab, take_free_dslab, flush_pair}
use kvcache.Api.{
  get_slice, put, delete, adopt, record_slot, take_slot, await_index_entry, hand_over,
}
use kvcache.Api
use kvcache.Slot.{key, write}
use kvcache.Slab.{is_full}
use kvcache.Slab
use kvcache.Channel.{find_channel, scan_channels}
use kvcache.Move.{flush_mslab_to_dslab, modify_index_to, redirect}
use kvcache.SizeClass.{slot_size, get_slab_class}
use kvcache.Api.Running.{Running}
use kvcache.Api.Puts.{Puts, put-Puts}
use kvcache.Trace.{
  Event, stores, deletes, works, follow_all, put_stored, deleted, flushed, collected, stop, step,
  Serves, Trace-Serves,
}
use kvcache.Base.{arith, ℕ, length, ◌+◌}
use kvcache.Base.Int.{◌+ℤ◌}
use kvcache.State.{no_fuel}
use kvcache.Gc.Quick.{select_to_drop}
use kvcache.Gc.Quick.Full.{full_slabs}
use kvcache.Gc.Quick.Select.{select_to_drop_ends, select_to_drop_spins}
use kvcache.Gc.Quick.Ends.{Ends}
use kvcache.Trace.Life.{created}
use kvcache.Tests.Example.{
  memory_disk, small, fresh, on_disk, on_disk-Resting, fresh-Running, held_key,
}

-- The state behind a call that returns.
abbrev pub state_of {ℓ} :
    {A : Type ℓ} → Outcome (A × Cache memory_disk.Disk) → Cache memory_disk.Disk
state_of (done r) = r.1
state_of _ = fresh

abbrev after_normal_gc : Cache memory_disk.Disk
after_normal_gc = state_of (normal_gc memory_disk small 9 on_disk)

get_slice-normal_gc_example :
    ((q : Bytes)
      → get_slice memory_disk small after_normal_gc q ≡ get_slice memory_disk small on_disk q)
    × Resting memory_disk small after_normal_gc
    × SelectsFit small on_disk
unfolding normal_gc merge_classes collect of_class offer_channels offer_all offer pq_push
    repay_ops_pool tune queue_top
get_slice-normal_gc_example =
    get_slice-normal_gc memory_disk small 9 on_disk after_normal_gc true on_disk-Resting refl

abbrev after_slab_gc : Cache memory_disk.Disk
after_slab_gc = state_of (do_slab_gc memory_disk small 9 on_disk)

get_slice-do_slab_gc_example :
    ((q : Bytes)
      → (get_slice memory_disk small after_slab_gc q ≡ get_slice memory_disk small on_disk q)
        ⊎ (get_slice memory_disk small after_slab_gc q
            ≡ done (not_found_status "Key not found", none)))
    × Resting memory_disk small after_slab_gc
    × SelectsFit small on_disk
unfolding do_slab_gc normal_gc merge_classes collect of_class offer_channels offer_all offer pq_push
    repay_ops_pool tune queue_top
get_slice-do_slab_gc_example =
    get_slice-do_slab_gc memory_disk small 9 on_disk after_slab_gc true on_disk-Resting refl

abbrev pub big_value : Bytes
big_value = replicate 30 7

-- An object is put, goes to the disk, a round of collection runs, and it is deleted.
abbrev pub after_put : Cache memory_disk.Disk
after_put = state_of (put memory_disk small 0 0 2 fresh held_key big_value)

abbrev after_flush : Cache memory_disk.Disk
after_flush = state_of (do_slab_flush memory_disk small 0 1 after_put)

abbrev after_collection : Cache memory_disk.Disk
after_collection = state_of (do_slab_gc memory_disk small 9 after_flush)

pub put_returns : put memory_disk small 0 0 2 fresh held_key big_value ≡ done (ok_status, after_put)
unfolding put Api.slot_alloc get_slab_class slot_size first_entry adopt record_slot get_index_entry
    find_entry take_slot empty_index await_index_entry index_entry_alloc within Slab.slot_alloc
put_returns = refl

flush_returns : do_slab_flush memory_disk small 0 1 after_put ≡ done (true, after_flush)
unfolding do_slab_flush await_free_dslab take_free_dslab find_channel scan_channels flush_pair
    flush_mslab_to_dslab hand_over is_full Slab.slot_alloc detach put Api.slot_alloc get_slab_class
    slot_size first_entry adopt record_slot get_index_entry find_entry take_slot empty_index
    await_index_entry index_entry_alloc push within
flush_returns = refl

collection_returns : do_slab_gc memory_disk small 9 after_flush ≡ done (true, after_collection)
unfolding do_slab_gc normal_gc merge_classes collect of_class offer_channels offer_all offer pq_push
    repay_ops_pool tune queue_top do_slab_flush await_free_dslab take_free_dslab find_channel
    scan_channels flush_pair flush_mslab_to_dslab hand_over is_full Slab.slot_alloc detach put
    Api.slot_alloc get_slab_class slot_size first_entry adopt record_slot get_index_entry find_entry
    take_slot empty_index await_index_entry index_entry_alloc push modify_index_to
    Slab.for_each_slot Slab.for_slots redirect put_index_entry key write set_location within ◌+ℤ◌
collection_returns = refl

put-Puts_example : Puts memory_disk small fresh after_put held_key big_value ok_status
put-Puts_example =
    put-Puts memory_disk small 0 0 2 fresh after_put held_key big_value ok_status fresh-Running
      put_returns

abbrev history : List Event
history = stores held_key big_value ∷ works ∷ works ∷ deletes held_key ∷ []

Trace-Serves_example :
    Running memory_disk small (delete memory_disk small after_collection held_key)
    × Serves memory_disk small
        (delete memory_disk small after_collection held_key)
        (follow_all (λ _. none) history)
unfolding empty_index is_ok get_index_entry find_entry
Trace-Serves_example =
    Trace-Serves memory_disk small fresh _ (λ _. none) history fresh-Running
      (λ q. inl (get_slice_absent memory_disk small fresh q refl))
      (step (put_stored 0 0 2 held_key big_value ok_status put_returns refl) (
        step (flushed 0 1 true flush_returns)
          (step (collected 9 true collection_returns) (step (deleted held_key) stop))))

abbrev pub new_cache : Cache memory_disk.Disk
new_cache = created memory_disk small 1 4 8 (λ _. none) 1 3

abbrev after_first_put : Cache memory_disk.Disk
after_first_put = state_of (put memory_disk small 0 0 2 new_cache held_key big_value)

select_to_drop_ends_example :
    (c' : Cache memory_disk.Disk) × (to_drop : List ℕ) × (select_to_drop memory_disk small 2 on_disk
        1 []
      ≡ done (c', to_drop))
    × (length to_drop ≡ 1 + 0)
unfolding full_slabs
select_to_drop_ends_example =
    select_to_drop_ends memory_disk small 1 2 on_disk [] (omega arith) (omega arith) (omega arith)

select_to_drop_spins_example : select_to_drop memory_disk small 100 on_disk 2 [] ≡ no_fuel
unfolding full_slabs
select_to_drop_spins_example =
    select_to_drop_spins memory_disk small 100 2 on_disk [] (omega arith) (omega arith)
