-- ===== src/Tests/Witnesses.antt =====
-- The theorems at inputs that meet their hypotheses.
use kvcache.Base.{
  ℕ, List, ◌++◌, ◌==◌, ◌+◌, ◌%◌, ◌<◌, ◌≤◌, ◌≡◌, ◌↔◌, refl, inr, Bytes, true, false, [], ◌∷◌, none,
  some, arith, ltb, if◌then◌else◌, length, replicate, update,
}
use kvcache.Base.Int.{pos, ◌+ℤ◌}
use kvcache.Status.{
  ok_status, not_found_status, object_too_large_status, buffer_too_small_status, is_ok,
}
use kvcache.Index.{
  blank_entry, get_index_entry, find_entry, empty_index, index_entry_alloc, put_index_entry,
  del_index_entry,
}
use kvcache.Index.Unique.{get-del_index_entry}
use kvcache.Index.Count.{IsCounted, empty_index-IsCounted, alloc-put-IsCounted}
use kvcache.Slot.{key, value, write, read-write}
use kvcache.State.{Cache, SlabClass, done, ◌>>=◌, first_entry}
use kvcache.State.{empty_ring, next_channel}
use kvcache.Move.{read_dslab}
use kvcache.Slab.{assign}
use kvcache.Channel.{find_channel}
use kvcache.Channel.Search.{find_channel-miss}
use kvcache.Layout.{
  Area, align_ptr_up, align_ptr_up-bounds, slot_to_slab, slot_id, slot_at, slab_by_sid,
  slot_to_slab-slot_at,
}
use kvcache.SizeClass.{slot_size, get_slab_class, max_kv_size, last_slot_size}
use kvcache.SizeClass.Fits.{NoSmaller, get_slab_class-fits, max_kv_size-exact}
use kvcache.Lists.{count}
use kvcache.Reads.{Sound}
use kvcache.Slab.{Slab}
use kvcache.Gc.Normal.{collect}
use kvcache.Gc.Normal.Collect.{used_slots, collect-fits}
use kvcache.Gc.Copy.{has_items}
use kvcache.Gc.Quick.{do_quick_gc, select_to_drop, evict_all, evict_dslab}
use kvcache.Gc.Quick.Thins.{Forgets}
use kvcache.Gc.Quick.Evict.{Imaged}
use kvcache.Gc.Quick.Reads.{do_quick_gc-Forgets}
use kvcache.Flush.{do_slab_flush}
use kvcache.Flush.Round.{do_slab_flush-reads}
use kvcache.Api.{get_slice, get, get_into, put, delete}
use kvcache.Api.Delete.{get_slice-delete}
use kvcache.Api.Errors.{put-too_large, get_into-get}
use kvcache.Api.Store.{read_after_put}
use kvcache.Api.Stored.{put-reads}
use kvcache.Api.Running.{Running}
use kvcache.Tests.Example.{fresh-Running}
use kvcache.Tests.Example.{holding-Imaged}
use kvcache.Tests.Example.{
  on_disk, on_disk-Sound, on_disk-Imaged, memory_disk, small, fresh, holding, held_key, held_value,
  held_entry, held_slab, blank_slot, holding-Sound, holding-Mslabs, holding-Dslabs,
}

abbrev other_key : Bytes
other_key = 5 ∷ 6 ∷ []

abbrev small_class : SlabClass
small_class = record { cid = 0; slot_size = 28; slots_per_slab = 3 }

put-reads_example :
    (after : Cache memory_disk.Disk) × (put memory_disk small 0 0 2 fresh other_key held_value
      ≡ done (ok_status, after))
    × Running memory_disk small after
    × ((q : Bytes)
        → get_slice memory_disk small after q
          ≡ read_after_put memory_disk small fresh other_key held_value q)
unfolding first_entry get_slab_class slot_size get_index_entry find_entry index_entry_alloc
    empty_index
put-reads_example =
    put-reads memory_disk small 0 0 0 fresh other_key held_value small_class fresh-Running refl
      (inr (1, refl, refl, (omega arith, omega arith))) (inr (refl, blank_entry, _, refl))

do_slab_flush-reads_example :
    (c' : Cache memory_disk.Disk) × (do_slab_flush memory_disk small 0 1 holding ≡ done (true, c'))
    × Sound memory_disk small c'
    × Imaged memory_disk small c'
    × ((q : Bytes) → get_slice memory_disk small c' q ≡ get_slice memory_disk small holding q)
unfolding first_entry
do_slab_flush-reads_example =
    do_slab_flush-reads memory_disk small 0 0 holding 1 1 holding-Sound holding-Imaged
      holding-Mslabs holding-Dslabs refl refl (omega arith) (omega arith) refl
      (λ b image. (_, refl))

get_slice-delete_example :
    get_slice memory_disk small (delete memory_disk small holding held_key) held_key
    ≡ done (not_found_status "Key not found", none)
get_slice-delete_example =
    get_slice-delete memory_disk small holding held_key held_key holding-Sound

find_channel-miss_example : has_items holding.dslab_full 1 ≡ false
unfolding find_channel next_channel
find_channel-miss_example =
    find_channel-miss small (has_items holding.dslab_full) 0 1 (omega arith) (omega arith) refl

abbrev area : Area
area = record { mslab_base = 4096; slab_size = 128; nr_mslab = 4 }

slot_to_slab-slot_at_example :
    (slot_to_slab area (slot_at (slab_by_sid area 2) 28 1) ≡ slab_by_sid area 2)
    × (slot_id area 28 (slot_at (slab_by_sid area 2) 28 1) ≡ 1)
slot_to_slab-slot_at_example =
    slot_to_slab-slot_at area 2 28 1 refl (omega arith) (omega arith) (omega arith)

align_ptr_up-bounds_example :
    (align_ptr_up 4100 100 % 100 ≡ 0)
    × (4100 ≤ align_ptr_up 4100 100)
    × (align_ptr_up 4100 100 < 4100 + 100)
align_ptr_up-bounds_example = align_ptr_up-bounds 4100 100 (omega arith)

max_kv_size-exact_example :
    (get_slab_class small.slab_class_table (slot_size held_key held_value) ≡ none)
    ↔ (max_kv_size small.slab_class_table < length held_key + length held_value)
unfolding last_slot_size
max_kv_size-exact_example =
    max_kv_size-exact small_class _ held_key held_value (omega arith) (omega arith)

get_slab_class-fits_example : (20 ≤ 28) × NoSmaller 20 28 small.slab_class_table
unfolding get_slab_class
get_slab_class-fits_example =
    get_slab_class-fits small.slab_class_table 20 small_class (omega arith) refl

read-write_example :
    (key (write blank_slot held_key held_value) ≡ held_key)
    × (value (write blank_slot held_key held_value) ≡ held_value)
read-write_example = read-write blank_slot held_key held_value

alloc-put-IsCounted_example : IsCounted 4 (
    put_index_entry memory_disk.hashing
      (record (empty_index 4 8) {
        free = blank_entry ∷ blank_entry ∷ blank_entry ∷ [];
        nr_free = 3;
      })
      held_key
      held_entry)
unfolding index_entry_alloc empty_index
alloc-put-IsCounted_example =
    alloc-put-IsCounted memory_disk.hashing 4 (empty_index 4 8)
      (empty_index-IsCounted 4 8 (omega arith)) held_key held_entry blank_entry _ refl

get-del_index_entry_example :
    get_index_entry memory_disk.hashing
      (del_index_entry memory_disk.hashing holding.index held_key)
      held_key
    ≡ none
get-del_index_entry_example =
    get-del_index_entry memory_disk.hashing holding.index held_key held_key holding-Sound.unique

abbrev long_value : Bytes
long_value = replicate 60 7

put-too_large_example :
    put memory_disk small 0 0 1 holding held_key long_value
    ≡ done (object_too_large_status "Object is too large", holding)
unfolding last_slot_size max_kv_size
put-too_large_example =
    put-too_large memory_disk small 0 0 0 holding held_key long_value small_class _ refl
      (omega arith) (omega arith) (omega arith)

-- Both memory slabs are partly filled by objects of the larger class.
abbrev crowded : Cache memory_disk.Disk
crowded = record fresh {
  slabs =
      update
        (update fresh.slabs 0 (record (fresh.slabs 0) { cid = some 1; nr_slots = 2; nr_alloc = 1 }))
        1 (record (fresh.slabs 1) { cid = some 1; nr_slots = 2; nr_alloc = 1 });
  slab_partial = update (λ _. []) 1 (0 ∷ 1 ∷ []);
  mslab_free = empty_ring;
}

get_into-get_example : get_into memory_disk small holding held_key 1 ≡ (
    get memory_disk small holding held_key [] >>= λ r.
    if is_ok r.0
    then done (
        if ltb 1 (length r.1)
        then (buffer_too_small_status "Buffer is too small", none)
        else (ok_status, some r.1))
    else done (r.0, none))
get_into-get_example = get_into-get memory_disk small holding held_key [] 1

-- Quick GC drops the only full disk slab.
abbrev after_quick_gc : Cache memory_disk.Disk
after_quick_gc = elim (do_quick_gc memory_disk small 2 on_disk (pos 1) 0) [
  | done r ↦ r.1
  | _ ↦ on_disk
]

do_quick_gc-Forgets_example :
    Forgets memory_disk small on_disk after_quick_gc × Imaged memory_disk small after_quick_gc
unfolding do_quick_gc ◌+ℤ◌ select_to_drop first_entry next_channel evict_all evict_dslab read_dslab
    assign
do_quick_gc-Forgets_example =
    do_quick_gc-Forgets memory_disk small 2 on_disk after_quick_gc (pos 1) 0 true on_disk-Sound
      on_disk-Imaged refl

-- Three slabs of three slots, with two, one and two of them in use.
abbrev light_slabs : ℕ → Slab
light_slabs s = record held_slab { nr_slots = 3; nr_used = if s == 1 then 1 else 2 }

all_of_three : (d : ℕ) → 0 < count d (0 ∷ 1 ∷ 2 ∷ []) → (light_slabs d).nr_slots ≡ 3
all_of_three d i = refl

collect-fits_example :
    (used_slots light_slabs (collect light_slabs 0 (0 ∷ 1 ∷ 2 ∷ [])) ≤ 3)
    × ((rest : List ℕ) × (0 ∷ 1 ∷ 2 ∷ [] ≡ collect light_slabs 0 (0 ∷ 1 ∷ 2 ∷ []) ++ rest)
        × ((d : ℕ) (others : List ℕ)
            → rest ≡ d ∷ others
            → 3
              < used_slots light_slabs (collect light_slabs 0 (0 ∷ 1 ∷ 2 ∷ []))
                + (light_slabs d).nr_used))
collect-fits_example = collect-fits light_slabs 3 (0 ∷ 1 ∷ 2 ∷ []) all_of_three
