-- ===== src/Gc/Normal.antt =====
-- Normal GC (`normal_gc` of src/kvcache.cpp): full disk slabs with little in use are merged.
pub mod Select
pub mod Turn
pub mod Recycle
pub mod Merge
pub mod Collect
use kvcache.Base.{
  ℕ, zero, suc, ◌+◌, ◌-◌, ◌*◌, ◌/◌, max, Bool, true, false, ◌&&◌, ◌||◌, List, [], ◌∷◌, ◌++◌, none,
  some, ◌==◌, ltb, if◌then◌else◌, update, length,
}
use kvcache.Slab.{Slab, reset}
use kvcache.State.{
  Platform, Config, Cache, Ring, empty_ring, Outcome, done, faults, no_fuel, ◌>>=◌, push, detach,
  first_entry, next_channel,
}
use kvcache.Gc.Copy.{has_items, gc_dslabs}

-- `SlabGCPriorityComparator`, on what it compares.
abbrev pub weight : Slab → ℕ
weight s = s.nr_used * s.slot_size

module _ (slabs : ℕ → Slab) where
  -- `std::priority_queue` as the list of its elements, top (heaviest) first. Among equals the library
  -- may choose.
  unfoldable pub pq_push : ℕ → List ℕ → List ℕ
  pq_push d [] = d ∷ []
  pq_push d (x ∷ xs) =
      if ltb (weight (slabs d)) (weight (slabs x)) then x ∷ pq_push d xs else d ∷ x ∷ xs

  -- One slab of a full list is offered to the queue of at most `room`. The queue's top is replaced by
  -- a lighter slab. The top of an empty queue is not defined: `normal_gc` faults before it gets there
  -- (`queue_top`).
  unfoldable pub offer : ℕ → List ℕ → ℕ → List ℕ
  offer room pq d = if ltb (length pq) room then pq_push d pq else elim pq [
    | [] ↦ []
    | top ∷ rest ↦
        if ltb (weight (slabs d)) (weight (slabs top)) then pq_push d rest else top ∷ rest
  ]

  unfoldable pub offer_all : ℕ → List ℕ → List ℕ → List ℕ
  offer_all room pq [] = pq
  offer_all room pq (d ∷ ds) = offer_all room (offer room pq d) ds

  -- `slab_class_to_drop[i]`, in the order in which it is taken from its back.
  unfoldable pub of_class : ℕ → List ℕ → List ℕ
  of_class i [] = []
  of_class i (d ∷ ds) = elim (slabs d).cid [
    | none ↦ of_class i ds
    | some j ↦ if j == i then of_class i ds ++ d ∷ [] else of_class i ds
  ]

  -- The inner loop: slabs are taken while their used slots fit one slab.
  unfoldable pub collect : ℕ → List ℕ → List ℕ
  collect nr_slots_moved [] = []
  collect nr_slots_moved (d ∷ ds) =
      let rest = collect (nr_slots_moved + (slabs d).nr_used) ds in
      if ltb (slabs d).nr_slots ((slabs d).nr_used + nr_slots_moved) then [] else d ∷ rest

-- The queue after the channels below `n`, lowest first.
unfoldable pub offer_channels : (ℕ → Slab) → ℕ → (ℕ → Ring) → ℕ → List ℕ
offer_channels slabs room full zero = []
offer_channels slabs room full (suc n) =
    offer_all slabs room (offer_channels slabs room full n) (full n).items

-- Whether a channel below `n` has a full slab.
unfoldable pub any_full : ℕ → (ℕ → Ring) → Bool
any_full zero full = false
any_full (suc n) full = any_full n full || has_items full n

module _ (pf : Platform) (cfg : Config) where
  open pf use {Disk}

  -- With an empty pool the queue takes nothing, and the first full slab is compared with the top of an
  -- empty queue, which is undefined.
  unfoldable pub queue_top : Cache Disk → Outcome Bool
  queue_top c =
      if c.ops_pool_size == 0 && any_full cfg.nr_channels c.dslab_full then faults else done true

  -- The loop over the slab classes from `i`, with the number that is left; `classes` is
  -- `slab_class_to_drop`. It ends early where the pool is empty. A single slab is not worth a slab of
  -- the pool.
  unfoldable pub merge_classes :
      ℕ → ℕ → Cache Disk → (ℕ → List ℕ) → (ℕ → Ring) → Outcome (Cache Disk × (ℕ → Ring))
  merge_classes zero i c classes free_list = done (c, free_list)
  merge_classes (suc n) i c classes free_list =
      let to_drop = collect c.slabs 0 (classes i) in
      let next_class = merge_classes n (i + 1) c classes free_list in
      if ltb 1 (length to_drop)
      then if c.ops_pool_size == 0
        then done (c, free_list)
        else (gc_dslabs pf cfg c to_drop free_list >>= λ r. merge_classes n (i + 1) r.0 classes r.1)
      else next_class

  -- The water marks and the size of the pool that the tuning step settles on. `1.1 * low` is cut to
  -- `int`; up to 2 ^ 31 that is the integer quotient.
  unfoldable pub tune : Cache Disk → ℕ → ℕ × Cache Disk
  tune c old_ops_size =
      if ltb c.free_block_water_mark_high c.nr_free_dslab
      then (let low = max (c.free_block_water_mark_low - 10) cfg.free_block_water_mark_low_min in
          (
            max 10 (old_ops_size - 1),
            record c {
              free_block_water_mark_low = low;
              free_block_water_mark_high = max (c.free_block_water_mark_high - 10) (11 * low / 10);
            },
          ))
      else (old_ops_size, c)

  -- The loop that makes up for the pool slabs that were used, from the freed slabs of each channel in
  -- turn. It has no exit but `n = 0`.
  unfoldable pub repay_ops_pool :
      ℕ → ℕ → ℕ → Cache Disk → (ℕ → Ring) → Outcome (Cache Disk × (ℕ → Ring))
  repay_ops_pool fuel channel zero c free_list = done (c, free_list)
  repay_ops_pool zero channel (suc n) c free_list = no_fuel
  repay_ops_pool (suc fuel) channel (suc n) c free_list =
      elim (first_entry (free_list channel).items) [
        | none ↦ repay_ops_pool fuel (next_channel cfg channel) (suc n) c free_list
        | some d ↦
            repay_ops_pool fuel (next_channel cfg channel) n
              (record c {
                slabs = update c.slabs d (reset (c.slabs d));
                ops_pool = update c.ops_pool channel (push d (c.ops_pool channel));
                ops_pool_size = c.ops_pool_size + 1;
              })
              (update free_list channel
                (record (detach d (free_list channel)) { size = (free_list channel).size }))
      ]

  -- The loop that shrinks the pool by at most `n` slabs, one channel after the other.
  unfoldable pub shrink_ops_pool : ℕ → Cache Disk → (ℕ → Ring) → Cache Disk × (ℕ → Ring)
  shrink_ops_pool zero c free_list = (c, free_list)
  shrink_ops_pool (suc n) c free_list =
      let channel = next_channel cfg c.next_ops_pool_remove_channel in
      let turned = record c { next_ops_pool_remove_channel = channel } in
      elim (first_entry (c.ops_pool channel).items) [
        | none ↦ shrink_ops_pool n turned free_list
        | some d ↦
            shrink_ops_pool n
              (record turned {
                slabs = update c.slabs d (reset (c.slabs d));
                ops_pool = update c.ops_pool channel (detach d (c.ops_pool channel));
                ops_pool_size = c.ops_pool_size - 1;
              })
              (update free_list channel (push d (free_list channel)))
      ]

  -- The freed slabs of one channel go to `dslab_free_`, first one first.
  unfoldable pub release_channel : ℕ → List ℕ → Cache Disk → Cache Disk
  release_channel channel [] c = c
  release_channel channel (d ∷ ds) c = release_channel channel ds (record c {
    slabs = update c.slabs d (reset (c.slabs d));
    dslab_free = update c.dslab_free channel (push d (c.dslab_free channel));
    nr_free_dslab = c.nr_free_dslab + 1;
  })

  -- The channels below `n`, lowest first.
  unfoldable pub release_channels : ℕ → (ℕ → Ring) → Cache Disk → Cache Disk
  release_channels zero free_list c = c
  release_channels (suc n) free_list c =
      release_channel n (free_list n).items (release_channels n free_list c)

  unfoldable pub normal_gc : ℕ → Cache Disk → Outcome (Bool × Cache Disk)
  normal_gc fuel c =
      let pq = offer_channels c.slabs (3 * c.ops_pool_size) c.dslab_full cfg.nr_channels in
      let old_ops_size = c.ops_pool_size in
      do
        _ ← queue_top c
        (merged, free_list) ←
            merge_classes (length cfg.slab_class_table) 0 c (λ i. of_class c.slabs i pq)
              (λ _. empty_ring)
        let (new_ops_size, tuned) = tune merged old_ops_size
        (repaid, free_list₁) ←
            repay_ops_pool fuel 0 (old_ops_size - tuned.ops_pool_size) tuned free_list
        let (shrunk, free_list₂) =
            shrink_ops_pool (repaid.ops_pool_size - new_ops_size) repaid free_list₁
        done (true, release_channels cfg.nr_channels free_list₂ shrunk)
