-- ===== src/Tests/Example.antt =====
-- A cache with three memory slabs (the last is `gc_buffer_`) and two channels of two disk blocks.
use kvcache.Base.Int.{pos}
use kvcache.Base.{
  ℕ, ◌+◌, ◌-◌, ◌≡◌, refl, sym, ap, Bytes, true, false, [], ◌∷◌, Option, none, some, arith, ◌==◌,
  ltb, if◌then◌else◌, update,
}
use mathlib.Core.Option.{some-injective}
use kvcache.Index.Unique.{empty_index-IsUnique, count_digest}
use kvcache.Index.{blank_entry, IndexEntry, get_index_entry, find_entry, empty_index}
use kvcache.Slot.{Slot, key}
use kvcache.Slab.{Slab, im_memory, assign}
use kvcache.State.{Platform, Config, Cache, Ring, empty_ring, channel_id}
use kvcache.Lists.{count, Mslabs, Dslabs}
use kvcache.Reads.{Sound}
use kvcache.Api.{fetch}
use kvcache.Move.{read_dslab}
use kvcache.Gc.Quick.Evict.{Imaged}
use kvcache.Gc.Turn.{Resting}
use kvcache.Api.Running.{Running}

abbrev sum_bytes : Bytes → ℕ
sum_bytes [] = 0
sum_bytes (b ∷ bs) = b + sum_bytes bs

-- A disk that takes every block, and hash functions that tell few keys apart.
abbrev pub memory_disk : Platform
memory_disk = record {
  hashing = record { hasher = sum_bytes; make_digest = sum_bytes };
  Disk = ℕ → Option Slab;
  read_block = λ disk b. disk b;
  write_block = λ disk b image. some (update disk b (some image));
  read-write_block = λ d d' b q image p. stored d d' b q image p;
}
  where
    stored :
        (d d' : ℕ → Option Slab) (b q : ℕ) (image : Slab)
        → some (update d b (some image)) ≡ some d'
        → d' q ≡ (if b == q then some image else d q)
    stored d d' b q image p = sym (ap (λ (f : ℕ → Option Slab). f q) (some-injective _ _ p))

abbrev pub small : Config
small = record {
  slab_size = 100;
  nr_mslab = 3;
  nr_dslab = 4;
  nr_channels = 2;
  blocks_per_channel = 2;
  slab_class_table =
      record { cid = 0; slot_size = 28; slots_per_slab = 3 }
      ∷ record { cid = 1; slot_size = 56; slots_per_slab = 1 }
      ∷ [];
  enable_background_flush = true;
  enable_background_gc = true;
  ndebug = false;
  free_block_water_mark_low_min = 1;
  free_block_water_mark_high_max = 11;
}

abbrev pub blank_slot : Slot
blank_slot = record { key_len = 0; value_len = 0; bytes = [] }

abbrev pub first_slabs : ℕ → Slab
first_slabs s = record {
  sid = s;
  cid = none;
  nr_alloc = 0;
  slot_size = 0;
  nr_slots = 0;
  nr_used = 0;
  block_id = if ltb s 3 then none else some (s - 3);
  memory = λ _. blank_slot;
}

abbrev pub no_rings : ℕ → Ring
no_rings _ = empty_ring

abbrev pub fresh : Cache (ℕ → Option Slab)
fresh = record {
  slabs = first_slabs;
  slab_partial = λ _. [];
  mslab_free = record { items = 1 ∷ 0 ∷ []; size = 2 };
  mslab_full = empty_ring;
  dslab_free =
      update (update no_rings 0 (record { items = 4 ∷ []; size = 1 })) 1
        (record { items = 6 ∷ []; size = 1 });
  dslab_full = no_rings;
  ops_pool =
      update (update no_rings 0 (record { items = 3 ∷ []; size = 1 })) 1
        (record { items = 5 ∷ []; size = 1 });
  max_ops_pool_size = 2;
  ops_pool_size = 2;
  nr_free_dslab = 2;
  nr_full_dslab = pos 0;
  index = empty_index 4 8;
  next_mslab_flush_channel = 0;
  next_ops_pool_remove_channel = 0;
  free_block_water_mark_low = 1;
  free_block_water_mark_high = 3;
  shutdown = false;
  disk = λ _. none;
}

pub fresh-Sound : Sound memory_disk small fresh
unfolding empty_index get_index_entry find_entry
fresh-Sound = record {
  sids = λ s. refl;
  blocks = λ s t b p q. ground arith;
  buffer = refl;
  unique = empty_index-IsUnique 4 8;
  points = λ k e p. absurd (cc);
}

pub fresh-Mslabs : Mslabs small fresh
unfolding count
fresh-Mslabs = record {
  free_mslab = λ m h. ground arith;
  full_mslab = λ m h. ground arith;
  partial_mslab = λ cid m h. ground arith;
}

-- The same cache after one object of the larger class filled slab 1.
abbrev pub held_key : Bytes
held_key = 97 ∷ []

abbrev pub held_value : Bytes
held_value = 98 ∷ 99 ∷ []

abbrev pub held_entry : IndexEntry
held_entry = record { digest = 97; slab_id = 1; slot_id = 0 }

abbrev pub held_slab : Slab
held_slab = record (first_slabs 1) {
  cid = some 1;
  nr_alloc = 1;
  slot_size = 56;
  nr_slots = 1;
  nr_used = 1;
  memory =
      update (λ _. blank_slot) 0 (record { key_len = 1; value_len = 2; bytes = 97 ∷ 98 ∷ 99 ∷ [] });
}

abbrev pub holding : Cache (ℕ → Option Slab)
holding = record fresh {
  slabs = update first_slabs 1 held_slab;
  mslab_free = record { items = 0 ∷ []; size = 1 };
  mslab_full = record { items = 1 ∷ []; size = 1 };
  index = record {
    table = update (λ _. []) 1 (held_entry ∷ []);
    table_size = 8;
    free = blank_entry ∷ blank_entry ∷ blank_entry ∷ [];
    nr_free = 3;
  };
}

pub holding-Sound : Sound memory_disk small holding
unfolding get_index_entry find_entry fetch im_memory key count_digest
holding-Sound = record {
  sids = λ s. ground arith;
  blocks = λ s t b p q. ground arith;
  buffer = refl;
  unique = λ b d. ground arith;
  points = λ k e p.
      let at : e ≡ held_entry = ground arith in
      (ground arith, (held_slab.memory 0, ground arith, ground arith));
}

pub holding-Mslabs : Mslabs small holding
unfolding count
holding-Mslabs = record {
  free_mslab = λ m h. ground arith;
  full_mslab = λ m h. ground arith;
  partial_mslab = λ cid m h. ground arith;
}

pub holding-Dslabs : Dslabs small holding
unfolding count channel_id
holding-Dslabs = record {
  once = λ channel d. ground arith;
  free_dslab = λ channel d h. ((d - 3, ground arith, ground arith), ground arith);
  pool_dslab = λ channel d h. ((d - 3, ground arith, ground arith), ground arith);
  full_dslab = λ channel d h. absurd (ground arith);
  extra_dslab = λ channel d h. absurd (ground arith);
  held_dslab = λ d h. absurd (ground arith);
}

-- The object of `holding` after its slab went to the disk: disk slab 6 is full, with block 3.
abbrev pub flushed_entry : IndexEntry
flushed_entry = record held_entry { slab_id = 6 }

abbrev pub on_disk : Cache (ℕ → Option Slab)
on_disk = record fresh {
  slabs = update first_slabs 6 (record held_slab { sid = 6; block_id = some 3 });
  dslab_free = update fresh.dslab_free 1 empty_ring;
  dslab_full = update fresh.dslab_full 1 (record { items = 6 ∷ []; size = 1 });
  nr_free_dslab = 1;
  nr_full_dslab = pos 1;
  index = record holding.index { table = update (λ _. []) 1 (flushed_entry ∷ []) };
  disk = update fresh.disk 3 (some held_slab);
}

pub on_disk-Sound : Sound memory_disk small on_disk
unfolding get_index_entry find_entry fetch read_dslab assign im_memory key count_digest
on_disk-Sound = record {
  sids = λ s. ground arith;
  blocks = λ s t b p q. ground arith;
  buffer = refl;
  unique = λ b d. ground arith;
  points = λ k e p.
      let at : e ≡ flushed_entry = ground arith in
      (ground arith, (held_slab.memory 0, ground arith, ground arith));
}

pub on_disk-Imaged : Imaged memory_disk small on_disk
on_disk-Imaged d b image p q = ground arith

pub holding-Imaged : Imaged memory_disk small holding
holding-Imaged d b image p q = ground arith

pub fresh-Running : Running memory_disk small fresh
unfolding empty_index get_index_entry find_entry count channel_id
fresh-Running = record {
  rest = record {
    sound = fresh-Sound;
    imaged = λ d b image p q. absurd (cc q);
    idle = λ q e p. absurd (cc p);
    placed = record {
      once = λ channel d. ground arith;
      free_dslab = λ channel d h. ((d - 3, ground arith, ground arith), ground arith);
      pool_dslab = λ channel d h. ((d - 3, ground arith, ground arith), ground arith);
      full_dslab = λ channel d h. absurd (ground arith);
      extra_dslab = λ channel d h. absurd (ground arith);
      held_dslab = λ d h. absurd (ground arith);
    };
    cleared = λ channel d h. absurd (ground arith);
  };
  mslabs = fresh-Mslabs;
  apart = record { once = λ cid m. ground arith; classed = λ cid m h. absurd (ground arith) };
  roomy = record {
    free_unused = λ m h. ground arith;
    partial_slots = λ cid m h. absurd (ground arith);
  };
}

pub on_disk-Resting : Resting memory_disk small on_disk
unfolding get_index_entry find_entry count channel_id
on_disk-Resting = record {
  sound = on_disk-Sound;
  imaged = on_disk-Imaged;
  idle = λ q e p. ground arith;
  placed = record {
    once = λ channel d. ground arith;
    free_dslab = λ channel d h. ((d - 3, ground arith, ground arith), ground arith);
    pool_dslab = λ channel d h. ((d - 3, ground arith, ground arith), ground arith);
    full_dslab = λ channel d h. (d - 3, ground arith, ground arith);
    extra_dslab = λ channel d h. absurd (ground arith);
    held_dslab = λ d h. absurd (ground arith);
  };
  cleared = λ channel d h. absurd (ground arith);
}
