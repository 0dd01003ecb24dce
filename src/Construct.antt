-- ===== src/Construct.antt =====
-- The constructor `KVCache::KVCache` (src/kvcache.cpp) up to the start of the threads, over a store.
pub mod Life
use kvcache.Base.{
  ℕ, ◌-◌, ◌*◌, ◌/◌, ◌+◌, Bool, true, false, List, [], ◌∷◌, Option, none, some, ltb, ◌==◌,
  if◌then◌else◌, length, take, not, ◌≡◌, ◌||◌, zero, suc,
}
use mathlib.Core.List.{map}
use kvcache.Base.Int.{ℤ, pos, negsuc, pos_part}
use kvcache.Index.{Index, index_init, empty_index}
use kvcache.State.{Config, Cache, SlabClass, Outcome, done, throws, faults, or_throw, ◌>>=◌}
use kvcache.Init.{blank, slab_init, slab_class_init}
use kvcache.Options.{Floats, Options, override_options, water_marks}
use kvcache.Ssd.{Medium, Ssd, iterate_all_blocks}

-- The conversion of an `int` of 32 bits to a `size_t`.
abbrev pub size_of_int : ℤ → ℕ
size_of_int (pos n) = n
size_of_int (negsuc n) = 18446744073709551615 - n

-- What the constructor asks of the system: the two variables of the environment, and whether `mmap` gives
-- the memory of the slabs and that of the index.
pub record System : Type 0 where
  pub env_flush : Option ℤ
  pub env_gc : Option ℤ
  pub slabs_mapped : Bool
  pub index_mapped : Bool
  pub ndebug : Bool

-- `slab_mem_budget / slab_size_`. A negative budget gives a mapping smaller than what is used, which is
-- undefined as a division by 0 is.
unfoldable pub count_mslabs : ℤ → ℕ → Outcome ℕ
count_mslabs (negsuc n) block_size = faults
count_mslabs (pos n) block_size = if block_size == 0 then faults else done (n / block_size)

abbrev any_zero : List ℕ → Bool
any_zero [] = false
any_zero (n ∷ ns) = n == 0 || any_zero ns

-- The table for the first `nr_slab_class` sizes; what is behind the sizes that were written is not
-- defined, a size of 0 is divided by, and an array of a negative length throws.
unfoldable pub slab_classes : ℕ → ℤ → List ℕ → Outcome (List SlabClass)
slab_classes block_size (negsuc n) sizes = throws
slab_classes block_size (pos n) sizes =
    if ltb (length sizes) n || any_zero (take n sizes)
    then faults
    else done (slab_class_init block_size 0 (take n sizes))

-- `index_init`, with its mapping and its table. With a table of no chains every later call takes a
-- remainder by 0, which is undefined; the model faults at once.
unfoldable pub make_index : ℤ → List SlabClass → Bool → ℤ → Outcome Index
make_index budget table mapped (negsuc n) = throws
make_index budget table mapped (pos zero) = faults
make_index budget table mapped (pos (suc n)) =
    or_throw
      (index_init (size_of_int budget) (map (λ (sc : SlabClass). sc.slots_per_slab) table) (suc n))
    >>= λ idx. if mapped then done idx else throws

module _ (fl : Floats) (md : Medium) where
  open fl use {int_product}

  -- What the options and the store fix.
  abbrev pub config_of : System → Options fl → Ssd md → ℕ → List SlabClass → Config
  config_of sys o ssd nr_mslab table = record {
    slab_size = ssd.block_size;
    nr_mslab = nr_mslab;
    nr_dslab = ssd.nr_blocks;
    nr_channels = ssd.nr_channels;
    blocks_per_channel = ssd.blocks_per_channel;
    slab_class_table = table;
    enable_background_flush = o.enable_background_flush;
    enable_background_gc = o.enable_background_gc;
    ndebug = sys.ndebug;
    free_block_water_mark_low_min = (water_marks fl o ssd.nr_blocks).low_min;
    free_block_water_mark_high_max = (water_marks fl o ssd.nr_blocks).high_max;
  }

  -- The members after the constructor. A high mark below 0, of a negative option, is taken as 0.
  unfoldable pub construct :
      {D : Type 0} → System → Options fl → Ssd md → D → Outcome (Config × Cache D)
  construct sys options ssd disk =
      let o = override_options fl sys.env_flush sys.env_gc options in
      let marks = water_marks fl o ssd.nr_blocks in
      count_mslabs o.slab_mem_budget ssd.block_size >>= λ nr_mslab.
      (if sys.slabs_mapped then done true else throws) >>= λ _.
      iterate_all_blocks md ssd >>= λ blocks.
      slab_classes ssd.block_size o.nr_slab_class o.slab_class_size >>= λ table.
      make_index o.index_mem_budget table sys.index_mapped o.index_table_size >>= λ idx.
      let cfg = config_of sys o ssd nr_mslab table in
      let ops_size = size_of_int (int_product o.ops_rate ssd.blocks_per_channel) in
      done (cfg, slab_init cfg ops_size blocks (blank idx disk marks.low (pos_part marks.high)))
