-- ===== src/Options.antt =====
-- The options of a cache, their defaults, and what the constructor makes of them and of the environment
-- (`Options`, `DefaultOptions` and `KVCache::KVCache` of include/kvcache.h and src/kvcache.cpp).
pub mod Marks
use Prim.Native.String.{String}
use kvcache.Base.{
  ℕ, ◌+◌, ◌*◌, ◌≡◌, Bool, true, false, Option, none, some, List, ◌==◌, not, min, max, if◌then◌else◌,
  length,
}
use kvcache.Base.Int.{ℤ, pos, negsuc, pos_part}
use kvcache.SizeClass.{default_slab_class_size}

-- Arithmetic in `float`: a number as it is written, and `static_cast<int>(f * n)`.
pub record Floats : Type 1 where
  pub Float : Type 0
  pub literal : String → Float
  pub int_product : Float → ℕ → ℤ

abbrev pub max_num_slab_class : ℕ
max_num_slab_class = 50

abbrev pub mega : ℕ
mega = 1048576

abbrev pub min_int : ℕ → ℤ → ℤ
min_int m (pos n) = pos (min m n)
min_int m (negsuc n) = negsuc n

module _ (fl : Floats) where
  open fl use {Float, literal, int_product}

  pub record Options : Type 0 where
    pub slab_mem_budget : ℤ
    pub index_mem_budget : ℤ
    pub index_table_size : ℤ
    pub ops_rate : Float
    pub free_block_water_mark_low : Float
    pub free_block_water_mark_high : Float
    pub free_block_slab_water_mark_low_min : Float
    pub free_block_slab_water_mark_high_max : Float
    pub enable_background_flush : Bool
    pub enable_background_gc : Bool
    -- The elements of the array that were written.
    pub slab_class_size : List ℕ
    pub nr_slab_class : ℤ

  unfoldable pub default_options : ℕ → Options
  default_options block_size =
      let sizes = default_slab_class_size block_size 32 max_num_slab_class in
      record {
        slab_mem_budget = pos (1024 * mega);
        index_mem_budget = pos (100 * mega);
        index_table_size = pos (512 * 1024);
        ops_rate = literal "0.2";
        free_block_water_mark_low = literal "0.07";
        free_block_water_mark_high = literal "0.80";
        free_block_slab_water_mark_low_min = literal "0.02";
        free_block_slab_water_mark_high_max = literal "0.90";
        enable_background_flush = true;
        enable_background_gc = true;
        slab_class_size = sizes;
        nr_slab_class = pos (length sizes);
      }

  -- What an environment variable, as `atoi` reads it, makes of an option.
  abbrev pub overridden : Option ℤ → Bool → Bool
  overridden none enable = enable
  overridden (some (pos n)) enable = not (n == 0)
  overridden (some (negsuc n)) enable = true

  unfoldable pub override_options : Option ℤ → Option ℤ → Options → Options
  override_options flush gc o = record o {
    enable_background_flush = overridden flush o.enable_background_flush;
    enable_background_gc = overridden gc o.enable_background_gc;
  }

  -- The water marks of the free blocks, with their limits.
  pub record WaterMarks : Type 0 where
    pub low_min : ℕ
    pub high_max : ℕ
    pub low : ℕ
    pub high : ℤ

  unfoldable pub water_marks : Options → ℕ → WaterMarks
  water_marks o nr_blocks =
      let low_min = max 1 (pos_part (int_product o.free_block_slab_water_mark_low_min nr_blocks)) in
      let high_max =
        max (low_min + 10)
          (pos_part (int_product o.free_block_slab_water_mark_high_max nr_blocks)) in
      record {
        low_min = low_min;
        high_max = high_max;
        low = max low_min (pos_part (int_product o.free_block_water_mark_low nr_blocks));
        high = min_int high_max (int_product o.free_block_water_mark_high nr_blocks);
      }
