-- ===== src/CApi.antt =====
-- The C interface, include/kvcache_c_api.h and src/kvcache_c_api.cpp. A handle is what it points to.
pub mod Calls
use Prim.Native.String.{String}
use kvcache.Base.{
  ℕ, zero, suc, ◌+◌, ◌-◌, ◌%◌, ◌^◌, ◌*◌, ◌≡◌, Bytes, Bool, true, false, List, [], ◌∷◌, ◌++◌, Option,
  none, some, ltb, if◌then◌else◌, length, drop,
}
use kvcache.Base.Int.{ℤ, pos, negsuc, sub_ℕ}
use kvcache.Status.{Status, is_ok}
use kvcache.State.{Platform, Config, Cache, Outcome, done, blocks, throws, faults, no_fuel, ◌>>=◌}
use kvcache.SizeClass.{max_kv_size}
use kvcache.Api.{get_into, put, delete}
use kvcache.Ssd.{Medium, Ssd, SsdConfig, create_database, create_device}
use kvcache.Construct.{System, construct}
use kvcache.Options.{Floats, Options, default_options, max_num_slab_class}

-- The conversion of a `size_t` to an `int` of 32 bits.
unfoldable pub int_of_size : ℕ → ℤ
int_of_size n = let r = n % 2 ^ 32 in if ltb r 2147483648 then pos r else sub_ℕ r 4294967296

-- What a call that gives an `int` leaves: the `int`, `*errptr` where it is written, and what is written
-- to the buffer and to `*value_len`.
pub record Reply : Type 0 where
  pub code : ℤ
  pub error : Option String
  pub value : Option Bytes

-- `if (errptr) *errptr = strdup(...)`
unfoldable pub set_error : Bool → String → Option String
set_error errptr msg = if errptr then some msg else none

-- The reply after a status, with what the operation wrote.
unfoldable pub answer : Bool → Status → Option Bytes → Reply
answer errptr st value =
    if is_ok st
    then record { code = pos 0; error = none; value = value }
    else record { code = negsuc 0; error = set_error errptr st.msg; value = value }

-- `try { ... } catch (const std::exception& e)`, where `what` is the text of the exception.
unfoldable pub catching : {A B : Type 0} → Outcome A → (A → B) → B → Outcome B
catching (done a) f caught = done (f a)
catching throws f caught = done caught
catching blocks f caught = blocks
catching faults f caught = faults
catching no_fuel f caught = no_fuel

unfoldable pub refusal : Bool → String → Reply
refusal errptr what = record { code = negsuc 0; error = set_error errptr what; value = none }

abbrev pub ssd_config_create : SsdConfig
ssd_config_create = record { nr_channels = 0; block_size = 0; blocks_per_channel = 0 }

abbrev pub ssd_config_set_nr_channels : SsdConfig → ℕ → SsdConfig
ssd_config_set_nr_channels config n = record config { nr_channels = n }

abbrev pub ssd_config_set_blocks_per_channel : SsdConfig → ℕ → SsdConfig
ssd_config_set_blocks_per_channel config n = record config { blocks_per_channel = n }

abbrev pub ssd_config_set_block_size : SsdConfig → ℕ → SsdConfig
ssd_config_set_block_size config n = record config { block_size = n }

-- `ssd_create`, over what `SSD::create` gives: the handle, with the null pointer in it where the status
-- was not OK, and `*errptr`.
unfoldable pub ssd_create :
    {md : Medium}
    → Outcome (Status × Option (Ssd md))
    → Bool
    → String
    → Outcome (Option (Option (Ssd md)) × Option String)
ssd_create created errptr what =
    catching created (λ r. (some r.1, none)) (none, set_error errptr what)

module _ (pf : Platform) (cfg : Config) where
  open pf use {Disk}

  unfoldable pub kvcache_get : Cache Disk → Bytes → ℕ → Bool → String → Outcome Reply
  kvcache_get c k buf_len errptr what =
      catching (get_into pf cfg c k buf_len) (λ r. answer errptr r.0 r.1) (refusal errptr what)

  -- The cache after an exception is not known: `none`.
  unfoldable pub kvcache_put :
      ℕ → ℕ → ℕ → Cache Disk → Bytes → Bytes → Bool → String → Outcome (Reply × Option (Cache Disk))
  kvcache_put gc_fuel flush_fuel fuel c k v errptr what =
      catching (put pf cfg gc_fuel flush_fuel fuel c k v) (λ r. (answer errptr r.0 none, some r.1))
        (refusal errptr what, none)

  abbrev pub kvcache_delete : Cache Disk → Bytes → Cache Disk
  kvcache_delete c k = delete pf cfg c k

  abbrev pub kvcache_max_kv_size : ℕ
  kvcache_max_kv_size = max_kv_size cfg.slab_class_table

module _ (fl : Floats) where
  open fl use {Float}

  abbrev pub kvcache_options_create : {md : Medium} → Option (Ssd md) → Outcome (Options fl)
  kvcache_options_create none = faults
  kvcache_options_create (some s) = done (default_options fl s.block_size)

  -- `kvcache_create`: the handle, and `*errptr`. The store is the null pointer where `ssd_create` failed.
  unfoldable pub kvcache_create :
      {D : Type 0}
      → (md : Medium) → System
      → Option (Ssd md)
      → Options fl
      → D
      → Bool
      → String
      → Outcome (Option (Config × Cache D) × Option String)
  kvcache_create md sys none options disk errptr what = faults
  kvcache_create md sys (some ssd) options disk errptr what =
      catching (construct fl md sys options ssd disk) (λ r. (some r, none))
        (none, set_error errptr what)

  unfoldable pub kvcache_options_set_slab_mem_budget : Options fl → ℕ → Options fl
  kvcache_options_set_slab_mem_budget o n = record o { slab_mem_budget = int_of_size n }

  unfoldable pub kvcache_options_set_index_mem_budget : Options fl → ℕ → Options fl
  kvcache_options_set_index_mem_budget o n = record o { index_mem_budget = int_of_size n }

  unfoldable pub kvcache_options_set_index_table_size : Options fl → ℕ → Options fl
  kvcache_options_set_index_table_size o n = record o { index_table_size = int_of_size n }

  -- The array has room for `kMaxNumSlabClass` sizes; what `memcpy` writes behind them is undefined.
  unfoldable pub kvcache_options_set_slab_class_size : Options fl → List ℕ → Outcome (Options fl)
  kvcache_options_set_slab_class_size o sizes =
      if ltb max_num_slab_class (length sizes)
      then faults
      else done (record o {
        slab_class_size = sizes ++ drop (length sizes) o.slab_class_size;
        nr_slab_class = pos (length sizes);
      })

  abbrev pub kvcache_options_set_ops_rate : Options fl → Float → Options fl
  kvcache_options_set_ops_rate o f = record o { ops_rate = f }

  abbrev pub kvcache_options_set_free_block_water_mark_low : Options fl → Float → Options fl
  kvcache_options_set_free_block_water_mark_low o f = record o { free_block_water_mark_low = f }

  abbrev pub kvcache_options_set_free_block_water_mark_high : Options fl → Float → Options fl
  kvcache_options_set_free_block_water_mark_high o f = record o { free_block_water_mark_high = f }

  abbrev pub kvcache_options_set_free_block_slab_water_mark_low_min :
      Options fl → Float → Options fl
  kvcache_options_set_free_block_slab_water_mark_low_min o f = record o {
    free_block_slab_water_mark_low_min = f;
  }

  abbrev pub kvcache_options_set_free_block_slab_water_mark_high_max :
      Options fl → Float → Options fl
  kvcache_options_set_free_block_slab_water_mark_high_max o f = record o {
    free_block_slab_water_mark_high_max = f;
  }

  abbrev pub kvcache_options_set_enable_background_flush : Options fl → Bool → Options fl
  kvcache_options_set_enable_background_flush o b = record o { enable_background_flush = b }

  abbrev pub kvcache_options_set_enable_background_gc : Options fl → Bool → Options fl
  kvcache_options_set_enable_background_gc o b = record o { enable_background_gc = b }
