-- ===== src/Tests/Whole.antt =====
-- A cache over a new database, from the options to an object that was put.
use kvcache.Base.{ℕ, ◌≡◌, refl, [], ◌∷◌, none, true, arith}
use kvcache.Base.Int.{pos}
use kvcache.Base.{◌<◌}
use kvcache.Base.{bytes_eq}
use kvcache.Base.Decimal.{decimal, digits, stoi, leading_number}
use kvcache.State.{Config, Cache, Outcome, done, first_entry, push, channel_id, within}
use kvcache.Slab
use kvcache.Status.{ok_status, is_ok}
use kvcache.Index.{
  get_index_entry, find_entry, index_entry_alloc, empty_index, index_init, min_nr_index_entry,
}
use kvcache.SizeClass.{slot_size, get_slab_class}
use kvcache.Options.{Floats, Options, override_options, water_marks}
use kvcache.Api.Running.{Running}
use kvcache.Api.{put, adopt, record_slot, take_slot, await_index_entry}
use kvcache.Api
use kvcache.Init.{slab_init, place_blocks, place_block, free_mslabs, slab_class_init}
use kvcache.Ssd.{
  SsdConfig, Attempt, formatted, failed, format_db, put_channel, put_channels, iterate_all_blocks,
  block_key, visit_keys, key_block, split_slash, leading, starts_with,
}
use kvcache.Lists.{count}
use kvcache.Init.{blank}
use kvcache.Pool.{check_ops_pool}
use kvcache.Pool.Sized.{slab_init-check_ops_pool}
use kvcache.Ssd.Opened.{formatted_ssd}
use kvcache.Construct.{System, construct, count_mslabs, slab_classes, make_index}
use kvcache.Construct.Life.{construct-Serves}
use kvcache.Trace.{Serves, follow_all, stores, put_stored, step, stop}
use kvcache.Tests.Media.{media}
use kvcache.Tests.Example.{memory_disk, small, held_key}
use kvcache.Tests.Traces.{big_value, state_of, new_cache}

-- An option in `float` is its product.
abbrev fixed : Floats
fixed = record { Float = ℕ; literal = λ _. 1; int_product = λ f _. pos f }

abbrev options : Options fixed
options = record {
  slab_mem_budget = pos 300;
  index_mem_budget = pos 192;
  index_table_size = pos 8;
  ops_rate = 1;
  free_block_water_mark_low = 1;
  free_block_water_mark_high = 3;
  free_block_slab_water_mark_low_min = 1;
  free_block_slab_water_mark_high_max = 11;
  enable_background_flush = true;
  enable_background_gc = true;
  slab_class_size = 28 ∷ 56 ∷ [];
  nr_slab_class = pos 2;
}

abbrev system : System
system = record {
  env_flush = none;
  env_gc = none;
  slabs_mapped = true;
  index_mapped = true;
  ndebug = true;
}

abbrev hundreds : SsdConfig
hundreds = record { nr_channels = 2; block_size = 100; blocks_per_channel = 1 }

abbrev db_of : Attempt media.Db → media.Db
db_of (formatted d) = d
db_of (failed st) = []

abbrev filled : media.Db
filled = db_of (format_db media [] hundreds)

abbrev built_of : Outcome (Config × Cache memory_disk.Disk) → Config × Cache memory_disk.Disk
built_of (done r) = r
built_of _ = (small, new_cache)

abbrev built : Config × Cache memory_disk.Disk
built =
    built_of
      (construct fixed media system options (formatted_ssd media hundreds filled) (λ _. none))

constructed :
    construct fixed media system options (formatted_ssd media hundreds filled) (λ _. none)
    ≡ done built
unfolding construct count_mslabs slab_classes make_index override_options water_marks
    iterate_all_blocks format_db put_channels put_channel visit_keys leading starts_with block_key
    key_block split_slash decimal digits stoi leading_number bytes_eq index_init min_nr_index_entry
    slab_class_init empty_index
constructed = refl

abbrev after_put : Cache memory_disk.Disk
after_put = state_of (put memory_disk built.0 0 0 2 built.1 held_key big_value)

put_returns : put memory_disk built.0 0 0 2 built.1 held_key big_value ≡ done (ok_status, after_put)
unfolding construct count_mslabs slab_classes make_index override_options water_marks
    iterate_all_blocks format_db put_channels put_channel visit_keys leading starts_with block_key
    key_block split_slash decimal digits stoi leading_number bytes_eq index_init min_nr_index_entry
    slab_class_init put Api.slot_alloc get_slab_class slot_size first_entry adopt record_slot
    get_index_entry find_entry take_slot empty_index await_index_entry index_entry_alloc slab_init
    place_blocks place_block free_mslabs push channel_id within Slab.slot_alloc
put_returns = refl

construct-Serves_example :
    Running memory_disk built.0 after_put
    × Serves memory_disk built.0 after_put (follow_all (λ _. none) (stores held_key big_value ∷ []))
unfolding is_ok format_db put_channels put_channel construct count_mslabs slab_classes make_index
    override_options water_marks iterate_all_blocks visit_keys leading starts_with block_key
    key_block split_slash decimal digits stoi leading_number bytes_eq index_init min_nr_index_entry
    slab_class_init empty_index
construct-Serves_example =
    construct-Serves fixed media memory_disk hundreds [] filled system options (λ _. none) built.0
      built.1 after_put (stores held_key big_value ∷ []) (omega arith) (omega arith) (λ k. refl)
      refl constructed (omega arith)
      (step (put_stored 0 0 2 held_key big_value ok_status put_returns refl) stop)

in_channels : (b : ℕ) → 0 < count b (3 ∷ 0 ∷ 2 ∷ []) → channel_id small b < 2
unfolding count channel_id
in_channels b i = ground (arith, i)

slab_init-check_ops_pool_example :
    check_ops_pool {D = ℕ} small
      (slab_init small 1 (3 ∷ 0 ∷ 2 ∷ []) (blank {D = ℕ} (empty_index 4 8) 0 1 3))
    ≡ true
slab_init-check_ops_pool_example =
    slab_init-check_ops_pool {D = ℕ} small 1 (3 ∷ 0 ∷ 2 ∷ []) (empty_index 4 8) 0 1 3 in_channels
