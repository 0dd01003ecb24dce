-- ===== src/Ssd/Created.antt =====
-- What `SSD::create` (src/ssd.cpp) returns, and `slab_init` (src/kvcache.cpp) over its blocks.
use kvcache.Base.{
  ℕ, List, ◌*◌, ◌<◌, ◌≤◌, ◌≡◌, ◌∙◌, refl, sym, subst, Bytes, [], Option, none, some, arith,
}
use kvcache.Index.{empty_index}
use kvcache.Status.{ok_status}
use kvcache.State.{Platform, Config, Cache, done, done_injective}
use kvcache.Lists.{count}
use kvcache.Api.Running.{Running}
use kvcache.Init.{blank, slab_init}
use kvcache.Trace.{Event, follow_all, Trace, Serves}
use kvcache.Trace.Life.{blocks-Serves}
use kvcache.Ssd.{
  Medium, SsdConfig, formatted, format_db, create_database, read_block, read, get_block,
  iterate_all_blocks,
}
use kvcache.Ssd.Format.{put_channels-Filled}
use kvcache.Ssd.Opened.{formatted_ssd, format_db-Stages, format_db-open_ssd}
use kvcache.Ssd.Visit.{iterate_all_blocks-count}

module _ (md : Medium) where
  open md use {Db, db_get}

  -- Where every put of `create` succeeds, the database opens again with what was put, and the numbers of
  -- the configuration are positive where they divide and at most what `stoi` reads: `create` returns OK
  -- and a store with the numbers of the configuration, and every block of it reads as the empty text.
  pub create_database-read_block :
      (config : SsdConfig) (db db' : Db) (reopen : Db → Option Db)
      → 0 < config.blocks_per_channel
      → config.blocks_per_channel < 2147483648
      → config.nr_channels < 2147483648
      → config.block_size < 2147483648
      → config.blocks_per_channel * config.nr_channels < 2147483648
      → format_db md db config ≡ formatted db'
      → reopen db' ≡ some db'
      → (create_database md (some db) reopen config
          ≡ done (ok_status, some (formatted_ssd md config db')))
        × ((b : ℕ)
            → b < config.blocks_per_channel * config.nr_channels
            → read_block md (formatted_ssd md config db') b ≡ done (ok_status, some []))
  unfolding create_database read_block read get_block
  create_database-read_block config db db' reopen pos fits_p fits_n fits_size fits h same =
      let p = config.blocks_per_channel in
      let st = format_db-Stages md config db db' h in
      let filled =
        put_channels-Filled md p config.nr_channels 0 0 st.before db' pos (omega arith) st.blocks in
      (
        rw (create_database, h)
            (rw same
              (rw (format_db-open_ssd md config db db' pos fits_p fits_n fits_size fits h) refl)),
        λ b below. rw (read_block, read, filled.hit b (omega arith) (omega (arith, below))) refl,
      )

  module _ (pf : Platform) (cfg : Config) where
    open pf use {Disk, hashing}

    -- On a database that held nothing, after `create` with numbers that `stoi` reads, where there is a memory
    -- slab for `gc_buffer_`: from the new cache that `slab_init` makes over the blocks of the iteration and
    -- an empty index of any size, after any sequence of calls of `Put` and `Delete` and of rounds of
    -- flushing and collection that return, the invariant holds, and every read answers what was put last
    -- and not deleted since, or that the key is not found.
    pub format_db-Serves :
        (config : SsdConfig) (db db' : Db) (blocks : List ℕ)
        (ops_size nr_index_entry index_table_size : ℕ) (disk : Disk) (low high : ℕ) (c : Cache Disk)
        (es : List Event)
        → 0 < config.blocks_per_channel
        → config.nr_channels * config.blocks_per_channel < 2147483648
        → ((k : Bytes) → db_get db k ≡ none)
        → format_db md db config ≡ formatted db'
        → iterate_all_blocks md (formatted_ssd md config db') ≡ done blocks
        → 0 < cfg.nr_mslab
        → Trace pf cfg
            (slab_init cfg ops_size blocks
              (blank (empty_index nr_index_entry index_table_size) disk low high))
            es
            c
        → Running pf cfg c × Serves pf cfg c (follow_all (λ _. none) es)
    format_db-Serves config db db' blocks ops_size nr_index_entry index_table_size disk low high c
          es pos fits new h iterated some_mslab t =
        let (bs, e, counts) = iterate_all_blocks-count md config db db' pos fits new h in
        let same : bs ≡ blocks = done_injective (sym e ∙ iterated) in
        blocks-Serves pf cfg ops_size blocks nr_index_entry index_table_size disk low high c es
          some_mslab (λ b. subst (λ xs. count b xs ≤ 1) same (ground (arith, counts b))) t
