-- ===== src/Trace/Life.antt =====
-- The life of a cache on a device: `slab_init` and `index_init` of src/kvcache.cpp, then any sequence
-- of calls and background rounds.
use kvcache.Base.{ℕ, Bytes, ◌<◌, ◌≤◌, ◌≡◌, refl, inl, List, none}
use kvcache.Index.{get_index_entry, find_entry, empty_index}
use kvcache.Index.Unique.{empty_index-IsUnique}
use kvcache.State.{Platform, Config, Cache}
use kvcache.Lists.{count}
use kvcache.Reads.{get_slice_absent}
use kvcache.Api.Running.{Running}
use kvcache.Init.{blank, iterate_all_blocks, slab_init}
use kvcache.Init.Running.{slab_init-Running, slab_init-index}
use kvcache.Trace.{Event, follow_all, Trace, Serves, Trace-Serves}

module _ (pf : Platform) (cfg : Config) where
  open pf use {Disk, hashing}

  -- A new cache over the blocks of a device and an empty index of any size.
  abbrev pub created : ℕ → ℕ → ℕ → Disk → ℕ → ℕ → Cache Disk
  created ops_size nr_index_entry index_table_size disk low high =
      slab_init cfg ops_size (iterate_all_blocks cfg)
        (blank (empty_index nr_index_entry index_table_size) disk low high)

  -- Over blocks of which none is twice.
  pub blocks-Serves :
      (ops_size : ℕ) (blocks : List ℕ) (nr_index_entry index_table_size : ℕ) (disk : Disk)
      (low high : ℕ) (c : Cache Disk) (es : List Event)
      → 0 < cfg.nr_mslab
      → ((b : ℕ) → count b blocks ≤ 1)
      → Trace pf cfg
          (slab_init cfg ops_size blocks
            (blank (empty_index nr_index_entry index_table_size) disk low high))
          es
          c
      → Running pf cfg c × Serves pf cfg c (follow_all (λ _. none) es)
  unfolding get_index_entry find_entry empty_index
  blocks-Serves ops_size blocks nr_index_entry index_table_size disk low high c es some_mslab once
        t =
      let idx = empty_index nr_index_entry index_table_size in
      let start = slab_init cfg ops_size blocks (blank idx disk low high) in
      let empty : (k : Bytes) → get_index_entry hashing idx k ≡ none = λ k. refl in
      let running =
        slab_init-Running pf cfg ops_size blocks idx disk low high some_mslab once
          (empty_index-IsUnique nr_index_entry index_table_size) empty in
      Trace-Serves pf cfg start c (λ _. none) es running
        (λ q. inl (
          get_slice_absent pf cfg start q
            (slab_init-index pf cfg ops_size blocks idx disk low high q)))
        t
