-- ===== src/Construct/Life.antt =====
-- The life of a cache from `SSD::create` and the constructor on (src/ssd.cpp and src/kvcache.cpp).
use kvcache.Base.{
  ℕ, ◌*◌, ◌/◌, ◌<◌, ◌≡◌, ◌∙◌, sym, subst, Bytes, Bool, Bool-cases, true, false, inl, inr, List,
  none, some, zero, suc, arith, if◌then◌else◌, ltb,
}
use mathlib.Core.List.{map}
use kvcache.Base.Int.{ℤ, pos, negsuc, pos_part}
use kvcache.Index.{Index, index_init, empty_index, index_entry_size, min_nr_index_entry}
use kvcache.Init.{blank, slab_init}
use kvcache.State.{
  Platform, Config, Cache, SlabClass, done, throws, done_injective, >>=-eq-done, or_throw,
  or_throw_done,
}
use kvcache.Options.{Floats, Options, override_options, water_marks}
use kvcache.Api.Running.{Running}
use kvcache.Ssd.{Medium, SsdConfig, formatted, format_db, iterate_all_blocks}
use kvcache.Ssd.Opened.{formatted_ssd}
use kvcache.Ssd.Created.{format_db-Serves}
use kvcache.Trace.{Event, follow_all, Trace, Serves}
use kvcache.Construct.{
  System, construct, make_index, count_mslabs, slab_classes, config_of, size_of_int,
}

mapped_done :
    (mapped : Bool) (made idx : Index)
    → (if mapped then done made else throws) ≡ done idx
    → made ≡ idx
mapped_done true made idx h = done_injective h
mapped_done false made idx h = absurd (cc h)

index_init_empty :
    (budget : ℕ) (slots : List ℕ) (n : ℕ) (idx : Index)
    → index_init budget slots n ≡ some idx
    → idx ≡ empty_index (budget / index_entry_size) n
unfolding index_init
index_init_empty budget slots n idx h =
    elim (Bool-cases (ltb (budget / index_entry_size) (min_nr_index_entry slots))) [
      | inl y ↦ absurd (ground (arith, y, h))
      | inr m ↦ ground (arith, m, h)
    ]

-- The index of a new cache is empty.
make_index_empty :
    (budget table_size : ℤ) (table : List SlabClass) (mapped : Bool) (idx : Index)
    → make_index budget table mapped table_size ≡ done idx
    → (n : ℕ) × (m : ℕ) × (idx ≡ empty_index n m)
unfolding make_index index_init
make_index_empty budget (negsuc n) table mapped idx h = absurd (cc h)
make_index_empty budget (pos zero) table mapped idx h = absurd (cc h)
make_index_empty budget (pos (suc n)) table mapped idx h =
    let slots = map (λ (sc : SlabClass). sc.slots_per_slab) table in
    let (made, found, kept) =
      >>=-eq-done (or_throw (index_init (size_of_int budget) slots (suc n))) _ {b = idx} h in
    let at = or_throw_done (index_init (size_of_int budget) slots (suc n)) made found in
    (
      size_of_int budget / index_entry_size,
      suc n,
      sym (mapped_done mapped made idx kept)
          ∙ index_init_empty (size_of_int budget) slots (suc n) made at,
    )

module _ (fl : Floats) (md : Medium) (pf : Platform) where
  open fl use {int_product}
  open md use {Db, db_get}
  open pf use {Disk}

  -- Over the blocks of a database that held nothing, after `create` with at least one block to a channel
  -- and fewer than 2 ^ 31 blocks, and with a disk that keeps the contract of `Platform`: where the
  -- constructor returns, with a memory slab for `gc_buffer_`, then after any sequence of calls of `Put`
  -- and `Delete` and of rounds of flushing and collection that return, the invariant holds, with which each partial
  -- slab has a slot left and its slots inside it, and every read answers what was put last and not
  -- deleted since, or that the key is not found.
  pub construct-Serves :
      (config : SsdConfig) (db db' : Db) (sys : System) (options : Options fl) (disk : Disk)
      (cfg : Config) (start c : Cache Disk) (es : List Event)
      → 0 < config.blocks_per_channel
      → config.nr_channels * config.blocks_per_channel < 2147483648
      → ((k : Bytes) → db_get db k ≡ none)
      → format_db md db config ≡ formatted db'
      → construct fl md sys options (formatted_ssd md config db') disk ≡ done (cfg, start)
      → 0 < cfg.nr_mslab
      → Trace pf cfg start es c
      → Running pf cfg c × Serves pf cfg c (follow_all (λ _. none) es)
  unfolding construct
  construct-Serves config db db' sys options disk cfg start c es some_block fits new h built
        some_mslab t =
      let ssd = formatted_ssd md config db' in
      let o = override_options fl sys.env_flush sys.env_gc options in
      let (nr_mslab, e₁, h₁) =
        >>=-eq-done (count_mslabs o.slab_mem_budget ssd.block_size) _ {b = (cfg, start)} built in
      let (_, e₂, h₂) =
        >>=-eq-done (if sys.slabs_mapped then done true else throws) _ {b = (cfg, start)} h₁ in
      let (blocks, e₃, h₃) = >>=-eq-done (iterate_all_blocks md ssd) _ {b = (cfg, start)} h₂ in
      let (table, e₄, h₄) =
        >>=-eq-done (slab_classes ssd.block_size o.nr_slab_class o.slab_class_size) _
          {b = (cfg, start)} h₃ in
      let (idx, e₅, h₅) =
        >>=-eq-done (make_index o.index_mem_budget table sys.index_mapped o.index_table_size) _
          {b = (cfg, start)} h₄ in
      let (n, m, empty) =
        make_index_empty o.index_mem_budget o.index_table_size table sys.index_mapped idx e₅ in
      let made = config_of fl md sys o ssd nr_mslab table in
      let ops_size = size_of_int (int_product o.ops_rate ssd.blocks_per_channel) in
      let marks = water_marks fl o ssd.nr_blocks in
      subst
        (λ (x : Config × Cache Disk).
          0 < x.0.nr_mslab
          → Trace pf x.0 x.1 es c
          → Running pf x.0 c × Serves pf x.0 c (follow_all (λ _. none) es))
        (done_injective h₅)
        (λ some_slab run.
          format_db-Serves md pf made config db db' blocks ops_size n m disk marks.low
            (pos_part marks.high) c es some_block fits new h e₃ some_slab
            (subst
              (λ x.
                Trace pf made
                  (slab_init made ops_size blocks (blank x disk marks.low (pos_part marks.high))) es
                  c)
              empty run))
        some_mslab t
