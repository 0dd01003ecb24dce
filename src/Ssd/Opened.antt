-- ===== src/Ssd/Opened.antt =====
-- Opening what `SSD::create` left (the constructor and `create` of src/ssd.cpp).
use kvcache.Base.{ℕ, ◌*◌, ◌<◌, ◌≡◌, ◌∙◌, refl, Bytes, bytes_eq, some, arith, false}
use kvcache.Base.Decimal.{decimal, stoi-decimal}
use kvcache.State.{done}
use kvcache.Ssd.{
  Medium, Ssd, SsdConfig, formatted, put_or, put_channels, format_db, open_ssd, get_number,
  in_database, num_blocks_key, block_size_key, num_channels_key, block_per_channel_key, starts_with,
}
use kvcache.Ssd.Format.{put_channels-Filled, put_or_done, >>--eq-formatted}

module _ (md : Medium) where
  open md use {Db, db_get, db_put, get-put}

  -- The store that `create` returns for a configuration.
  abbrev pub formatted_ssd : SsdConfig → Db → Ssd md
  formatted_ssd config db = record {
    nr_channels = config.nr_channels;
    nr_blocks = config.blocks_per_channel * config.nr_channels;
    block_size = config.block_size;
    blocks_per_channel = config.blocks_per_channel;
    backing = in_database db;
  }

  -- What the puts of `create` leave: four numbers, and then the blocks.
  pub record Stages (config : SsdConfig) (db db' : Db) : Type 0 where
    pub before : Db
    pub total :
        db_get before num_blocks_key
        ≡ some (decimal (config.blocks_per_channel * config.nr_channels))
    pub size : db_get before block_size_key ≡ some (decimal config.block_size)
    pub channels : db_get before num_channels_key ≡ some (decimal config.nr_channels)
    pub per_channel : db_get before block_per_channel_key ≡ some (decimal config.blocks_per_channel)
    pub other :
        (k : Bytes)
        → bytes_eq num_blocks_key k ≡ false
        → bytes_eq block_size_key k ≡ false
        → bytes_eq num_channels_key k ≡ false
        → bytes_eq block_per_channel_key k ≡ false
        → db_get before k ≡ db_get db k
    pub blocks :
        put_channels md config.blocks_per_channel config.nr_channels 0 0 before ≡ formatted db'

  pub format_db-Stages :
      (config : SsdConfig) (db db' : Db)
      → format_db md db config ≡ formatted db'
      → Stages config db db'
  unfolding format_db bytes_eq
  format_db-Stages config db db' h =
      let p = config.blocks_per_channel in
      let (db₁, p₁, h₁) =
        >>--eq-formatted
          (put_or md "put blocks_per_channel failed" db block_per_channel_key (decimal p)) _ _ h in
      let (db₂, p₂, h₂) =
        >>--eq-formatted
          (put_or md "put num_blocks failed" db₁ num_blocks_key (decimal (p * config.nr_channels)))
          _ _ h₁ in
      let (db₃, p₃, h₃) =
        >>--eq-formatted
          (put_or md "put block_size failed" db₂ block_size_key (decimal config.block_size)) _ _
          h₂ in
      let (db₄, p₄, h₄) =
        >>--eq-formatted
          (put_or md "put nr_channels failed" db₃ num_channels_key (decimal config.nr_channels)) _ _
          h₃ in
      let g₁ = λ (q : Bytes).
        get-put db db₁ block_per_channel_key (decimal p) q (put_or_done md p _ _ _ _ _ p₁) in
      let g₂ = λ (q : Bytes).
        get-put db₁ db₂ num_blocks_key (decimal (p * config.nr_channels)) q
          (put_or_done md p _ _ _ _ _ p₂) in
      let g₃ = λ (q : Bytes).
        get-put db₂ db₃ block_size_key (decimal config.block_size) q
          (put_or_done md p _ _ _ _ _ p₃) in
      let g₄ = λ (q : Bytes).
        get-put db₃ db₄ num_channels_key (decimal config.nr_channels) q
          (put_or_done md p _ _ _ _ _ p₄) in
      record {
        before = db₄;
        total = g₄ num_blocks_key ∙ g₃ num_blocks_key ∙ g₂ num_blocks_key;
        size = g₄ block_size_key ∙ g₃ block_size_key;
        channels = g₄ num_channels_key;
        per_channel =
            g₄ block_per_channel_key
            ∙ g₃ block_per_channel_key
            ∙ g₂ block_per_channel_key
            ∙ g₁ block_per_channel_key;
        other = λ k n₂ n₃ n₄ n₁. g₄ k ∙ rw n₄ (g₃ k ∙ rw n₃ (g₂ k ∙ rw n₂ (g₁ k ∙ rw n₁ refl)));
        blocks = h₄;
      }

  get_number_done :
      (db : Db) (k : Bytes) (n : ℕ)
      → db_get db k ≡ some (decimal n)
      → n < 2147483648
      → get_number md db k ≡ done n
  get_number_done db k n e h = rw e (rw (stoi-decimal n h) refl)

  -- Where `create` could put everything, and the numbers are at most what `stoi` reads, opening the
  -- database gives the store that the configuration describes.
  pub format_db-open_ssd :
      (config : SsdConfig) (db db' : Db)
      → 0 < config.blocks_per_channel
      → config.blocks_per_channel < 2147483648
      → config.nr_channels < 2147483648
      → config.block_size < 2147483648
      → config.blocks_per_channel * config.nr_channels < 2147483648
      → format_db md db config ≡ formatted db'
      → open_ssd md (some db') ≡ done (formatted_ssd config db')
  unfolding open_ssd starts_with
  format_db-open_ssd config db db' pos fits_p fits_n fits_size fits h =
      let st = format_db-Stages config db db' h in
      let filled =
        put_channels-Filled md config.blocks_per_channel config.nr_channels 0 0 st.before db' pos
          (omega arith) st.blocks in
      rw
        (
          get_number_done db' num_blocks_key _ (filled.base num_blocks_key refl ∙ st.total) fits,
          get_number_done db' block_size_key _ (filled.base block_size_key refl ∙ st.size)
              fits_size,
          get_number_done db' num_channels_key _ (filled.base num_channels_key refl ∙ st.channels)
              fits_n,
          get_number_done db' block_per_channel_key _
              (filled.base block_per_channel_key refl ∙ st.per_channel) fits_p,
        )
        refl
