-- ===== src/Ssd.antt =====
-- The block store `class SSD` of include/ssd.h and src/ssd.cpp, over a key-value database or a device.
pub mod Keys
pub mod Contract
pub mod Format
pub mod Opened
pub mod Visit
pub mod Created
use kvcache.Base.{
  ℕ, zero, suc, ◌+◌, ◌-◌, ◌*◌, ◌/◌, ◌<◌, ◌≤◌, ◌≡◌, ◌⊎◌, Bool, true, false, Bytes, bytes_eq, List,
  [], ◌∷◌, ◌++◌, Option, none, some, ltb, ◌==◌, if◌then◌else◌, length, drop, ◌&&◌,
}
use Prim.Native.String.{String}
use kvcache.Base.Decimal.{decimal, stoi}
use kvcache.Status.{Status, ok_status, corruption_status}
use kvcache.Init.{iterate_channels}
use kvcache.State.{Outcome, done, throws, faults, or_throw, ◌>>=◌}

unfoldable pub starts_with : Bytes → Bytes → Bool
starts_with k [] = true
starts_with [] (c ∷ cs) = false
starts_with (x ∷ xs) (c ∷ cs) = let rest = starts_with xs cs in if x == c then rest else false

-- The keys before the first one without the prefix.
unfoldable pub leading : Bytes → List Bytes → List Bytes
leading p [] = []
leading p (k ∷ ks) = let rest = leading p ks in if starts_with k p then k ∷ rest else []

unfoldable pub count_key : Bytes → List Bytes → ℕ
count_key k [] = 0
count_key k (q ∷ ks) = (if bytes_eq q k then 1 else 0) + count_key k ks

abbrev pub is_some : Option Bytes → Bool
is_some none = false
is_some (some v) = true

-- What the SSD is built on. A database gives back what was put last under a key, and an iterator from
-- `prefix` on meets the keys with that prefix first, each once. `None` is a status that is not OK. A
-- device gives back what was written, and a write touches no other range; `none` is a transfer that was
-- not complete.
pub record Medium : Type 1 where
  pub Db : Type 0
  pub db_get : Db → Bytes → Option Bytes
  pub db_put : Db → Bytes → Bytes → Option Db
  pub db_seek : Db → Bytes → List Bytes
  pub Dev : Type 0
  pub pread : Dev → ℕ → ℕ → Option Bytes
  pub pwrite : Dev → ℕ → Bytes → Option Dev
  pub get-put :
      (d d' : Db) (k v q : Bytes)
      → db_put d k v ≡ some d'
      → db_get d' q ≡ (if bytes_eq k q then some v else db_get d q)
  pub pread-pwrite :
      (d d' : Dev) (o : ℕ) (v : Bytes) → pwrite d o v ≡ some d' → pread d' o (length v) ≡ some v
  pub pread-pwrite_apart :
      (d d' : Dev) (o q n : ℕ) (v : Bytes)
      → pwrite d o v ≡ some d'
      → (o + length v ≤ q) ⊎ (q + n ≤ o)
      → pread d' q n ≡ pread d q n
  pub seek-prefix :
      (d : Db) (p k : Bytes)
      → count_key k (leading p (db_seek d p))
        ≡ (if starts_with k p && is_some (db_get d k) then 1 else 0)

-- "/nr_blocks", "/block_size", "/nr_channels", "/block_per_channel" and "/blocks".
abbrev pub num_blocks_key : Bytes
num_blocks_key = b'/' ∷ b'n' ∷ b'r' ∷ b'_' ∷ b'b' ∷ b'l' ∷ b'o' ∷ b'c' ∷ b'k' ∷ b's' ∷ []

abbrev pub block_size_key : Bytes
block_size_key = b'/' ∷ b'b' ∷ b'l' ∷ b'o' ∷ b'c' ∷ b'k' ∷ b'_' ∷ b's' ∷ b'i' ∷ b'z' ∷ b'e' ∷ []

abbrev pub num_channels_key : Bytes
num_channels_key =
    b'/' ∷ b'n' ∷ b'r' ∷ b'_' ∷ b'c' ∷ b'h' ∷ b'a' ∷ b'n' ∷ b'n' ∷ b'e' ∷ b'l' ∷ b's' ∷ []

abbrev pub block_per_channel_key : Bytes
block_per_channel_key =
    b'/' ∷ b'b' ∷ b'l' ∷ b'o' ∷ b'c' ∷ b'k' ∷ b'_' ∷ b'p' ∷ b'e' ∷ b'r' ∷ b'_' ∷ b'c' ∷ b'h' ∷ b'a'
    ∷ b'n' ∷ b'n' ∷ b'e' ∷ b'l' ∷ []

abbrev pub block_prefix : Bytes
block_prefix = b'/' ∷ b'b' ∷ b'l' ∷ b'o' ∷ b'c' ∷ b'k' ∷ b's' ∷ []

unfoldable pub block_key : ℕ → ℕ → Bytes
block_key channel block = block_prefix ++ b'/' ∷ (decimal channel ++ b'/' ∷ decimal block)

pub record SsdConfig : Type 0 where
  pub nr_channels : ℕ
  pub block_size : ℕ
  pub blocks_per_channel : ℕ

-- The position of a block on a device is a product of two `int`s: beyond `int` it is undefined.
unfoldable pub int_product : ℕ → ℕ → Outcome ℕ
int_product a b = if ltb (a * b) 2147483648 then done (a * b) else faults

-- `find('/')` in a text, and what stands on the two sides.
unfoldable pub split_slash : Bytes → Option (Bytes × Bytes)
split_slash [] = none
split_slash (c ∷ cs) =
    let rest = split_slash cs in
    if c == b'/'
    then some ([], cs)
    else elim rest [ none ↦ none | some parts ↦ some (c ∷ parts.0, parts.1) ]

-- One key of the iteration: `none` where it has no second `/`.
unfoldable pub key_block : Bytes → Outcome (Option ℕ)
key_block k = elim (split_slash (drop 8 k)) [
  | none ↦ done none
  | some parts ↦
      or_throw (stoi parts.0) >>= λ channel. or_throw (stoi parts.1) >>= λ b. done (some b)
]

unfoldable pub visit_keys : List Bytes → Outcome (List ℕ)
visit_keys [] = done []
visit_keys (k ∷ ks) = do
  first ← key_block k
  rest ← visit_keys ks
  done (elim first [ none ↦ rest | some b ↦ b ∷ rest ])

-- `create` up to the point where the database is closed: what failed, or the database.
pub data Attempt (A : Type 0) : Type 0 where
  formatted : A → Attempt A
  failed : Status → Attempt A

infixl 5 ◌>>-◌
abbrev pub ◌>>-◌ : {A B : Type 0} → Attempt A → (A → Attempt B) → Attempt B
formatted a >>- f = f a
failed st >>- f = failed st

module _ (md : Medium) where
  open md use {Db, db_get, db_put, db_seek, Dev, pread, pwrite}

  pub data Backing : Type 0 where
    in_database : Db → Backing
    on_device : Dev → Backing

  pub record Ssd : Type 0 where
    pub nr_channels : ℕ
    pub nr_blocks : ℕ
    pub block_size : ℕ
    pub blocks_per_channel : ℕ
    pub backing : Backing

  pub record Block : Type 0 where
    pub block_id : ℕ
    pub channel_id : ℕ

  unfoldable pub get_block : Ssd → ℕ → Block
  get_block s block_id = record {
    block_id = block_id;
    channel_id = block_id / s.blocks_per_channel;
  }

  -- `Block::read`: the status, and what `*value` holds where it is OK.
  unfoldable pub read : Ssd → Block → Outcome (Status × Option Bytes)
  read s b = elim s.backing [
    | on_device dev ↦ int_product b.block_id s.block_size >>= λ offset.
        elim (pread dev offset s.block_size) [
          | none ↦ done (corruption_status "read failed", none)
          | some v ↦ done (ok_status, some v)
        ]
    | in_database db ↦ elim (db_get db (block_key b.channel_id b.block_id)) [
      | none ↦ done (corruption_status "read failed", none)
      | some v ↦ done (ok_status, some v)
    ]
  ]

  -- `Block::write`: the status, and the store after it.
  unfoldable pub write : Ssd → Block → Bytes → Outcome (Status × Ssd)
  write s b v = elim s.backing [
    | on_device dev ↦ int_product b.block_id s.block_size >>= λ offset. elim (pwrite dev offset v) [
      | none ↦ done (corruption_status "write failed: %s", s)
      | some dev' ↦ done (ok_status, record s { backing = on_device dev' })
    ]
    | in_database db ↦ elim (db_put db (block_key b.channel_id b.block_id) v) [
      | none ↦ done (corruption_status "write failed", s)
      | some db' ↦ done (ok_status, record s { backing = in_database db' })
    ]
  ]

  unfoldable pub read_block : Ssd → ℕ → Outcome (Status × Option Bytes)
  read_block s block_id = read s (get_block s block_id)

  unfoldable pub write_block : Ssd → ℕ → Bytes → Outcome (Status × Ssd)
  write_block s block_id v = write s (get_block s block_id) v

  abbrev pub put_or : String → Db → Bytes → Bytes → Attempt Db
  put_or msg db k v = elim (db_put db k v) [
    | none ↦ failed (corruption_status msg)
    | some db' ↦ formatted db'
  ]

  -- The inner loop: `n` blocks of a channel from `block_id` on.
  unfoldable pub put_channel : ℕ → ℕ → ℕ → Db → Attempt Db
  put_channel channel zero block_id db = formatted db
  put_channel channel (suc n) block_id db =
      put_or "put block_key failed" db (block_key channel block_id) [] >>- λ db'.
      put_channel channel n (block_id + 1) db'

  -- The outer loop: `n` channels from `channel` on.
  unfoldable pub put_channels : ℕ → ℕ → ℕ → ℕ → Db → Attempt Db
  put_channels blocks_per_channel zero channel block_id db = formatted db
  put_channels blocks_per_channel (suc n) channel block_id db =
      put_channel channel blocks_per_channel block_id db >>- λ db'.
      put_channels blocks_per_channel n (channel + 1) (block_id + blocks_per_channel) db'

  unfoldable pub format_db : Db → SsdConfig → Attempt Db
  format_db db config =
      put_or "put blocks_per_channel failed" db block_per_channel_key
        (decimal config.blocks_per_channel)
      >>- λ db₁.
          put_or "put num_blocks failed" db₁ num_blocks_key
            (decimal (config.blocks_per_channel * config.nr_channels))
          >>- λ db₂.
              put_or "put block_size failed" db₂ block_size_key (decimal config.block_size)
              >>- λ db₃.
                  put_or "put nr_channels failed" db₃ num_channels_key (decimal config.nr_channels)
                  >>- λ db₄. put_channels config.blocks_per_channel config.nr_channels 0 0 db₄

  -- A number that the constructor reads from the database.
  abbrev pub get_number : Db → Bytes → Outcome ℕ
  get_number db k = or_throw (db_get db k) >>= λ v. or_throw (stoi v)

  -- `SSD(path, options)`, from what `DB::Open` gave.
  unfoldable pub open_ssd : Option Db → Outcome Ssd
  open_ssd opened = do
    db ← or_throw opened
    nr_blocks ← get_number db num_blocks_key
    block_size ← get_number db block_size_key
    nr_channels ← get_number db num_channels_key
    blocks_per_channel ← get_number db block_per_channel_key
    done (record {
      nr_channels = nr_channels;
      nr_blocks = nr_blocks;
      block_size = block_size;
      blocks_per_channel = blocks_per_channel;
      backing = in_database db;
    })

  -- `SSD::create` on a path that is no device. `opened` is what the first `DB::Open` gave, `reopen` what
  -- the second gives.
  unfoldable pub create_database :
      Option Db → (Db → Option Db) → SsdConfig → Outcome (Status × Option Ssd)
  create_database none reopen config = done (corruption_status "open db failed", none)
  create_database (some db) reopen config = elim (format_db db config) [
    | failed st ↦ done (st, none)
    | formatted db' ↦ open_ssd (reopen db') >>= λ s. done (ok_status, some s)
  ]

  -- `SSD::create` on a device: `opened` is what `open` gave.
  unfoldable pub create_device : Option Dev → SsdConfig → Outcome (Status × Option Ssd)
  create_device opened config = or_throw opened >>= λ dev. done (
    ok_status,
    some (record {
      nr_channels = config.nr_channels;
      nr_blocks = config.blocks_per_channel * config.nr_channels;
      block_size = config.block_size;
      blocks_per_channel = config.blocks_per_channel;
      backing = on_device dev;
    }),
  )

  -- The blocks that `iterate_all_blocks` visits.
  unfoldable pub iterate_all_blocks : Ssd → Outcome (List ℕ)
  iterate_all_blocks s = elim s.backing [
    | on_device dev ↦ done (iterate_channels s.blocks_per_channel s.nr_channels 0)
    | in_database db ↦ visit_keys (leading block_prefix (db_seek db block_prefix))
  ]
