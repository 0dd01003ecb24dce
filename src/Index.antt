-- ===== src/Index.antt =====
-- The index: the chained hash table from keys to slots (`index_table_`) and the list of free
-- entries (`free_index_entry_`), of src/kvcache.cpp. A chain is the list of its entries, first
-- entry first, as `list_add` and `list_del` keep it. A pointer to an entry of the table is the key
-- by which `get_index_entry` found it.
pub mod Laws
pub mod Unique
pub mod Count
use kvcache.Base.{
  ℕ, ◌+◌, ◌-◌, ◌/◌, ◌%◌, Bytes, Bool, ◌&&◌, List, [], ◌∷◌, Option, none, some, ◌==◌, ltb,
  if◌then◌else◌, update, replicate,
}

-- `std::hash<std::string_view>` and the SHA-1 of OpenSSL. A digest is the number that its bytes
-- write.
pub record Hashing : Type 0 where
  pub hasher : Bytes → ℕ
  pub make_digest : Bytes → ℕ

pub record IndexEntry : Type 0 where
  pub digest : ℕ
  pub slab_id : ℕ
  pub slot_id : ℕ

pub record Index : Type 0 where
  pub table : ℕ → List IndexEntry
  pub table_size : ℕ
  pub free : List IndexEntry
  pub nr_free : ℕ

-- The search loop of `get_index_entry` over one chain.
unfoldable pub find_entry : ℕ → List IndexEntry → Option IndexEntry
find_entry d [] = none
find_entry d (e ∷ es) = if e.digest == d then some e else find_entry d es

-- `list_del` of the entry that the search finds.
unfoldable pub unlink_entry : ℕ → List IndexEntry → List IndexEntry
unlink_entry d [] = []
unlink_entry d (e ∷ es) = if e.digest == d then es else e ∷ unlink_entry d es

-- The writes `entry->slab_id = …; entry->slot_id = …` to the entry that the search finds.
unfoldable pub move_entry : ℕ → ℕ → ℕ → List IndexEntry → List IndexEntry
move_entry d sid i [] = []
move_entry d sid i (e ∷ es) =
    if e.digest == d
    then record e { slab_id = sid; slot_id = i } ∷ es
    else e ∷ move_entry d sid i es

-- A cell of the freshly mapped `index_area_base_`, which is zero.
abbrev pub blank_entry : IndexEntry
blank_entry = record { digest = 0; slab_id = 0; slot_id = 0 }

-- Every cell on the free list, and every chain empty.
unfoldable pub empty_index : ℕ → ℕ → Index
empty_index nr_index_entry index_table_size = record {
  table = λ _. [];
  table_size = index_table_size;
  free = replicate nr_index_entry blank_entry;
  nr_free = nr_index_entry;
}

-- `sizeof(IndexEntry)`: a digest of 20 bytes, two `int`s, 4 bytes of padding and two pointers.
abbrev pub index_entry_size : ℕ
index_entry_size = 48

unfoldable pub min_nr_index_entry : List ℕ → ℕ
min_nr_index_entry [] = 0
min_nr_index_entry (n ∷ ns) = n + min_nr_index_entry ns

-- `index_init`, with the `slots_per_slab` of the slab classes; `none` is the exception that refuses a
-- budget of less than one entry for each slot of one slab of each class.
unfoldable pub index_init : ℕ → List ℕ → ℕ → Option Index
index_init index_mem_budget slots_per_slab index_table_size =
    let nr_index_entry = index_mem_budget / index_entry_size in
    if ltb nr_index_entry (min_nr_index_entry slots_per_slab)
    then none
    else some (empty_index nr_index_entry index_table_size)

-- `index_entry_alloc`: `none` is the null pointer.
unfoldable pub index_entry_alloc : Index → Option (IndexEntry × Index)
index_entry_alloc idx = elim idx.free [
  | [] ↦ none
  | e ∷ es ↦ some (e, record idx { free = es; nr_free = idx.nr_free - 1 })
]

unfoldable pub index_entry_free : Index → IndexEntry → Index
index_entry_free idx e = record idx { free = e ∷ idx.free; nr_free = idx.nr_free + 1 }

module _ (h : Hashing) where
  abbrev pub bucket_of : Index → Bytes → ℕ
  bucket_of idx key = h.hasher key % idx.table_size

  unfoldable pub get_index_entry : Index → Bytes → Option IndexEntry
  get_index_entry idx key = find_entry (h.make_digest key) (idx.table (bucket_of idx key))

  unfoldable pub put_index_entry : Index → Bytes → IndexEntry → Index
  put_index_entry idx key e =
      let b = bucket_of idx key in record idx { table = update idx.table b (e ∷ idx.table b) }

  -- What `Put`, `modify_index_to` and `gc_dslabs` write through the pointer to an entry.
  unfoldable pub set_location : Index → Bytes → ℕ → ℕ → Index
  set_location idx key sid i =
      let b = bucket_of idx key in
      record idx { table = update idx.table b (move_entry (h.make_digest key) sid i (idx.table b)) }

  unfoldable pub unlink : Index → Bytes → Index
  unlink idx key =
      let b = bucket_of idx key in
      record idx { table = update idx.table b (unlink_entry (h.make_digest key) (idx.table b)) }

  unfoldable pub del_index_entry : Index → Bytes → Index
  unfolding unlink index_entry_free
  del_index_entry idx key = elim (get_index_entry idx key) [
    | none ↦ idx
    | some e ↦ index_entry_free (unlink idx key) e
  ]

  -- Two keys that the index cannot tell apart: one chain and one digest.
  abbrev pub same_entry : Index → Bytes → Bytes → Bool
  same_entry idx k q = bucket_of idx k == bucket_of idx q && h.make_digest k == h.make_digest q
