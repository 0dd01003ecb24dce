-- ===== src/Reads.antt =====
-- What a read finds: the invariant between the index, the slabs and the disk, and when a change of
-- the state leaves a read as it was.
pub mod Frame
pub mod Link
pub mod Turn
use kvcache.Base.{
  ℕ, ◌<◌, ◌≡◌, ◌≢◌, refl, ◌∙◌, sym, ap, Bytes, bytes_eq, true, false, not, Option, none, some,
  arith, if◌then◌else◌,
}
use kvcache.Status.{Status, ok_status, not_found_status}
use kvcache.Index.{IndexEntry, get_index_entry, same_entry}
use kvcache.Index.Unique.{IsUnique}
use kvcache.Slot.{Slot, key, value}
use kvcache.Slab.{Slab, im_memory, assign}
use kvcache.State.{Platform, Config, Cache, Outcome, done, or_throw, ◌>>=◌, gc_buffer}
use kvcache.Move.{read_dslab}
use kvcache.Api.{fetch, get_slice}

module _ (pf : Platform) (cfg : Config) where
  open pf use {Disk, hashing, read_block}

  -- The entry that key `k` finds points to a slot in use, with a key that is the same to the index.
  abbrev pub Points : Cache Disk → Bytes → IndexEntry → Type 0
  Points c k e =
      (e.slot_id < (c.slabs e.slab_id).nr_alloc)
      × ((slot : Slot) × (fetch pf cfg c e ≡ done slot)
          × (same_entry hashing c.index (key slot) k ≡ true))

  pub record Sound (c : Cache Disk) : Type 0 where
    pub sids : (s : ℕ) → (c.slabs s).sid ≡ s
    pub blocks : (s t b : ℕ) → (c.slabs s).block_id ≡ some b → (c.slabs t).block_id ≡ some b → s ≡ t
    pub buffer : (c.slabs (gc_buffer cfg)).block_id ≡ none
    pub unique : IsUnique c.index
    pub points :
        (k : Bytes) (e : IndexEntry) → get_index_entry hashing c.index k ≡ some e → Points c k e

  -- No entry points to the slab `m`.
  abbrev pub Unreferenced : Cache Disk → ℕ → Type 0
  Unreferenced c m =
      (k : Bytes) (e : IndexEntry) → get_index_entry hashing c.index k ≡ some e → e.slab_id ≢ m

  pub fetch_memory :
      (c : Cache Disk) (e : IndexEntry)
      → (c.slabs e.slab_id).block_id ≡ none
      → fetch pf cfg c e ≡ done ((c.slabs e.slab_id).memory e.slot_id)
  unfolding fetch im_memory
  fetch_memory c e p = rw (p, fetch)

  -- A read from the disk, by the block and the slot.
  abbrev pub disk_slot : Disk → ℕ → ℕ → Outcome Slot
  disk_slot disk b i = or_throw (read_block disk b) >>= λ image. done (image.memory i)

  pub fetch_disk :
      (c : Cache Disk) (e : IndexEntry) (b : ℕ)
      → (c.slabs e.slab_id).block_id ≡ some b
      → fetch pf cfg c e ≡ disk_slot c.disk b e.slot_id
  unfolding fetch im_memory read_dslab assign
  fetch_disk c e b p = rw (p, fetch) (ground arith)

  -- An answer depends on what the index finds and on the slot that is fetched.
  pub get_slice_absent :
      (c : Cache Disk) (k : Bytes)
      → get_index_entry hashing c.index k ≡ none
      → get_slice pf cfg c k ≡ done (not_found_status "Key not found", none)
  unfolding get_slice
  get_slice_absent c k p = rw (p, get_slice)

  abbrev pub answer : Bytes → Slot → Status × Option Bytes
  answer k slot =
      if bytes_eq k (key slot)
      then (ok_status, some (value slot))
      else (not_found_status "Key not found", none)

  pub get_slice_found :
      (c : Cache Disk) (k : Bytes) (e : IndexEntry) (slot : Slot)
      → get_index_entry hashing c.index k ≡ some e
      → fetch pf cfg c e ≡ done slot
      → get_slice pf cfg c k ≡ done (answer k slot)
  unfolding get_slice
  get_slice_found c k e slot p q = rw (p, get_slice) (rw q (ground arith))
