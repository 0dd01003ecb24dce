-- ===== src/Api/Delete.antt =====
-- `Delete` (src/kvcache.cpp), and the reads after it.
use kvcache.Base.{◌≡◌, ◌∙◌, ap, inl, inr, Bytes, true, none, arith, Bool-cases, if◌then◌else◌}
use kvcache.Status.{not_found_status}
use kvcache.Index.{Index, get_index_entry, same_entry, del_index_entry, index_entry_free, unlink}
use kvcache.Index.Unique.{del_index_entry-IsUnique, get-del_index_entry}
use kvcache.State.{Platform, Config, Cache, done}
use kvcache.Reads.{Sound}
use kvcache.Reads.Link.{Relinks, Unlinks-Sound, get_slice_gone, get_slice_miss}
use kvcache.Api.{get_slice, delete}

module _ (pf : Platform) (cfg : Config) where
  open pf use {Disk, hashing}

  -- The index part is `del_index_entry`.
  delete-index :
      (c : Cache Disk) (k : Bytes) → (delete pf cfg c k).index ≡ del_index_entry hashing c.index k
  unfolding delete del_index_entry
  delete-index c k = ground arith

  del-table_size :
      (idx : Index) (k : Bytes) → (del_index_entry hashing idx k).table_size ≡ idx.table_size
  unfolding del_index_entry unlink index_entry_free
  del-table_size idx k = ground arith

  pub delete-Relinks :
      (c : Cache Disk) (k : Bytes) → Sound pf cfg c → Relinks pf cfg c (delete pf cfg c k) k
  delete-Relinks c k v = record {
    unique = λ b d.
        ground (arith, delete-index c k, del_index_entry-IsUnique hashing c.index k v.unique b d);
    chain_count = ap (λ (x : Index). x.table_size) (delete-index c k) ∙ del-table_size c.index k;
    disk = unfold delete in ground arith;
    sid = λ s. unfold delete in ground arith;
    block_id = λ s. unfold delete in ground arith;
    memory = λ s i. unfold delete in ground arith;
    nr_alloc = λ s. unfold delete in ground arith;
    miss =
        λ q n. ground (arith, delete-index c k, get-del_index_entry hashing c.index k q v.unique);
  }

  pub delete_gone :
      (c : Cache Disk) (k q : Bytes)
      → Sound pf cfg c
      → same_entry hashing c.index k q ≡ true
      → get_index_entry hashing (delete pf cfg c k).index q ≡ none
  delete_gone c k q v y =
      ground (arith, delete-index c k, get-del_index_entry hashing c.index k q v.unique)

  pub delete-Sound :
      (c : Cache Disk) (k : Bytes) → Sound pf cfg c → Sound pf cfg (delete pf cfg c k)
  delete-Sound c k v =
      Unlinks-Sound pf cfg c (delete pf cfg c k) k (delete-Relinks c k v) v
        (λ q y. delete_gone c k q v y)

  -- After `Delete` of `k`, the keys of its index entry (`k` among them) are not found, and every other
  -- key reads what it read before.
  pub get_slice-delete :
      (c : Cache Disk) (k q : Bytes)
      → Sound pf cfg c
      → get_slice pf cfg (delete pf cfg c k) q ≡ (
          if same_entry hashing c.index k q
          then done (not_found_status "Key not found", none)
          else get_slice pf cfg c q)
  get_slice-delete c k q v = elim (Bool-cases (same_entry hashing c.index k q)) [
    | inl y ↦ rw y (
        get_slice_gone pf cfg c (delete pf cfg c k) k (delete-Relinks c k v) v
          (λ q y. delete_gone c k q v y) q y)
    | inr n ↦ rw n (get_slice_miss pf cfg c (delete pf cfg c k) k (delete-Relinks c k v) v q n)
  ]
