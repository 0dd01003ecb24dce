-- ===== src/Index/Laws.antt =====
-- What each write to the index does to a later `get_index_entry`.
use kvcache.Base.{
  ℕ, ◌≡◌, Bytes, true, List, [], ◌∷◌, Option, none, some, arith, ◌==◌, if◌then◌else◌,
}
use kvcache.Index.{
  Hashing, IndexEntry, Index, find_entry, move_entry, get_index_entry, put_index_entry,
  set_location, same_entry, bucket_of,
}

-- An entry that now points to slot `i` of slab `sid`.
abbrev pub moved : ℕ → ℕ → Option IndexEntry → Option IndexEntry
moved sid i none = none
moved sid i (some e) = some (record e { slab_id = sid; slot_id = i })

pub find_entry-move_entry :
    (d q sid i : ℕ) (es : List IndexEntry)
    → find_entry q (move_entry d sid i es)
      ≡ (if d == q then moved sid i (find_entry q es) else find_entry q es)
unfolding find_entry move_entry
find_entry-move_entry d q sid i [] = ground arith
find_entry-move_entry d q sid i (e ∷ es) = ground (arith, find_entry-move_entry d q sid i es)

pub find_entry-digest :
    (d : ℕ) (es : List IndexEntry) (e : IndexEntry) → find_entry d es ≡ some e → e.digest ≡ d
unfolding find_entry
find_entry-digest d [] e p = cc
find_entry-digest d (x ∷ es) e p = ground (arith, find_entry-digest d es e)

module _ (h : Hashing) where
  -- A new entry is found by the keys of its chain and digest, and hides no other.
  pub get-put_index_entry :
      (idx : Index) (k q : Bytes) (e : IndexEntry)
      → e.digest ≡ h.make_digest k
      → get_index_entry h (put_index_entry h idx k e) q
        ≡ (if same_entry h idx k q then some e else get_index_entry h idx q)
  unfolding get_index_entry put_index_entry find_entry
  get-put_index_entry idx k q e p = ground arith

  pub get-set_location :
      (idx : Index) (k q : Bytes) (sid i : ℕ)
      → get_index_entry h (set_location h idx k sid i) q ≡ (
          if same_entry h idx k q
          then moved sid i (get_index_entry h idx q)
          else get_index_entry h idx q)
  unfolding get_index_entry set_location
  get-set_location idx k q sid i = ground (
    arith,
    find_entry-move_entry (h.make_digest k) (h.make_digest q) sid i (idx.table (bucket_of h idx k)),
  )

  -- Keys that the index cannot tell apart find one entry.
  pub get_congr :
      (idx : Index) (k q : Bytes)
      → same_entry h idx k q ≡ true
      → get_index_entry h idx k ≡ get_index_entry h idx q
  unfolding get_index_entry
  get_congr idx k q p = ground arith

  pub get-digest :
      (idx : Index) (k : Bytes) (e : IndexEntry)
      → get_index_entry h idx k ≡ some e
      → e.digest ≡ h.make_digest k
  unfolding get_index_entry
  get-digest idx k e p = find_entry-digest _ _ e p
