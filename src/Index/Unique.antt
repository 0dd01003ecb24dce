-- ===== src/Index/Unique.antt =====
-- Digests in the chains of the index, and the entry that `del_index_entry` takes out
-- (src/kvcache.cpp).
use kvcache.Base.{
  ℕ, ◌+◌, ◌≤◌, ◌≡◌, refl, Bytes, List, [], ◌∷◌, none, arith, ◌==◌, if◌then◌else◌, Option-cases, inl,
  inr,
}
use kvcache.Index.{
  Hashing, IndexEntry, Index, find_entry, move_entry, unlink_entry, get_index_entry, empty_index,
  put_index_entry, set_location, unlink, del_index_entry, index_entry_free, same_entry, bucket_of,
}

-- How often a chain holds a digest.
unfoldable pub count_digest : ℕ → List IndexEntry → ℕ
count_digest d [] = 0
count_digest d (e ∷ es) = (if e.digest == d then 1 else 0) + count_digest d es

abbrev pub IsUnique : Index → Type 0
IsUnique idx = (b d : ℕ) → count_digest d (idx.table b) ≤ 1

count_digest-eq_zero :
    (d : ℕ) (es : List IndexEntry) → find_entry d es ≡ none → count_digest d es ≡ 0
unfolding find_entry count_digest
count_digest-eq_zero d [] p = refl
count_digest-eq_zero d (e ∷ es) p = ground (arith, count_digest-eq_zero d es)

find_entry-eq_none : (d : ℕ) (es : List IndexEntry) → count_digest d es ≡ 0 → find_entry d es ≡ none
unfolding find_entry count_digest
find_entry-eq_none d [] p = refl
find_entry-eq_none d (e ∷ es) p = ground (arith, find_entry-eq_none d es)

count_digest-unlink_entry :
    (d q : ℕ) (es : List IndexEntry) → count_digest q (unlink_entry d es) ≤ count_digest q es
unfolding count_digest unlink_entry
count_digest-unlink_entry d q [] = omega arith
count_digest-unlink_entry d q (e ∷ es) = ground (arith, count_digest-unlink_entry d q es)

count_digest-move_entry :
    (d q sid i : ℕ) (es : List IndexEntry)
    → count_digest q (move_entry d sid i es) ≡ count_digest q es
unfolding count_digest move_entry
count_digest-move_entry d q sid i [] = refl
count_digest-move_entry d q sid i (e ∷ es) = ground (arith, count_digest-move_entry d q sid i es)

find_entry-unlink_entry :
    (d q : ℕ) (es : List IndexEntry)
    → count_digest d es ≤ 1
    → find_entry q (unlink_entry d es) ≡ (if d == q then none else find_entry q es)
unfolding find_entry unlink_entry count_digest
find_entry-unlink_entry d q [] p = ground arith
find_entry-unlink_entry d q (e ∷ es) p =
    ground (arith, find_entry-unlink_entry d q es, find_entry-eq_none d es)

pub empty_index-IsUnique : (n size : ℕ) → IsUnique (empty_index n size)
unfolding empty_index count_digest
empty_index-IsUnique n size b d = omega arith

pub index_entry_free-IsUnique :
    (idx : Index) (e : IndexEntry) → IsUnique idx → IsUnique (index_entry_free idx e)
unfolding index_entry_free
index_entry_free-IsUnique idx e u b d = u b d

module _ (h : Hashing) where
  pub put_index_entry-IsUnique :
      (idx : Index) (k : Bytes) (e : IndexEntry)
      → e.digest ≡ h.make_digest k
      → get_index_entry h idx k ≡ none
      → IsUnique idx
      → IsUnique (put_index_entry h idx k e)
  unfolding put_index_entry get_index_entry count_digest
  put_index_entry-IsUnique idx k e p absent u b d =
      ground (arith, u b d, count_digest-eq_zero (h.make_digest k) (idx.table (bucket_of h idx k)))

  pub set_location-IsUnique :
      (idx : Index) (k : Bytes) (sid i : ℕ) → IsUnique idx → IsUnique (set_location h idx k sid i)
  unfolding set_location
  set_location-IsUnique idx k sid i u b d = ground (
    arith,
    u b d,
    count_digest-move_entry (h.make_digest k) d sid i (idx.table (bucket_of h idx k)),
  )

  unlink-IsUnique : (idx : Index) (k : Bytes) → IsUnique idx → IsUnique (unlink h idx k)
  unfolding unlink
  unlink-IsUnique idx k u b d =
      ground (
        arith,
        u b d,
        count_digest-unlink_entry (h.make_digest k) d (idx.table (bucket_of h idx k)),
      )

  pub del_index_entry-IsUnique :
      (idx : Index) (k : Bytes) → IsUnique idx → IsUnique (del_index_entry h idx k)
  unfolding del_index_entry
  del_index_entry-IsUnique idx k u = elim (Option-cases (get_index_entry h idx k)) [
    | inl p ↦ rw (p, del_index_entry) u
    | inr (e, p) ↦ rw (p, del_index_entry) (unlink-IsUnique idx k u)
  ]

  -- Taking an entry out hides it from the keys that found it, and from no others.
  pub get-unlink :
      (idx : Index) (k q : Bytes)
      → IsUnique idx
      → get_index_entry h (unlink h idx k) q
        ≡ (if same_entry h idx k q then none else get_index_entry h idx q)
  unfolding get_index_entry unlink
  get-unlink idx k q u = ground (
    arith,
    find_entry-unlink_entry (h.make_digest k) (h.make_digest q) (idx.table (bucket_of h idx k))
        (u _ _),
  )

  -- In an index with no digest twice in a chain, the keys of an entry that was deleted are found no
  -- more, and every other key is found where it was.
  pub get-del_index_entry :
      (idx : Index) (k q : Bytes)
      → IsUnique idx
      → get_index_entry h (del_index_entry h idx k) q
        ≡ (if same_entry h idx k q then none else get_index_entry h idx q)
  unfolding del_index_entry get_index_entry
  get-del_index_entry idx k q u = elim (Option-cases (get_index_entry h idx k)) [
    | inl p ↦ rw (p, del_index_entry) (ground (arith, p))
    | inr (e, p) ↦ rw (p, del_index_entry) (get-unlink idx k q u)
  ]
