-- ===== src/Index/Count.antt =====
-- The entries of the index: in the chains, in the free list, and in the counter (src/kvcache.cpp).
use kvcache.Base.{
  ℕ, zero, suc, ◌+◌, ◌-◌, ◌≤◌, ◌<◌, ◌≡◌, refl, inl, inr, Bytes, List, [], ◌∷◌, some, arith, update,
  Option-cases, length, ap, sym, length-replicate,
}
use kvcache.Index.{
  Hashing, IndexEntry, Index, find_entry, move_entry, unlink_entry, get_index_entry, empty_index,
  blank_entry, put_index_entry, set_location, unlink, del_index_entry, index_entry_free,
  index_entry_alloc, bucket_of,
}

-- The entries of the first `n` chains.
unfoldable pub count_entries : ℕ → (ℕ → List IndexEntry) → ℕ
count_entries zero table = 0
count_entries (suc n) table = length (table n) + count_entries n table

pub record IsCounted (total : ℕ) (idx : Index) : Type 0 where
  pub nonempty : 0 < idx.table_size
  pub counter : idx.nr_free ≡ length idx.free
  pub shared : count_entries idx.table_size idx.table + length idx.free ≡ total

count_entries-update_above :
    (n b : ℕ) (table : ℕ → List IndexEntry) (c : List IndexEntry)
    → n ≤ b
    → count_entries n (update table b c) ≡ count_entries n table
unfolding count_entries
count_entries-update_above zero b table c p = refl
count_entries-update_above (suc n) b table c p =
    ground (arith, count_entries-update_above n b table c)

count_entries-update :
    (n b : ℕ) (table : ℕ → List IndexEntry) (c : List IndexEntry)
    → b < n
    → count_entries n (update table b c) + length (table b) ≡ count_entries n table + length c
unfolding count_entries
count_entries-update zero b table c p = absurd (omega arith)
count_entries-update (suc n) b table c p =
    ground (arith, count_entries-update n b table c, count_entries-update_above n b table c)

length-move_entry :
    (d sid i : ℕ) (es : List IndexEntry) → length (move_entry d sid i es) ≡ length es
unfolding move_entry
length-move_entry d sid i [] = refl
length-move_entry d sid i (e ∷ es) = ground (arith, length-move_entry d sid i es)

length-unlink_entry :
    (d : ℕ) (es : List IndexEntry) (e : IndexEntry)
    → find_entry d es ≡ some e
    → length (unlink_entry d es) + 1 ≡ length es
unfolding unlink_entry find_entry
length-unlink_entry d [] e p = cc
length-unlink_entry d (x ∷ es) e p = ground (arith, length-unlink_entry d es e)

-- What a successful `index_entry_alloc` took.
abbrev pub Takes : Index → IndexEntry → Index → Type 0
Takes idx f idx' =
    (es : List IndexEntry) × (idx.free ≡ f ∷ es)
    × (idx' ≡ record idx { free = es; nr_free = idx.nr_free - 1 })

pub index_entry_alloc-Takes :
    (idx : Index) (f : IndexEntry) (idx' : Index)
    → index_entry_alloc idx ≡ some (f, idx')
    → Takes idx f idx'
unfolding index_entry_alloc
index_entry_alloc-Takes idx f idx' p = go idx.free refl
  where
    go : (fr : List IndexEntry) → idx.free ≡ fr → Takes idx f idx'
    go [] e = absurd (ground arith)
    go (x ∷ es) e = (es, ground arith, ground arith)

module _ (h : Hashing) (total : ℕ) (idx : Index) (c : IsCounted total idx) where
  chain_inside : (k : Bytes) → bucket_of h idx k < idx.table_size
  chain_inside k = grind (arith, c.nonempty)

  -- An entry that goes from the free list to a chain keeps the account.
  pub alloc-put-IsCounted :
      (k : Bytes) (e f : IndexEntry) (idx' : Index)
      → index_entry_alloc idx ≡ some (f, idx')
      → IsCounted total (put_index_entry h idx' k e)
  unfolding index_entry_alloc put_index_entry
  alloc-put-IsCounted k e f idx' p =
      let (es, q, r) = index_entry_alloc-Takes idx f idx' p in
      rw r (record {
        nonempty = c.nonempty;
        counter = omega (arith, c.counter, ap length q);
        shared = omega (
          arith,
          c.shared,
          ap length q,
          count_entries-update idx.table_size (bucket_of h idx k) idx.table
              (e ∷ idx.table (bucket_of h idx k)) (chain_inside k),
        );
      })

  pub set_location-IsCounted :
      (k : Bytes) (sid i : ℕ) → IsCounted total (set_location h idx k sid i)
  unfolding set_location
  set_location-IsCounted k sid i = record {
    nonempty = c.nonempty;
    counter = c.counter;
    shared = omega (
      arith,
      c.shared,
      length-move_entry (h.make_digest k) sid i (idx.table (bucket_of h idx k)),
      count_entries-update idx.table_size (bucket_of h idx k) idx.table
          (move_entry (h.make_digest k) sid i (idx.table (bucket_of h idx k))) (chain_inside k),
    );
  }

  unlink-free-IsCounted :
      (k : Bytes) (e : IndexEntry)
      → get_index_entry h idx k ≡ some e
      → IsCounted total (index_entry_free (unlink h idx k) e)
  unfolding unlink index_entry_free get_index_entry
  unlink-free-IsCounted k e p = record {
    nonempty = c.nonempty;
    counter = omega (arith, c.counter);
    shared = omega (
      arith,
      c.shared,
      length-unlink_entry (h.make_digest k) (idx.table (bucket_of h idx k)) e p,
      count_entries-update idx.table_size (bucket_of h idx k) idx.table
          (unlink_entry (h.make_digest k) (idx.table (bucket_of h idx k))) (chain_inside k),
    );
  }

  -- `Delete`, and eviction, give the entry back.
  pub del_index_entry-IsCounted : (k : Bytes) → IsCounted total (del_index_entry h idx k)
  unfolding del_index_entry get_index_entry
  del_index_entry-IsCounted k = elim (Option-cases (get_index_entry h idx k)) [
    | inl p ↦ rw (p, del_index_entry) c
    | inr (e, p) ↦ rw (p, del_index_entry) (unlink-free-IsCounted k e p)
  ]

empty_chains : (n : ℕ) → count_entries n (λ _. []) ≡ 0
unfolding count_entries
empty_chains zero = refl
empty_chains (suc n) = omega (arith, empty_chains n)

pub empty_index-IsCounted : (n size : ℕ) → 0 < size → IsCounted n (empty_index n size)
unfolding empty_index
empty_index-IsCounted n size p = record {
  nonempty = p;
  counter = sym (length-replicate n blank_entry);
  shared = omega (arith, empty_chains size, length-replicate n blank_entry);
}
