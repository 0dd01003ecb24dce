-- ===== src/Api/Record.antt =====
-- The index part of `Put`: the new slot is recorded under the key.
use kvcache.Base.{
  ℕ, sym, Bool-cases, inl, inr, ◌-◌, ◌<◌, ◌≡◌, ◌≢◌, refl, ◌∙◌, ap, Bytes, bytes_eq, true, false,
  none, some, arith, if◌then◌else◌, update,
}
use kvcache.Status.{ok_status, not_found_status}
use kvcache.Index.{Index, IndexEntry, get_index_entry, same_entry, set_location, put_index_entry}
use kvcache.Index.Laws.{get_congr, get-set_location, get-put_index_entry}
use kvcache.Index.Unique.{set_location-IsUnique, put_index_entry-IsUnique}
use kvcache.Slot.{key, value, write, read-write}
use kvcache.State.{Platform, Config, Cache, done, set_slab, gc_buffer}
use kvcache.Reads.{Sound, Unreferenced}
use kvcache.Reads.Frame.{Keeps, Keeps-Sound}
use kvcache.Reads.Link.{Relinks, Links-Sound, get_slice_hit, get_slice_miss}
use kvcache.Api.{get_slice}

module _ (pf : Platform) (cfg : Config) where
  open pf use {Disk, hashing}

  -- Slot `i` of the memory slab `m` is handed out, and no entry points to it.
  pub record Handed (c : Cache Disk) (m i : ℕ) : Type 0 where
    pub in_memory : (c.slabs m).block_id ≡ none
    pub in_range : i < (c.slabs m).nr_alloc
    pub fresh :
        (q : Bytes) (e : IndexEntry)
        → get_index_entry hashing c.index q ≡ some e
        → e.slab_id ≡ m
        → e.slot_id ≢ i
    pub not_buffer : m ≢ gc_buffer cfg

  -- The write of key and value to the slot.
  abbrev pub stored : Cache Disk → ℕ → ℕ → Bytes → Bytes → Cache Disk
  stored c m i k x = set_slab c m (record (c.slabs m) {
    memory = update (c.slabs m).memory i (write ((c.slabs m).memory i) k x);
  })

  -- What storing `x` under `k` does to reads.
  pub record Stores (c c' : Cache Disk) (k x : Bytes) : Type 0 where
    pub sound : Sound pf cfg c'
    pub hit :
        (q : Bytes)
        → same_entry hashing c.index k q ≡ true
        → get_slice pf cfg c' q
          ≡ done (
              if bytes_eq q k
              then (ok_status, some x)
              else (not_found_status "Key not found", none))
    pub miss :
        (q : Bytes)
        → same_entry hashing c.index k q ≡ false
        → get_slice pf cfg c' q ≡ get_slice pf cfg c q

  -- Slot `i` of the memory slab `m` is in use and holds `x` under `k`.
  pub record Filled (c : Cache Disk) (m i : ℕ) (k x : Bytes) : Type 0 where
    pub in_memory : (c.slabs m).block_id ≡ none
    pub in_range : i < (c.slabs m).nr_alloc
    pub holds_key : key ((c.slabs m).memory i) ≡ k
    pub holds_value : value ((c.slabs m).memory i) ≡ x

  -- The entry of a key that is known moves to the slot.
  abbrev pub repointed : Cache Disk → IndexEntry → Bytes → ℕ → ℕ → Cache Disk
  repointed c e k m i = record c {
    slabs =
        update c.slabs e.slab_id
          (record (c.slabs e.slab_id) { nr_used = (c.slabs e.slab_id).nr_used - 1 });
    index = set_location hashing c.index k (c.slabs m).sid i;
  }

  -- An entry for a new key, over what is left of the index after its cell was taken.
  abbrev pub entered : Cache Disk → Index → Bytes → ℕ → ℕ → Cache Disk
  entered c idx k m i = record c {
    index =
        put_index_entry hashing idx k
          (record { digest = hashing.make_digest k; slab_id = (c.slabs m).sid; slot_id = i });
  }

  module _ (c : Cache Disk) (m i : ℕ) (k x : Bytes) (v : Sound pf cfg c) (h : Handed c m i) where
    pub stored-Keeps : Keeps pf cfg c (stored c m i k x)
    stored-Keeps = record {
      chains = refl;
      chain_count = refl;
      disk = refl;
      sid = λ s. ground arith;
      block_id = λ s. ground arith;
      in_use = λ q e p used. (ground (arith, h.fresh q e p), ground arith);
    }

    pub stored-Sound : Sound pf cfg (stored c m i k x)
    stored-Sound = Keeps-Sound pf cfg c (stored c m i k x) stored-Keeps v

    stored_slot : ((stored c m i k x).slabs m).memory i ≡ write ((c.slabs m).memory i) k x
    stored_slot = ground arith

    pub stored-Filled : Filled (stored c m i k x) m i k x
    stored-Filled =
        let t = read-write ((c.slabs m).memory i) k x in
        record {
          in_memory = ground (arith, h.in_memory);
          in_range = ground (arith, h.in_range);
          holds_key = ap key stored_slot ∙ t.0;
          holds_value = ap value stored_slot ∙ t.1;
        }

  module _ (c : Cache Disk) (m i : ℕ) (k x : Bytes) (v : Sound pf cfg c)
      (f : Filled c m i k x) where
    links :
        (c' : Cache Disk)
        → Relinks pf cfg c c' k
        → ((q : Bytes)
            → same_entry hashing c.index k q ≡ true
            → (e : IndexEntry) × (get_index_entry hashing c'.index q ≡ some e)
              × (e.slab_id ≡ m)
              × (e.slot_id ≡ i))
        → Stores c c' k x
    links c' r hit = record {
      sound =
          Links-Sound pf cfg c c' k r v m i x f.in_memory f.in_range f.holds_key f.holds_value hit;
      hit =
          get_slice_hit pf cfg c c' k r v m i x f.in_memory f.in_range f.holds_key f.holds_value
            hit;
      miss = get_slice_miss pf cfg c c' k r v;
    }

    -- The slab of the entry stays a slab in use, whatever the counter says.
    pub repointed-Relinks : (e : IndexEntry) → Relinks pf cfg c (repointed c e k m i) k
    repointed-Relinks e = record {
      unique = set_location-IsUnique hashing c.index k _ i v.unique;
      chain_count = unfold set_location in refl;
      disk = refl;
      sid = λ s. ground arith;
      block_id = λ s. ground arith;
      memory = λ s j. ground arith;
      nr_alloc = λ s. ground arith;
      miss = λ q n. get-set_location hashing c.index k q _ i ∙ rw n refl;
    }

    pub repointed-Unreferenced :
        (e : IndexEntry) (s : ℕ)
        → get_index_entry hashing c.index k ≡ some e
        → s ≢ m
        → Unreferenced pf cfg c s
        → Unreferenced pf cfg (repointed c e k m i) s
    repointed-Unreferenced e s p n u q g found at =
        elim (Bool-cases (same_entry hashing c.index k q)) [
          | inl y ↦ n (
              sym at
              ∙ ground (
                arith,
                found,
                p,
                y,
                get-set_location hashing c.index k q (c.slabs m).sid i,
                get_congr hashing c.index k q,
                v.sids m,
              ))
          | inr z ↦ u q g (sym ((repointed-Relinks e).miss q z) ∙ found) at
        ]

    pub repointed-Stores :
        (e : IndexEntry)
        → get_index_entry hashing c.index k ≡ some e
        → Stores c (repointed c e k m i) k x
    repointed-Stores e p = links _ (repointed-Relinks e) λ q y. (
      record e { slab_id = m; slot_id = i },
      ground (
        arith,
        get-set_location hashing c.index k q (c.slabs m).sid i,
        get_congr hashing c.index k q,
        v.sids m,
      ),
      refl,
      refl,
    )

    module _ (idx : Index) (t : idx.table ≡ c.index.table) (n : idx.table_size ≡ c.index.table_size)
        (absent : get_index_entry hashing c.index k ≡ none) where
      same_index : (q : Bytes) → get_index_entry hashing idx q ≡ get_index_entry hashing c.index q
      unfolding get_index_entry
      same_index q = rw (t, n)

      new_entry : IndexEntry
      new_entry = record { digest = hashing.make_digest k; slab_id = (c.slabs m).sid; slot_id = i }

      found_after :
          (q : Bytes)
          → get_index_entry hashing (put_index_entry hashing idx k new_entry) q
            ≡ (if same_entry hashing idx k q then some new_entry else get_index_entry hashing idx q)
      unfolding new_entry
      found_after q = get-put_index_entry hashing idx k q new_entry refl

      pub entered-Relinks : Relinks pf cfg c (entered c idx k m i) k
      unfolding new_entry
      entered-Relinks = record {
        unique =
            put_index_entry-IsUnique hashing idx k _ refl (same_index k ∙ absent)
              (λ b d. ground (arith, t, v.unique b d));
        chain_count = unfold put_index_entry in n;
        disk = refl;
        sid = λ s. refl;
        block_id = λ s. refl;
        memory = λ s j. refl;
        nr_alloc = λ s. refl;
        miss = λ q z. found_after q ∙ ground (arith, n, z, same_index q);
      }

      pub entered-Unreferenced :
          (s : ℕ) → s ≢ m → Unreferenced pf cfg c s → Unreferenced pf cfg (entered c idx k m i) s
      unfolding new_entry
      entered-Unreferenced s z u q g found at = elim (Bool-cases (same_entry hashing c.index k q)) [
        | inl y ↦ z (sym at ∙ ground (arith, found, found_after q, n, y, v.sids m))
        | inr w ↦ u q g (sym (entered-Relinks.miss q w) ∙ found) at
      ]

      pub entered-Stores : Stores c (entered c idx k m i) k x
      unfolding new_entry
      entered-Stores =
          links _ entered-Relinks
            λ q y. (new_entry, found_after q ∙ ground (arith, n, y), v.sids m, refl)
