-- ===== src/Reads/Link.antt =====
-- Changes of the index that lead one key to a slot, or to none, and what reads find afterwards.
use kvcache.Base.{
  ℕ, ◌<◌, ◌≡◌, refl, ◌∙◌, sym, ap, inl, inr, Bytes, bytes_eq, true, false, Option, none, some,
  arith, Option-cases, Bool-cases, if◌then◌else◌,
}
use kvcache.Status.{ok_status, not_found_status}
use kvcache.Index.{IndexEntry, get_index_entry, same_entry}
use kvcache.Index.Unique.{IsUnique}
use kvcache.Slot.{key, value}
use kvcache.State.{Platform, Config, Cache, done, gc_buffer}
use kvcache.Reads.{
  Points, Sound, fetch_memory, fetch_disk, disk_slot, get_slice_absent, get_slice_found,
}
use kvcache.Api.{fetch, get_slice}

module _ (pf : Platform) (cfg : Config) where
  open pf use {Disk, hashing}

  -- `c'` is `c` but for the entry of `k`, and for counters.
  pub record Relinks (c c' : Cache Disk) (k : Bytes) : Type 0 where
    pub unique : IsUnique c'.index
    pub chain_count : c'.index.table_size ≡ c.index.table_size
    pub disk : c'.disk ≡ c.disk
    pub sid : (s : ℕ) → (c'.slabs s).sid ≡ (c.slabs s).sid
    pub block_id : (s : ℕ) → (c'.slabs s).block_id ≡ (c.slabs s).block_id
    pub memory : (s i : ℕ) → (c'.slabs s).memory i ≡ (c.slabs s).memory i
    pub nr_alloc : (s : ℕ) → (c'.slabs s).nr_alloc ≡ (c.slabs s).nr_alloc
    pub miss :
        (q : Bytes)
        → same_entry hashing c.index k q ≡ false
        → get_index_entry hashing c'.index q ≡ get_index_entry hashing c.index q

  module _ (c c' : Cache Disk) (k : Bytes) (r : Relinks c c' k) where
    same_fetch : (e : IndexEntry) → fetch pf cfg c' e ≡ fetch pf cfg c e
    same_fetch e = elim (Option-cases (c.slabs e.slab_id).block_id) [
      | inl z ↦
          fetch_memory pf cfg c' e (r.block_id e.slab_id ∙ z)
          ∙ ap done (r.memory e.slab_id e.slot_id)
          ∙ sym (fetch_memory pf cfg c e z)
      | inr (b, z) ↦
          fetch_disk pf cfg c' e b (r.block_id e.slab_id ∙ z)
          ∙ ap (λ (x : Disk). disk_slot pf cfg x b e.slot_id) r.disk
          ∙ sym (fetch_disk pf cfg c e b z)
    ]

    module _ (v : Sound pf cfg c) where
      miss-Points :
          (q : Bytes) (e : IndexEntry)
          → same_entry hashing c.index k q ≡ false
          → get_index_entry hashing c'.index q ≡ some e
          → Points pf cfg c' q e
      miss-Points q e n p =
          let (used, (slot, fetched, same)) = v.points q e (sym (r.miss q n) ∙ p) in
          (
            ground (arith, r.nr_alloc e.slab_id, used),
            (slot, same_fetch e ∙ fetched, ground (arith, r.chain_count, same)),
          )

      -- The invariant, if it holds for the keys of the changed entry.
      pub Relinks-Sound :
          ((q : Bytes) (e : IndexEntry)
            → same_entry hashing c.index k q ≡ true
            → get_index_entry hashing c'.index q ≡ some e
            → Points pf cfg c' q e)
          → Sound pf cfg c'
      Relinks-Sound hit = record {
        sids = λ s. r.sid s ∙ v.sids s;
        blocks = λ s t b y z. v.blocks s t b (sym (r.block_id s) ∙ y) (sym (r.block_id t) ∙ z);
        buffer = r.block_id (gc_buffer cfg) ∙ v.buffer;
        unique = r.unique;
        points = λ q e p. elim (Bool-cases (same_entry hashing c.index k q)) [
          | inl y ↦ hit q e y p
          | inr n ↦ miss-Points q e n p
        ];
      }

      -- The keys of other entries read what they read before.
      pub get_slice_miss :
          (q : Bytes)
          → same_entry hashing c.index k q ≡ false
          → get_slice pf cfg c' q ≡ get_slice pf cfg c q
      get_slice_miss q n = go (get_index_entry hashing c.index q) refl
        where
          go :
              (o : Option IndexEntry)
              → get_index_entry hashing c.index q ≡ o
              → get_slice pf cfg c' q ≡ get_slice pf cfg c q
          go none z =
              get_slice_absent pf cfg c' q (r.miss q n ∙ z) ∙ sym (get_slice_absent pf cfg c q z)
          go (some e) z =
              let (used, (slot, fetched, same)) = v.points q e z in
              get_slice_found pf cfg c' q e slot (r.miss q n ∙ z) (same_fetch e ∙ fetched)
              ∙ sym (get_slice_found pf cfg c q e slot z fetched)

      -- The entry of `k` is gone.
      module _
          (gone : (q : Bytes)
            → same_entry hashing c.index k q ≡ true
            → get_index_entry hashing c'.index q ≡ none) where
        pub Unlinks-Sound : Sound pf cfg c'
        Unlinks-Sound = Relinks-Sound (λ q e y p. absurd (ground (arith, gone q y, p)))

        pub get_slice_gone :
            (q : Bytes)
            → same_entry hashing c.index k q ≡ true
            → get_slice pf cfg c' q ≡ done (not_found_status "Key not found", none)
        get_slice_gone q y = get_slice_absent pf cfg c' q (gone q y)

      -- The entry of `k` points to slot `i` of the memory slab `m`, which holds `k` and `x`.
      module _ (m i : ℕ) (x : Bytes) (in_memory : (c.slabs m).block_id ≡ none)
          (used : i < (c.slabs m).nr_alloc) (holds_key : key ((c.slabs m).memory i) ≡ k)
          (holds_value : value ((c.slabs m).memory i) ≡ x)
          (hit : (q : Bytes)
            → same_entry hashing c.index k q ≡ true
            → (e : IndexEntry) × (get_index_entry hashing c'.index q ≡ some e)
              × (e.slab_id ≡ m)
              × (e.slot_id ≡ i)) where
        hit_fetch :
            (e : IndexEntry)
            → e.slab_id ≡ m
            → e.slot_id ≡ i
            → fetch pf cfg c' e ≡ done ((c.slabs m).memory i)
        hit_fetch e a b = same_fetch e ∙ ground (arith, fetch_memory pf cfg c e, in_memory)

        pub Links-Sound : Sound pf cfg c'
        Links-Sound = Relinks-Sound λ q e y p.
            let (f, z, a, b) = hit q y in
            let at : e ≡ f = ground (arith, z, p) in
            (
              ground (arith, at, a, b, r.nr_alloc m, used),
              (
                (c.slabs m).memory i,
                hit_fetch e (ground (arith, at, a)) (ground (arith, at, b)),
                ground (arith, holds_key, r.chain_count, y),
              ),
            )

        -- `k` reads the value, and a key that only the index takes for `k` reads nothing.
        pub get_slice_hit :
            (q : Bytes)
            → same_entry hashing c.index k q ≡ true
            → get_slice pf cfg c' q
              ≡ done (
                  if bytes_eq q k
                  then (ok_status, some x)
                  else (not_found_status "Key not found", none))
        get_slice_hit q y =
            let (f, z, a, b) = hit q y in
            get_slice_found pf cfg c' q f ((c.slabs m).memory i) z (hit_fetch f a b)
            ∙ ground (arith, holds_key, holds_value)
