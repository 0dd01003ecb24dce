-- ===== src/Gc/Copy/Rescue.antt =====
-- The loop of `gc_dslabs` (src/kvcache.cpp) over the slots of one disk slab: the index and
-- `gc_buffer_` after it, and the reads in between.
use kvcache.Base.{
  ℕ, zero, suc, ◌+◌, ◌<◌, ◌≤◌, ◌≡◌, ◌≢◌, refl, sym, ◌∙◌, ap, subst, inl, inr, ◌⊎◌, Bytes, none,
  some, arith, true, false, ◌&&◌, ◌==◌, update, Option-cases, Bool-cases,
}
use kvcache.Index.{Index, IndexEntry, get_index_entry, set_location, same_entry}
use kvcache.Index.Laws.{get_congr, get-set_location}
use kvcache.Index.Unique.{set_location-IsUnique}
use kvcache.Slot.{key, value, write, read-write}
use kvcache.Slab.{Slab, slot_alloc, for_slots}
use kvcache.State.{Platform, Config, Cache, gc_buffer}
use kvcache.Reads.{Sound, fetch_disk, disk_slot, get_slice_found}
use kvcache.Reads.Frame.{Keeps, Keeps-Sound, get_slice-Keeps}
use kvcache.Reads.Link.{Relinks, Links-Sound, get_slice_hit, get_slice_miss}
use kvcache.Api.{get_slice, fetch}
use kvcache.Gc.Copy.{rescue}

module _ (pf : Platform) (cfg : Config) where
  open pf use {Disk, hashing, read_block}

  -- The cache, with the index and the buffer of the loop.
  abbrev pub packed : Cache Disk → Index × Slab → Cache Disk
  packed c st = record c { index = st.0; slabs = update c.slabs (gc_buffer cfg) st.1 }

  -- From one state of the loop to a later one, which has passed the slots of slab `d` from `low` on and
  -- below `high`.
  pub record Rescued (c : Cache Disk) (d low high : ℕ) (st st' : Index × Slab) : Type 0 where
    pub sound : Sound pf cfg (packed c st')
    pub reads : (q : Bytes) → get_slice pf cfg (packed c st') q ≡ get_slice pf cfg (packed c st) q
    pub block_id : st'.1.block_id ≡ st.1.block_id
    pub entries :
        (q : Bytes) (e : IndexEntry)
        → get_index_entry hashing st'.0 q ≡ some e
        → (get_index_entry hashing st.0 q ≡ some e) ⊎ (e.slab_id ≡ gc_buffer cfg)
    pub absent :
        (q : Bytes) → get_index_entry hashing st.0 q ≡ none → get_index_entry hashing st'.0 q ≡ none
    pub left :
        (q : Bytes) (e : IndexEntry)
        → get_index_entry hashing st'.0 q ≡ some e
        → e.slab_id ≡ d
        → low ≤ e.slot_id
        → high ≤ e.slot_id

  module _ (c : Cache Disk) (d b : ℕ) (image : Slab) (off : d ≢ gc_buffer cfg)
      (on : (c.slabs d).block_id ≡ some b) (read : read_block c.disk b ≡ some image) where
    -- A key that finds slot `i` of the slab is the same to the index as the key of that slot.
    owner :
        (st : Index × Slab) (i : ℕ) (q : Bytes) (f : IndexEntry)
        → Sound pf cfg (packed c st)
        → get_index_entry hashing st.0 q ≡ some f
        → f.slab_id ≡ d
        → f.slot_id ≡ i
        → same_entry hashing st.0 (key (image.memory i)) q ≡ true
    owner st i q f v p z at =
        let (used, (slot, fetched, same)) = v.points q f p in
        let from_disk : fetch pf cfg (packed c st) f ≡ disk_slot pf cfg c.disk b f.slot_id =
          fetch_disk pf cfg (packed c st) f b (ground (arith, z, off, on)) in
        let stored : slot ≡ image.memory i = ground (arith, from_disk, fetched, read, at) in
        ground (arith, stored, same)

    module _ (st : Index × Slab) (i : ℕ) (e : IndexEntry) (v : Sound pf cfg (packed c st))
        (found : get_index_entry hashing st.0 (key (image.memory i)) ≡ some e) (at : e.slab_id ≡ d)
        (there : e.slot_id ≡ i) where
      k : Bytes
      k = key (image.memory i)

      x : Bytes
      x = value (image.memory i)

      j : ℕ
      j = st.1.nr_alloc

      pub copied : Slab
      unfolding k x j
      copied = record st.1 {
        nr_alloc = st.1.nr_alloc + 1;
        nr_used = st.1.nr_used + 1;
        memory = update st.1.memory j (write (st.1.memory j) k x);
      }

      pub moved : Index
      unfolding k j
      moved = set_location hashing st.0 k st.1.sid j

      copied-Keeps : Keeps pf cfg (packed c st) (packed c (st.0, copied))
      unfolding copied j
      copied-Keeps = record {
        chains = refl;
        chain_count = refl;
        disk = refl;
        sid = λ s. ground arith;
        block_id = λ s. ground arith;
        in_use = λ q e p used. (ground arith, ground arith);
      }

      copied-Sound : Sound pf cfg (packed c (st.0, copied))
      copied-Sound = Keeps-Sound pf cfg (packed c st) (packed c (st.0, copied)) copied-Keeps v

      buffer_block : st.1.block_id ≡ none
      buffer_block = ground (arith, v.buffer)

      buffer_sid : st.1.sid ≡ gc_buffer cfg
      buffer_sid = ground (arith, v.sids (gc_buffer cfg))

      moved-Relinks : Relinks pf cfg (packed c (st.0, copied)) (packed c (moved, copied)) k
      unfolding moved
      moved-Relinks = record {
        unique = set_location-IsUnique hashing st.0 k _ _ v.unique;
        chain_count = unfold set_location in refl;
        disk = refl;
        sid = λ s. refl;
        block_id = λ s. refl;
        memory = λ s i. refl;
        nr_alloc = λ s. refl;
        miss = λ q n. get-set_location hashing st.0 k q _ _ ∙ rw n refl;
      }

      moved_hit :
          (q : Bytes)
          → same_entry hashing st.0 k q ≡ true
          → (f : IndexEntry) × (get_index_entry hashing moved q ≡ some f)
            × (f.slab_id ≡ gc_buffer cfg)
            × (f.slot_id ≡ j)
      unfolding moved k j
      moved_hit q y = (
        record e { slab_id = gc_buffer cfg; slot_id = st.1.nr_alloc },
        ground (
          arith,
          get-set_location hashing st.0 (key (image.memory i)) q st.1.sid st.1.nr_alloc,
          get_congr hashing st.0 (key (image.memory i)) q,
          buffer_sid,
          found,
        ),
        refl,
        refl,
      )

      same_owner :
          (q : Bytes) (f : IndexEntry)
          → get_index_entry hashing st.0 q ≡ some f
          → f.slab_id ≡ d
          → f.slot_id ≡ i
          → same_entry hashing st.0 k q ≡ true
      unfolding k
      same_owner q f p z h = owner st i q f v p z h

      at_buffer : (packed c (st.0, copied)).slabs (gc_buffer cfg) ≡ copied
      at_buffer = ground arith

      holds : (key (copied.memory j) ≡ k) × (value (copied.memory j) ≡ x)
      unfolding copied
      holds =
          let t = read-write (st.1.memory j) k x in
          let stored : copied.memory j ≡ write (st.1.memory j) k x = ground arith in
          (ap key stored ∙ t.0, ap value stored ∙ t.1)

      in_memory : ((packed c (st.0, copied)).slabs (gc_buffer cfg)).block_id ≡ none
      unfolding copied
      in_memory = ground (arith, buffer_block)

      in_range : j < ((packed c (st.0, copied)).slabs (gc_buffer cfg)).nr_alloc
      unfolding copied j
      in_range = ground arith

      holds_key : key (((packed c (st.0, copied)).slabs (gc_buffer cfg)).memory j) ≡ k
      holds_key = ap (λ (s : Slab). key (s.memory j)) at_buffer ∙ holds.0

      holds_value : value (((packed c (st.0, copied)).slabs (gc_buffer cfg)).memory j) ≡ x
      holds_value = ap (λ (s : Slab). value (s.memory j)) at_buffer ∙ holds.1

      -- What the keys of the entry read before.
      before :
          (q : Bytes)
          → same_entry hashing st.0 k q ≡ true
          → (get_slice pf cfg (packed c (moved, copied)) q ≡ get_slice pf cfg (packed c st) q)
      unfolding k x
      before q y =
          get_slice_hit pf cfg (packed c (st.0, copied)) (packed c (moved, copied)) k moved-Relinks
            copied-Sound (gc_buffer cfg) j x in_memory in_range holds_key holds_value moved_hit q y
          ∙ sym (
              get_slice_found pf cfg (packed c st) q e (image.memory i)
                (sym (get_congr hashing st.0 k q y) ∙ found)
                (fetch_disk pf cfg (packed c st) e b (ground (arith, at, off, on))
                  ∙ ground (arith, read, there)))

      pub moved-Rescued : Rescued c d i (i + 1) st (moved, copied)
      moved-Rescued = record {
        sound =
            Links-Sound pf cfg (packed c (st.0, copied)) (packed c (moved, copied)) k moved-Relinks
              copied-Sound (gc_buffer cfg) j x in_memory in_range holds_key holds_value moved_hit;
        reads = λ q. elim (Bool-cases (same_entry hashing st.0 k q)) [
          | inl y ↦ before q y
          | inr n ↦
              get_slice_miss pf cfg (packed c (st.0, copied)) (packed c (moved, copied)) k
                moved-Relinks copied-Sound q n
              ∙ get_slice-Keeps pf cfg (packed c st) (packed c (st.0, copied)) copied-Keeps v q
        ];
        block_id = unfold copied in refl;
        entries = λ q f p. elim (Bool-cases (same_entry hashing st.0 k q)) [
          | inl y ↦ let (g, r, s, t) = moved_hit q y in inr (ground (arith, p, r, s))
          | inr n ↦ inl (sym (moved-Relinks.miss q n) ∙ p)
        ];
        absent = λ q p. elim (Bool-cases (same_entry hashing st.0 k q)) [
          | inl y ↦
              absurd (unfold k in cc (get_congr hashing st.0 (key (image.memory i)) q y, found, p))
          | inr n ↦ moved-Relinks.miss q n ∙ p
        ];
        left = λ q f p z low. elim (Bool-cases (same_entry hashing st.0 k q)) [
          | inl y ↦
              let (g, r, s, t) = moved_hit q y in absurd (off (sym z ∙ ground (arith, p, r, s)))
          | inr n ↦ elim (Bool-cases (f.slot_id == i)) [
            | inl h ↦
                absurd (cc (n, same_owner q f (sym (moved-Relinks.miss q n) ∙ p) z (ground arith)))
            | inr h ↦ ground (arith, low, h)
          ]
        ];
      }

    rescue-none :
        (idx : Index) (buffer : Slab) (i : ℕ)
        → get_index_entry hashing idx (key (image.memory i)) ≡ none
        → rescue pf cfg d (idx, buffer) (image.memory i) i ≡ ((idx, buffer), true)
    unfolding rescue
    rescue-none idx buffer i p = rw (p, rescue) refl

    rescue-some :
        (idx : Index) (buffer : Slab) (i : ℕ) (e : IndexEntry)
        (v : Sound pf cfg (packed c (idx, buffer)))
        (p : get_index_entry hashing idx (key (image.memory i)) ≡ some e) (at : e.slab_id ≡ d)
        (there : e.slot_id ≡ i)
        → rescue pf cfg d (idx, buffer) (image.memory i) i
          ≡ ((moved (idx, buffer) i e v p at there, copied (idx, buffer) i e v p at there), true)
    unfolding rescue moved copied slot_alloc
    rescue-some idx buffer i e v p at there = rw (p, rescue) (ground (arith, at, there))

    rescue_other :
        (idx : Index) (buffer : Slab) (i : ℕ) (e : IndexEntry)
        → get_index_entry hashing idx (key (image.memory i)) ≡ some e
        → (e.slab_id == d && e.slot_id == i) ≡ false
        → rescue pf cfg d (idx, buffer) (image.memory i) i ≡ ((idx, buffer), true)
    unfolding rescue
    rescue_other idx buffer i e p n = rw (p, rescue) (rw n refl)

    -- One slot.
    rescue-Rescued :
        (idx : Index) (buffer : Slab) (i : ℕ)
        → Sound pf cfg (packed c (idx, buffer))
        → Rescued c d i (i + 1) (idx, buffer) (rescue pf cfg d (idx, buffer) (image.memory i) i).0
          × ((rescue pf cfg d (idx, buffer) (image.memory i) i).1 ≡ true)
    rescue-Rescued idx buffer i v =
        elim (Option-cases (get_index_entry hashing idx (key (image.memory i)))) [
          | inl p ↦ rw (rescue-none idx buffer i p) (stays p, refl)
          | inr (e, p) ↦ elim (Bool-cases (e.slab_id == d && e.slot_id == i)) [
            | inl y ↦
                let at : e.slab_id ≡ d = ground arith in
                let there : e.slot_id ≡ i = ground arith in
                rw (rescue-some idx buffer i e v p at there)
                  (moved-Rescued (idx, buffer) i e v p at there, refl)
            | inr n ↦ rw (rescue_other idx buffer i e p n) (strays e p n, refl)
          ]
        ]
      where
        stay :
            ((q : Bytes) (f : IndexEntry)
              → get_index_entry hashing idx q ≡ some f
              → f.slab_id ≡ d
              → f.slot_id ≢ i)
            → Rescued c d i (i + 1) (idx, buffer) (idx, buffer)
        stay no_owner = record {
          sound = v;
          reads = λ q. refl;
          block_id = refl;
          entries = λ q f p. inl p;
          absent = λ q p. p;
          left = λ q f p z low. ground (arith, low, no_owner q f p z);
        }

        stays :
            get_index_entry hashing idx (key (image.memory i)) ≡ none
            → Rescued c d i (i + 1) (idx, buffer) (idx, buffer)
        stays p = stay λ q f r z h. cc (
          get_congr hashing idx (key (image.memory i)) q (owner (idx, buffer) i q f v r z h),
          p,
          r,
        )

        strays :
            (e : IndexEntry)
            → get_index_entry hashing idx (key (image.memory i)) ≡ some e
            → (e.slab_id == d && e.slot_id == i) ≡ false
            → Rescued c d i (i + 1) (idx, buffer) (idx, buffer)
        strays e p n = stay λ q f r z h.
            let same =
              get_congr hashing idx (key (image.memory i)) q (owner (idx, buffer) i q f v r z h) in
            let one : e ≡ f = cc (same, p, r) in ground (arith, one, n, z, h)

    Rescued-trans :
        (low mid high : ℕ) (st₀ st₁ st₂ : Index × Slab)
        → Rescued c d low mid st₀ st₁
        → Rescued c d mid high st₁ st₂
        → Rescued c d low high st₀ st₂
    Rescued-trans low mid high st₀ st₁ st₂ f g = record {
      sound = g.sound;
      reads = λ q. g.reads q ∙ f.reads q;
      block_id = g.block_id ∙ f.block_id;
      entries = λ q e p. elim (g.entries q e p) [ inl r ↦ f.entries q e r | inr z ↦ inr z ];
      absent = λ q p. g.absent q (f.absent q p);
      left = λ q e p z h. elim (g.entries q e p) [
        | inl r ↦ g.left q e p z (f.left q e r z h)
        | inr t ↦ absurd (off (sym z ∙ t))
      ];
    }

    pub for_slots-Rescued :
        (n i : ℕ) (idx : Index) (buffer : Slab)
        → Sound pf cfg (packed c (idx, buffer))
        → Rescued c d i
            (i + n)
            (idx, buffer)
            (for_slots n image.memory (rescue pf cfg d) i (idx, buffer))
    unfolding for_slots
    for_slots-Rescued zero i idx buffer v = record {
      sound = v;
      reads = λ q. refl;
      block_id = refl;
      entries = λ q f p. inl p;
      absent = λ q p. p;
      left = λ q f p z low. omega (arith, low);
    }
    for_slots-Rescued (suc n) i idx buffer v =
        let (first, on) = rescue-Rescued idx buffer i v in
        let st = (rescue pf cfg d (idx, buffer) (image.memory i) i).0 in
        let rest = for_slots-Rescued n (i + 1) st.0 st.1 first.sound in
        let after = for_slots n image.memory (rescue pf cfg d) (i + 1) st in
        let e : i + 1 + n ≡ i + suc n = omega arith in
        rw (on, for_slots)
          (subst (λ x. Rescued c d i x (idx, buffer) after) e
            (Rescued-trans i (i + 1) (i + 1 + n) (idx, buffer) st after first rest))
