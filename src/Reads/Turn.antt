-- ===== src/Reads/Turn.antt =====
-- What a turn of a background thread of src/kvcache.cpp leaves as it was: reads (all of them, or all
-- that still find something), images on the disk, and the slabs in memory.
use kvcache.Base.{
  ℕ, ◌≤◌, ap, update, ◌≡◌, ◌≢◌, sym, ◌∙◌, inl, inr, ◌⊎◌, Bytes, Bool, true, false, Option,
  Option-cases, none, some, arith,
}
use kvcache.Status.{Status, not_found_status}
use kvcache.Slab.{Slab}
use kvcache.Index.{Index, IndexEntry, get_index_entry}
use kvcache.State.{Platform, Config, Cache, Outcome, done, gc_buffer}
use kvcache.Reads.{Sound, Unreferenced}
use kvcache.Reads.Frame.{Keeps, same_found, Keeps-Sound, get_slice-Keeps}
use kvcache.Api.{get_slice}
use kvcache.Gc.Quick.Evict.{Imaged, Thins-Imaged}
use kvcache.Gc.Quick.Thins.{Thins, Thins-Forgets}

-- The answer to a read, before and after. A lossy turn may answer that the key is not found.
abbrev pub Answers :
    Bool → Outcome (Status × Option Bytes) → Outcome (Status × Option Bytes) → Type 0
Answers false after before = after ≡ before
Answers true after before =
    (after ≡ before) ⊎ (after ≡ done (not_found_status "Key not found", none))

pub Answers-trans :
    (lossy : Bool) (a b c : Outcome (Status × Option Bytes))
    → Answers lossy b a
    → Answers lossy c b
    → Answers lossy c a
Answers-trans false a b c p q = q ∙ p
Answers-trans true a b c p (inr n) = inr n
Answers-trans true a b c (inl p) (inl q) = inl (q ∙ p)
Answers-trans true a b c (inr n) (inl q) = inr (q ∙ n)

pub Answers-lossy :
    (lossy : Bool) (a b : Outcome (Status × Option Bytes)) → Answers lossy b a → Answers true b a
Answers-lossy false a b p = inl p
Answers-lossy true a b p = p

pub Answers-same :
    (lossy : Bool) (a b : Outcome (Status × Option Bytes)) → b ≡ a → Answers lossy b a
Answers-same false a b p = p
Answers-same true a b p = inl p

module _ (pf : Platform) (cfg : Config) where
  open pf use {Disk, hashing}

  -- The slab `m` is as it was, and no entry has come to it.
  pub record Spares (c c' : Cache Disk) (m : ℕ) : Type 0 where
    pub slab : c'.slabs m ≡ c.slabs m
    pub entries :
        (q : Bytes) (e : IndexEntry)
        → get_index_entry hashing c'.index q ≡ some e
        → e.slab_id ≡ m
        → get_index_entry hashing c.index q ≡ some e

  pub Spares-trans : (a b c : Cache Disk) (m : ℕ) → Spares a b m → Spares b c m → Spares a c m
  Spares-trans a b c m f g = record {
    slab = g.slab ∙ f.slab;
    entries = λ q e p at. f.entries q e (g.entries q e p at) at;
  }

  -- The lists of memory slabs.
  pub record SameMemory (c c' : Cache Disk) : Type 0 where
    pub free : c'.mslab_free ≡ c.mslab_free
    pub full : c'.mslab_full ≡ c.mslab_full
    pub partial : c'.slab_partial ≡ c.slab_partial

  pub record Turn (lossy : Bool) (c c' : Cache Disk) : Type 0 where
    pub sound : Sound pf cfg c'
    pub reads : (q : Bytes) → Answers lossy (get_slice pf cfg c' q) (get_slice pf cfg c q)
    pub imaged : Imaged pf cfg c → Imaged pf cfg c'
    pub block_id : (s : ℕ) → (c'.slabs s).block_id ≡ (c.slabs s).block_id
    pub spared : (m : ℕ) → (c.slabs m).block_id ≡ none → m ≢ gc_buffer cfg → Spares c c' m
    pub absent :
        (q : Bytes)
        → get_index_entry hashing c.index q ≡ none
        → get_index_entry hashing c'.index q ≡ none
    pub memory : SameMemory c c'

  pub SameMemory-trans : (a b c : Cache Disk) → SameMemory a b → SameMemory b c → SameMemory a c
  SameMemory-trans a b c f g = record {
    free = g.free ∙ f.free;
    full = g.full ∙ f.full;
    partial = g.partial ∙ f.partial;
  }

  pub Turn-trans :
      (lossy : Bool) (a b c : Cache Disk) → Turn lossy a b → Turn lossy b c → Turn lossy a c
  Turn-trans lossy a b c f g = record {
    sound = g.sound;
    reads = λ q. Answers-trans lossy _ _ _ (f.reads q) (g.reads q);
    imaged = λ i. g.imaged (f.imaged i);
    block_id = λ s. g.block_id s ∙ f.block_id s;
    spared = λ m p n. Spares-trans a b c m (f.spared m p n) (g.spared m (f.block_id m ∙ p) n);
    absent = λ q p. g.absent q (f.absent q p);
    memory = SameMemory-trans a b c f.memory g.memory;
  }

  pub Turn-lossy : (lossy : Bool) (c c' : Cache Disk) → Turn lossy c c' → Turn true c c'
  Turn-lossy lossy c c' t = record {
    sound = t.sound;
    reads = λ q. Answers-lossy lossy _ _ (t.reads q);
    imaged = t.imaged;
    block_id = t.block_id;
    spared = t.spared;
    absent = t.absent;
    memory = t.memory;
  }

  -- A change that no entry is affected by, away from the slabs in memory.
  pub Keeps-Turn :
      (c c' : Cache Disk)
      → Sound pf cfg c
      → Keeps pf cfg c c'
      → ((s : ℕ) → (c'.slabs s).block_id ≢ none → (c'.slabs s).nr_alloc ≤ (c.slabs s).nr_alloc)
      → ((m : ℕ) → (c.slabs m).block_id ≡ none → m ≢ gc_buffer cfg → c'.slabs m ≡ c.slabs m)
      → SameMemory c c'
      → Turn false c c'
  Keeps-Turn c c' v k fewer same memory = record {
    sound = Keeps-Sound pf cfg c c' k v;
    reads = λ q. get_slice-Keeps pf cfg c c' k v q;
    imaged = λ i d b image p q.
        let old : (c.slabs d).nr_alloc ≤ image.nr_alloc =
          i d b image (sym (k.block_id d) ∙ p) (ground (arith, k.disk, q)) in
        omega (arith, old, fewer d (λ z. cc));
    block_id = k.block_id;
    spared = λ m p n. record {
      slab = same m p n;
      entries = λ q e z at. sym (same_found pf cfg c c' k q) ∙ z;
    };
    absent = λ q p. same_found pf cfg c c' k q ∙ p;
    memory = memory;
  }

  -- Only lists and counters changed.
  pub same-Turn :
      (c c' : Cache Disk)
      → Sound pf cfg c
      → c'.index ≡ c.index
      → c'.slabs ≡ c.slabs
      → c'.disk ≡ c.disk
      → SameMemory c c'
      → Turn false c c'
  same-Turn c c' v idx slabs disk memory =
      Keeps-Turn c c' v
        (record {
          chains = ap (λ (x : Index). x.table) idx;
          chain_count = ap (λ (x : Index). x.table_size) idx;
          disk = disk;
          sid = λ s. ap (λ (f : ℕ → Slab). (f s).sid) slabs;
          block_id = λ s. ap (λ (f : ℕ → Slab). (f s).block_id) slabs;
          in_use = λ k e p used. (
            ap (λ (f : ℕ → Slab). (f e.slab_id).memory e.slot_id) slabs,
            ground (arith, slabs, used),
          );
        })
        (λ s p. ground (arith, slabs)) (λ m p n. ap (λ (f : ℕ → Slab). f m) slabs) memory

  -- Besides, the slab `d`, a disk slab or `gc_buffer_`, got a new header, and where that has other
  -- slots no entry points to the slab.
  pub touch-Turn :
      (c c' : Cache Disk) (d : ℕ) (s : Slab)
      → Sound pf cfg c
      → c'.index ≡ c.index
      → c'.slabs ≡ update c.slabs d s
      → c'.disk ≡ c.disk
      → s.sid ≡ (c.slabs d).sid
      → s.block_id ≡ (c.slabs d).block_id
      → s.nr_alloc ≤ (c.slabs d).nr_alloc
      → ((i : ℕ) → s.memory i ≡ (c.slabs d).memory i)
      → ((c.slabs d).block_id ≢ none) ⊎ (d ≡ gc_buffer cfg)
      → Unreferenced pf cfg c d ⊎ (s.nr_alloc ≡ (c.slabs d).nr_alloc)
      → SameMemory c c'
      → Turn false c c'
  touch-Turn c c' d s v idx slabs disk sid block fewer cells place unused memory =
      let at : (t : ℕ) → c'.slabs t ≡ update c.slabs d s t =
        λ t. ap (λ (f : ℕ → Slab). f t) slabs in
      Keeps-Turn c c' v
        (record {
          chains = ap (λ (x : Index). x.table) idx;
          chain_count = ap (λ (x : Index). x.table_size) idx;
          disk = disk;
          sid = λ t. ground (arith, at t, sid);
          block_id = λ t. ground (arith, at t, block);
          in_use = λ k e p used. (
            ground (arith, at e.slab_id, cells e.slot_id),
            elim unused [
              | inl u ↦ ground (arith, at e.slab_id, u k e p, used)
              | inr z ↦ ground (arith, at e.slab_id, z, used)
            ],
          );
        })
        (λ t p. ground (arith, at t, fewer))
        (λ m p n. elim place [
          | inl b ↦ ground (arith, at m, b, p)
          | inr g ↦ ground (arith, at m, g, n)
        ])
        memory

  -- Entries went, and the slabs stayed.
  pub Thins-Turn :
      (c c' : Cache Disk)
      → Sound pf cfg c
      → Thins pf cfg c c'
      → c'.slabs ≡ c.slabs
      → SameMemory c c'
      → Turn true c c'
  Thins-Turn c c' v t slabs memory =
      let f = Thins-Forgets pf cfg c c' t v in
      record {
        sound = f.sound;
        reads = f.reads;
        imaged = Thins-Imaged pf cfg c c' t;
        block_id = t.block_id;
        spared = λ m p n. record {
          slab = ap (λ (f : ℕ → Slab). f m) slabs;
          entries = λ q e z at. t.fewer q e z;
        };
        absent = λ q p. elim (Option-cases (get_index_entry hashing c'.index q)) [
          | inl z ↦ z
          | inr (e, z) ↦ absurd (cc (t.fewer q e z, p))
        ];
        memory = memory;
      }

  pub Turn-Unreferenced :
      (lossy : Bool) (c c' : Cache Disk) (m : ℕ)
      → Turn lossy c c'
      → (c.slabs m).block_id ≡ none
      → m ≢ gc_buffer cfg
      → Unreferenced pf cfg c m
      → Unreferenced pf cfg c' m
  Turn-Unreferenced lossy c c' m t p n u q e z at = u q e ((t.spared m p n).entries q e z at) at
