-- ===== src/Lists.antt =====
-- Which slabs stand on which lists: memory slabs on the lists of memory slabs, never `gc_buffer_`;
-- disk slabs on the lists of their own channel, each on one list at most; and what is listed as free
-- or over-provisioned has no slot in use.
pub mod Channels
pub mod Count
use kvcache.Base.{
  ℕ, ◌*◌, ◌+◌, ◌-◌, ◌<◌, ◌≤◌, ◌≡◌, ◌≢◌, List, [], ◌∷◌, none, some, arith, ◌==◌, if◌then◌else◌,
}
use kvcache.Slab.{Slab, slab_header_size}
use kvcache.State.{Config, Cache, Ring, empty_ring, gc_buffer}
unfoldable pub use Count.{count}
pub use Count.{count-list_del, first_entry-count}
use Channels.{Spread}

module _ (cfg : Config) {D : Type 0} where
  abbrev pub IsMslab : Cache D → ℕ → Type 0
  IsMslab c m = ((c.slabs m).block_id ≡ none) × (m ≢ gc_buffer cfg)

  pub record Mslabs (c : Cache D) : Type 0 where
    pub free_mslab : (m : ℕ) → 0 < count m c.mslab_free.items → IsMslab c m
    pub full_mslab : (m : ℕ) → 0 < count m c.mslab_full.items → IsMslab c m
    pub partial_mslab : (cid m : ℕ) → 0 < count m (c.slab_partial cid) → IsMslab c m

  -- The disk slabs of `c`, with those on the lists `extra` and those in hand.
  abbrev pub Placed : Cache D → (ℕ → Ring) → List ℕ → Type 0
  Placed c extra held =
      Spread cfg c.slabs (λ x. (c.dslab_free x).items) (λ x. (c.dslab_full x).items)
        (λ x. (c.ops_pool x).items) (λ x. (extra x).items) held

  abbrev pub Dslabs : Cache D → Type 0
  Dslabs c = Placed c (λ _. empty_ring) []

-- A free memory slab has handed out nothing; a partial one has slots left, and all of its slots, the
-- header before them included, lie in the slab.
pub record HasSlots (cfg : Config) (s : Slab) : Type 0 where
  pub left : s.nr_alloc < s.nr_slots
  pub some_size : 0 < s.slot_size
  pub inside : slab_header_size + s.slot_size * s.nr_slots ≤ cfg.slab_size

pub HasSlots-same :
    (cfg : Config) (s t : Slab)
    → t.nr_alloc ≡ s.nr_alloc
    → t.nr_slots ≡ s.nr_slots
    → t.slot_size ≡ s.slot_size
    → HasSlots cfg s
    → HasSlots cfg t
HasSlots-same cfg s t p q r h = record {
  left = omega (arith, p, q, h.left);
  some_size = omega (arith, r, h.some_size);
  inside = rw (q, r) h.inside;
}

module _ (cfg : Config) {D : Type 0} where
  abbrev pub FreeUnused : Cache D → Type 0
  FreeUnused c =
      (m : ℕ) → 0 < count m c.mslab_free.items → IsMslab cfg c m × ((c.slabs m).nr_alloc ≡ 0)

  pub record Roomy (c : Cache D) : Type 0 where
    pub free_unused : (m : ℕ) → 0 < count m c.mslab_free.items → (c.slabs m).nr_alloc ≡ 0
    pub partial_slots : (cid m : ℕ) → 0 < count m (c.slab_partial cid) → HasSlots cfg (c.slabs m)

-- A memory slab stands on one list at most; where that is a list of partial slabs, it is the one of
-- its class.
pub record Apart {D : Type 0} (c : Cache D) : Type 0 where
  pub once :
      (cid m : ℕ)
      → count m c.mslab_free.items + count m c.mslab_full.items + count m (c.slab_partial cid) ≤ 1
  pub classed : (cid m : ℕ) → 0 < count m (c.slab_partial cid) → (c.slabs m).cid ≡ some cid
