-- ===== src/Init/Running.antt =====
-- The invariant after `slab_init` (src/kvcache.cpp).
use kvcache.Base.{
  ℕ, Bytes, ◌+◌, ◌-◌, ◌<◌, ◌≤◌, ◌≡◌, ◌∙◌, refl, ap, List, [], ◌∷◌, none, arith, ltb, if◌then◌else◌,
}
use kvcache.Index.{Index, get_index_entry}
use kvcache.Index.Unique.{IsUnique}
use kvcache.State.{Platform, Config, Cache, empty_ring, gc_buffer}
use kvcache.Lists.{count}
use kvcache.Api.Running.{Running}
use kvcache.Init.{blank, init_slab, free_mslabs, place_block, place_blocks, slab_init}
use kvcache.Init.Lists.{Placing, place_blocks-Placing, count-free_mslabs}

-- What the placing of blocks leaves as it was.
record Same {D : Type 0} (c c' : Cache D) : Type 0 where
  index : c'.index ≡ c.index
  free : c'.mslab_free ≡ c.mslab_free
  full : c'.mslab_full ≡ c.mslab_full
  partial : c'.slab_partial ≡ c.slab_partial

place_blocks-Same :
    {D : Type 0} (cfg : Config) (ops_size : ℕ) (bs : List ℕ) (sid : ℕ) (c : Cache D)
    → Same c (place_blocks cfg ops_size sid bs c)
unfolding place_blocks place_block
place_blocks-Same cfg ops_size [] sid c = record {
  index = refl;
  free = refl;
  full = refl;
  partial = refl;
}
place_blocks-Same cfg ops_size (b ∷ bs) sid c =
    let rest = place_blocks-Same cfg ops_size bs (sid + 1) (place_block cfg ops_size sid b c) in
    record {
      index = rest.index ∙ ground arith;
      free = rest.free ∙ ground arith;
      full = rest.full ∙ ground arith;
      partial = rest.partial ∙ ground arith;
    }

module _ (pf : Platform) (cfg : Config) where
  open pf use {Disk, hashing}

  pub slab_init-Running :
      (ops_size : ℕ) (blocks : List ℕ) (idx : Index) (disk : Disk) (low high : ℕ)
      → 0 < cfg.nr_mslab
      → ((b : ℕ) → count b blocks ≤ 1)
      → IsUnique idx
      → ((k : Bytes) → get_index_entry hashing idx k ≡ none)
      → Running pf cfg (slab_init cfg ops_size blocks (blank idx disk low high))
  unfolding slab_init
  slab_init-Running ops_size blocks idx disk low high some_mslab once unique empty =
      let new : Cache Disk = blank idx disk low high in
      let start : Cache Disk = record new {
        slabs = λ s. init_slab (new.slabs s) s;
        mslab_free = free_mslabs (cfg.nr_mslab - 1) empty_ring;
      } in
      let first : Placing cfg start cfg.nr_mslab blocks = record {
        sids = λ s. refl;
        unused = λ s. refl;
        start = omega arith;
        memory = λ s h. refl;
        later = λ s h. refl;
        taken = λ s b p. absurd (cc p);
        blocks = λ s t b p q. absurd (cc p);
        placed =
            unfold count in
            record {
              once = λ x d. omega arith;
              free_dslab = λ x d h. absurd (omega (arith, h));
              full_dslab = λ x d h. absurd (omega (arith, h));
              pool_dslab = λ x d h. absurd (omega (arith, h));
              extra_dslab = λ x d h. absurd (omega (arith, h));
              held_dslab = λ d h. absurd (omega (arith, h));
            };
      } in
      let (last, p) = place_blocks-Placing cfg ops_size blocks start cfg.nr_mslab first once in
      let same = place_blocks-Same cfg ops_size blocks cfg.nr_mslab start in
      let c = place_blocks cfg ops_size cfg.nr_mslab blocks start in
      let none_found : (k : Bytes) → get_index_entry hashing c.index k ≡ none =
        λ k. ap (λ (x : Index). get_index_entry hashing x k) same.index ∙ empty k in
      let listed : (m : ℕ)
          → count m c.mslab_free.items ≡ (if ltb m (cfg.nr_mslab - 1) then 1 else 0) =
        λ m. ap (λ x. count m x.items) same.free ∙ count-free_mslabs (cfg.nr_mslab - 1) m in
      record {
        rest = record {
          sound = record {
            sids = p.sids;
            blocks = p.blocks;
            buffer = p.memory (gc_buffer cfg) (omega (arith, some_mslab));
            unique = λ b d. ground (arith, same.index, unique b d);
            points = λ k e q. absurd (cc (q, none_found k));
          };
          imaged = λ d b image q r. omega (arith, p.unused d);
          idle = λ k e q. absurd (cc (q, none_found k));
          placed = p.placed;
          cleared = λ x d h k e q. absurd (cc (q, none_found k));
        };
        mslabs = record {
          free_mslab = λ m h.
              let below : m < cfg.nr_mslab - 1 = ground (arith, listed m, h) in
              (p.memory m (omega (arith, below)), λ z. omega (arith, z, below));
          full_mslab = λ m h. absurd (unfold count in ground (arith, same.full, h));
          partial_mslab = λ j m h. absurd (unfold count in ground (arith, same.partial, h));
        };
        apart = record {
          once = λ j m. unfold count in ground (arith, same.full, same.partial, listed m);
          classed = λ j m h. absurd (unfold count in ground (arith, same.partial, h));
        };
        roomy = record {
          free_unused = λ m h. p.unused m;
          partial_slots = λ j m h. absurd (unfold count in ground (arith, same.partial, h));
        };
      }

  -- The index is the one that was given.
  pub slab_init-index :
      (ops_size : ℕ) (blocks : List ℕ) (idx : Index) (disk : Disk) (low high : ℕ) (k : Bytes)
      → get_index_entry hashing (slab_init cfg ops_size blocks (blank idx disk low high)).index k
        ≡ get_index_entry hashing idx k
  unfolding slab_init
  slab_init-index ops_size blocks idx disk low high k =
      ap (λ (x : Index). get_index_entry hashing x k)
        (place_blocks-Same cfg ops_size blocks cfg.nr_mslab _).index
