-- ===== src/Api/Relink.antt =====
-- The invariant of a running cache (src/kvcache.cpp) where the entries of one key change.
use kvcache.Base.{ℕ, Bytes, ◌≡◌, ◌∙◌, sym, arith, []}
use kvcache.Slab.{Slab}
use kvcache.State.{Platform, Config, Cache, gc_buffer}
use kvcache.Lists.{count, HasSlots-same}
use kvcache.Lists.Channels.{Spread-slabs}
use kvcache.Reads.{Sound, Unreferenced}
use kvcache.Reads.Link.{Relinks}
use kvcache.Reads.Turn.{SameMemory}
use kvcache.Gc.Copy.Slabs.{SameDisk}
use kvcache.Api.Running.{Running}

-- What a slab is for.
pub record SameClass (s t : Slab) : Type 0 where
  pub cid : s.cid ≡ t.cid
  pub slot_size : s.slot_size ≡ t.slot_size
  pub nr_slots : s.nr_slots ≡ t.nr_slots

module _ (pf : Platform) (cfg : Config) where
  open pf use {Disk, hashing}

  -- The entries of one key changed, and counters of slabs.
  pub Relinks-Running :
      (c c' : Cache Disk) (k : Bytes)
      → Running pf cfg c
      → Relinks pf cfg c c' k
      → Sound pf cfg c'
      → Unreferenced pf cfg c' (gc_buffer cfg)
      → SameDisk pf cfg c c'
      → SameMemory pf cfg c c'
      → ((s : ℕ) → SameClass (c'.slabs s) (c.slabs s))
      → Running pf cfg c'
  Relinks-Running c c' k r l v idle disk memory same = record {
    rest = record {
      sound = v;
      imaged = λ d b image p q.
          ground (arith, r.rest.imaged d b image (sym (l.block_id d) ∙ p), l.disk, q, l.nr_alloc d);
      idle = idle;
      placed =
          rw (disk.free, disk.full, disk.pool)
            (Spread-slabs cfg c.slabs _ _ _ _ [] c'.slabs r.rest.placed l.block_id
              (λ x d h z. l.nr_alloc d ∙ z));
      cleared = λ x d h. absurd (unfold count in ground (arith, h));
    };
    mslabs = record {
      free_mslab = λ m h.
          let (p, n) = r.mslabs.free_mslab m (ground (arith, memory.free, h)) in
          (l.block_id m ∙ p, n);
      full_mslab = λ m h.
          let (p, n) = r.mslabs.full_mslab m (ground (arith, memory.full, h)) in
          (l.block_id m ∙ p, n);
      partial_mslab = λ j m h.
          let (p, n) = r.mslabs.partial_mslab j m (ground (arith, memory.partial, h)) in
          (l.block_id m ∙ p, n);
    };
    apart = record {
      once = λ j m. ground (arith, r.apart.once j m, memory.free, memory.full, memory.partial);
      classed = λ j m h. (same m).cid ∙ r.apart.classed j m (ground (arith, memory.partial, h));
    };
    roomy = record {
      free_unused = λ m h. l.nr_alloc m ∙ r.roomy.free_unused m (ground (arith, memory.free, h));
      partial_slots = λ j m h.
          HasSlots-same cfg (c.slabs m) _ (l.nr_alloc m) (same m).nr_slots (same m).slot_size
            (r.roomy.partial_slots j m (ground (arith, memory.partial, h)));
    };
  }
