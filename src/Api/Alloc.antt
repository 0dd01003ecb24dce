-- ===== src/Api/Alloc.antt =====
-- `slot_alloc` (src/kvcache.cpp) where a slab of the class, or a free slab, is at hand.
use kvcache.Base.{ℕ, suc, ◌≡◌, refl, sym, ◌∙◌, subst, inl, inr, ◌⊎◌, none, some, arith, true}
use kvcache.Status.{ok_status}
use kvcache.Index.{get_index_entry}
use kvcache.Slab.{Slab, is_full, slab_header_size}
use kvcache.Slab
use kvcache.SizeClass.{get_slab_class}
use kvcache.State.{Platform, Config, Cache, SlabClass, done, first_entry, detach, within}
use kvcache.Lists.{count, count-list_del, first_entry-count, Mslabs, Roomy}
use kvcache.Reads.{Sound}
use kvcache.Reads.Frame.{Keeps, Keeps-Sound}
use kvcache.Api.{adopt, take_slot, slot_alloc}
use kvcache.Api.Room.{Holds, take_slot-within, adopt-HasSlots}
use kvcache.Api.Record.{Handed}

module _ (pf : Platform) (cfg : Config) where
  open pf use {Disk, hashing}

  -- From `c` to `c'` the slot `i` of slab `m` was handed out, and nothing else happened to reads.
  pub record Grants (c c' : Cache Disk) (m i : ℕ) : Type 0 where
    pub kept : Keeps pf cfg c c'
    pub same_index : c'.index ≡ c.index
    pub handed : Handed pf cfg c' m i
    pub mslabs : Mslabs cfg c'

  module _ (c : Cache Disk) (cid m : ℕ) (v : Sound pf cfg c) (l : Mslabs cfg c) where
    pub take_slot-Grants :
        first_entry (c.slab_partial cid) ≡ some m
        → Grants c (take_slot pf cfg c cid m).1 m (take_slot pf cfg c cid m).0
    unfolding take_slot Slab.slot_alloc
    take_slot-Grants p =
        let first = first_entry-count m (c.slab_partial cid) p in
        let (memory, off) = l.partial_mslab cid m first in
        record {
          kept = record {
            chains = refl;
            chain_count = refl;
            disk = refl;
            sid = λ s. ground arith;
            block_id = λ s. ground arith;
            in_use = λ k e q used. (ground arith, ground arith);
          };
          same_index = refl;
          handed = record {
            in_memory = ground arith;
            in_range = ground arith;
            fresh = λ q e p' at same. ground (arith, (v.points q e p').0);
            not_buffer = off;
          };
          mslabs = record {
            free_mslab = λ x h. ground (arith, l.free_mslab x);
            full_mslab = λ x h. ground (arith, l.full_mslab x);
            partial_mslab = λ j x h.
                ground (arith, l.partial_mslab j x, count-list_del m x (c.slab_partial cid));
          };
        }

    -- A free slab joins a class. The slab is in memory before and after.
    pub adopt-Keeps : (sc : SlabClass) → Keeps pf cfg c (adopt pf cfg c sc m)
    unfolding adopt
    adopt-Keeps sc = record {
      chains = refl;
      chain_count = refl;
      disk = refl;
      sid = λ s. ground arith;
      block_id = λ s. ground arith;
      in_use = λ k e q used. (ground arith, ground arith);
    }

    pub adopt-Mslabs :
        (sc : SlabClass)
        → first_entry c.mslab_free.items ≡ some m
        → Mslabs cfg (adopt pf cfg c sc m)
    unfolding adopt detach count
    adopt-Mslabs sc p =
        let first = first_entry-count m c.mslab_free.items p in
        record {
          free_mslab = λ x h. ground (arith, l.free_mslab x, count-list_del m x c.mslab_free.items);
          full_mslab = λ x h. ground (arith, l.full_mslab x);
          partial_mslab = λ j x h. ground (arith, l.partial_mslab j x, l.free_mslab m first);
        }

  -- Memory is at hand for class `sc`: a partial slab, or a free one and an object of the class fits it.
  abbrev pub HasRoom : Cache Disk → SlabClass → Type 0
  HasRoom c sc =
      ((m : ℕ) × (first_entry (c.slab_partial sc.cid) ≡ some m))
      ⊎ ((m : ℕ) × (first_entry (c.slab_partial sc.cid) ≡ none)
          × (first_entry c.mslab_free.items ≡ some m)
          × Holds cfg sc)

  -- A slot that was granted by a call of `slot_alloc`.
  pub record Allocates (gc_fuel flush_fuel fuel : ℕ) (c : Cache Disk) (size : ℕ) : Type 0 where
    pub slab : ℕ
    pub slot : ℕ
    pub after : Cache Disk
    pub ran :
        slot_alloc pf cfg gc_fuel flush_fuel fuel c size
        ≡ done ((ok_status, some (slab, slot)), after)
    pub grants : Grants c after slab slot

  module _ (gc_fuel flush_fuel fuel size : ℕ) (sc : SlabClass) where
    slot_alloc_partial :
        (c : Cache Disk) (m : ℕ)
        → get_slab_class cfg.slab_class_table size ≡ some sc
        → first_entry (c.slab_partial sc.cid) ≡ some m
        → within cfg ((take_slot pf cfg c sc.cid m).1.slabs m) ≡ true
        → slot_alloc pf cfg gc_fuel flush_fuel (suc fuel) c size
          ≡ done (
            (ok_status, some (m, (take_slot pf cfg c sc.cid m).0)),
            (take_slot pf cfg c sc.cid m).1,
          )
    unfolding slot_alloc
    slot_alloc_partial c m p q w = rw (p, slot_alloc) (rw (q, slot_alloc) (rw (w, slot_alloc) refl))

    slot_alloc_free :
        (c : Cache Disk) (m : ℕ)
        → get_slab_class cfg.slab_class_table size ≡ some sc
        → first_entry (c.slab_partial sc.cid) ≡ none
        → first_entry c.mslab_free.items ≡ some m
        → slot_alloc pf cfg gc_fuel flush_fuel (suc fuel) c size
          ≡ slot_alloc pf cfg gc_fuel flush_fuel fuel (adopt pf cfg c sc m) size
    unfolding slot_alloc
    slot_alloc_free c m p q r = rw (p, slot_alloc) (rw (q, slot_alloc) (rw (r, slot_alloc) refl))

  pub adopted_first :
      (c : Cache Disk) (sc : SlabClass) (m : ℕ)
      → first_entry ((adopt pf cfg c sc m).slab_partial sc.cid) ≡ some m
  unfolding adopt first_entry
  adopted_first c sc m = ground arith

  adopted_index : (c : Cache Disk) (sc : SlabClass) (m : ℕ) → (adopt pf cfg c sc m).index ≡ c.index
  unfolding adopt
  adopted_index c sc m = refl

  Keeps-trans :
      (a b c : Cache Disk)
      → a.index ≡ b.index
      → Keeps pf cfg a b
      → Keeps pf cfg b c
      → Keeps pf cfg a c
  Keeps-trans a b c e x y = record {
    chains = y.chains ∙ x.chains;
    chain_count = y.chain_count ∙ x.chain_count;
    disk = y.disk ∙ x.disk;
    sid = λ s. y.sid s ∙ x.sid s;
    block_id = λ s. y.block_id s ∙ x.block_id s;
    in_use = λ k f p used.
        let (same, still) = x.in_use k f p used in
        let (same', still') =
          y.in_use k f (subst (λ i. get_index_entry hashing i k ≡ some f) e p) still in
        (same' ∙ same, still');
  }

  -- Two rounds are enough: at most one slab is adopted first.
  pub slot_alloc-Allocates :
      (gc_fuel flush_fuel fuel : ℕ) (c : Cache Disk) (size : ℕ) (sc : SlabClass)
      → Sound pf cfg c
      → Mslabs cfg c
      → Roomy cfg c
      → get_slab_class cfg.slab_class_table size ≡ some sc
      → HasRoom c sc
      → Allocates gc_fuel flush_fuel (suc (suc fuel)) c size
  slot_alloc-Allocates gc_fuel flush_fuel fuel c size sc v l room p (inl (m, q)) = record {
    slab = m;
    slot = (take_slot pf cfg c sc.cid m).0;
    after = (take_slot pf cfg c sc.cid m).1;
    ran = slot_alloc_partial gc_fuel flush_fuel (suc fuel) size sc c m p q (
        take_slot-within pf cfg c sc.cid m
          (room.partial_slots sc.cid m (first_entry-count m (c.slab_partial sc.cid) q)));
    grants = take_slot-Grants c sc.cid m v l q;
  }
  slot_alloc-Allocates gc_fuel flush_fuel fuel c size sc v l room p (inr (m, q, r, holds)) =
      let a = adopt pf cfg c sc m in
      let kept = adopt-Keeps c sc.cid m v l sc in
      let w = Keeps-Sound pf cfg c a kept v in
      let g =
        take_slot-Grants a sc.cid m w (adopt-Mslabs c sc.cid m v l sc r) (adopted_first c sc m) in
      record {
        slab = m;
        slot = (take_slot pf cfg a sc.cid m).0;
        after = (take_slot pf cfg a sc.cid m).1;
        ran =
            slot_alloc_free gc_fuel flush_fuel (suc fuel) size sc c m p q r
            ∙ slot_alloc_partial gc_fuel flush_fuel fuel size sc a m p (adopted_first c sc m) (
                take_slot-within pf cfg a sc.cid m (
                  adopt-HasSlots pf cfg c sc m holds
                    (room.free_unused m (first_entry-count m c.mslab_free.items r))));
        grants = record {
          kept = Keeps-trans c a _ (sym (adopted_index c sc m)) kept g.kept;
          same_index = g.same_index ∙ adopted_index c sc m;
          handed = g.handed;
          mslabs = g.mslabs;
        };
      }
