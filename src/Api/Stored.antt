-- ===== src/Api/Stored.antt =====
-- `Put` (src/kvcache.cpp) where memory and an index entry are at hand: it returns.
use kvcache.Base.{ℕ, suc, ◌≡◌, Bytes, some}
use kvcache.Status.{ok_status}
use kvcache.SizeClass.{slot_size, get_slab_class}
use kvcache.State.{Platform, Config, Cache, SlabClass, done}
use kvcache.Api.{get_slice, put}
use kvcache.Api.Running.{Running}
use kvcache.Api.Alloc.{HasRoom}
use kvcache.Api.Store.{HasEntry, read_after_put, put_run_reads}
use kvcache.Api.Puts.{put-Puts}

module _ (pf : Platform) (cfg : Config) where
  open pf use {Disk}

  -- On a running cache where an object fits a slab class, there is a partial slab of the class, or a
  -- free slab that a slot of the class fits behind the header, and the key has an index entry or a free
  -- one is left: `Put` returns OK on any fuel from 2 on, without an overrun of a slab; the invariant of
  -- a running cache holds afterwards, with which each partial slab has a slot left and its slots inside it;
  -- and then the key reads the new value, the other keys of its index entry read nothing, and every key
  -- of another entry reads what it read before.
  pub put-reads :
      (gc_fuel flush_fuel fuel : ℕ) (c : Cache Disk) (k x : Bytes) (sc : SlabClass)
      → Running pf cfg c
      → get_slab_class cfg.slab_class_table (slot_size k x) ≡ some sc
      → HasRoom pf cfg c sc
      → HasEntry pf cfg c k
      → (after : Cache Disk) × (put pf cfg gc_fuel flush_fuel (suc (suc fuel)) c k x
          ≡ done (ok_status, after))
        × Running pf cfg after
        × ((q : Bytes) → get_slice pf cfg after q ≡ read_after_put pf cfg c k x q)
  put-reads gc_fuel flush_fuel fuel c k x sc r fits room cell =
      let (after, ran, reads) =
        put_run_reads pf cfg gc_fuel flush_fuel fuel c k x sc r.rest.sound r.mslabs r.roomy fits
          room cell in
      let p = put-Puts pf cfg gc_fuel flush_fuel (suc (suc fuel)) c after k x ok_status r ran in
      (after, ran, p.running, reads)
