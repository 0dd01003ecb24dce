-- ===== src/Api/Store.antt =====
-- `Put` where memory and an index entry are at hand.
use kvcache.Base.{
  ℕ, suc, ◌≡◌, ◌≢◌, refl, sym, ◌∙◌, ap, subst, inl, inr, ◌⊎◌, Bytes, bytes_eq, Option, none, some,
  arith, Bool-cases, if◌then◌else◌,
}
use kvcache.Status.{Status, ok_status, not_found_status}
use kvcache.Index.{Index, IndexEntry, get_index_entry, same_entry, index_entry_alloc}
use kvcache.Index.Count.{index_entry_alloc-Takes}
use kvcache.SizeClass.{slot_size, get_slab_class}
use kvcache.State.{Platform, Config, Cache, SlabClass, Outcome, done, push, gc_buffer}
use kvcache.Lists.{count, Mslabs, Roomy}
use kvcache.Reads.{Sound}
use kvcache.Reads.Frame.{Keeps, Keeps-Sound, get_slice-Keeps}
use kvcache.Api.{get_slice, record_slot, await_index_entry, hand_over, put}
use kvcache.Api.Record.{
  Filled, Stores, stored, stored-Keeps, stored-Sound, stored-Filled, repointed, entered,
  repointed-Stores, entered-Stores,
}
use kvcache.Api.Alloc.{HasRoom, Allocates, slot_alloc-Allocates}

module _ (pf : Platform) (cfg : Config) where
  open pf use {Disk, hashing}

  -- The key has an index entry, or a free one is left.
  abbrev pub HasEntry : Cache Disk → Bytes → Type 0
  HasEntry c k =
      ((e : IndexEntry) × (get_index_entry hashing c.index k ≡ some e))
      ⊎ ((get_index_entry hashing c.index k ≡ none)
          × (e : IndexEntry) × (idx : Index) × (index_entry_alloc c.index ≡ some (e, idx)))

  pub record Recorded (gc_fuel flush_fuel fuel : ℕ) (c : Cache Disk) (k x : Bytes) (m i : ℕ)
      : Type 0 where
    pub after : Cache Disk
    pub ran : record_slot pf cfg gc_fuel flush_fuel fuel c k m i ≡ done after
    pub stores : Stores pf cfg c after k x
    pub listed : Mslabs cfg c → Mslabs cfg after
    pub block : (s : ℕ) → (after.slabs s).block_id ≡ (c.slabs s).block_id

  record_slot-Recorded :
      (gc_fuel flush_fuel fuel : ℕ) (c : Cache Disk) (k x : Bytes) (m i : ℕ)
      → Sound pf cfg c
      → Filled pf cfg c m i k x
      → HasEntry c k
      → Recorded gc_fuel flush_fuel (suc fuel) c k x m i
  record_slot-Recorded gc_fuel flush_fuel fuel c k x m i v f (inl (e, p)) = record {
    after = repointed pf cfg c e k m i;
    ran = unfold record_slot in rw (p, record_slot) refl;
    stores = repointed-Stores pf cfg c m i k x v f e p;
    listed = λ l. record {
      free_mslab = λ y h. ground (arith, l.free_mslab y);
      full_mslab = λ y h. ground (arith, l.full_mslab y);
      partial_mslab = λ j y h. ground (arith, l.partial_mslab j y);
    };
    block = λ s. ground arith;
  }
  record_slot-Recorded gc_fuel flush_fuel fuel c k x m i v f (inr (p, e, idx, q)) =
      let (es, t, z) = index_entry_alloc-Takes c.index e idx q in
      record {
        after = entered pf cfg c idx k m i;
        ran =
            unfold record_slot await_index_entry in
            rw (p, record_slot) (rw (q, await_index_entry) refl);
        stores =
            entered-Stores pf cfg c m i k x v f idx (ap (λ (y : Index). y.table) z)
              (ap (λ (y : Index). y.table_size) z) p;
        listed = λ l. record {
          free_mslab = l.free_mslab;
          full_mslab = l.full_mslab;
          partial_mslab = l.partial_mslab;
        };
        block = λ s. refl;
      }

  pub hand_over-Keeps : (c : Cache Disk) (m : ℕ) → Keeps pf cfg c (hand_over pf cfg c m)
  unfolding hand_over
  hand_over-Keeps c m = record {
    chains = ground arith;
    chain_count = ground arith;
    disk = ground arith;
    sid = λ s. ground arith;
    block_id = λ s. ground arith;
    in_use = λ k e p used. (ground arith, ground arith);
  }

  pub hand_over-Mslabs :
      (c : Cache Disk) (m : ℕ)
      → Sound pf cfg c
      → Mslabs cfg c
      → (c.slabs m).block_id ≡ none
      → m ≢ gc_buffer cfg
      → Mslabs cfg (hand_over pf cfg c m)
  unfolding hand_over push count
  hand_over-Mslabs c m v l p n = record {
    free_mslab = λ x h. ground (arith, l.free_mslab x);
    full_mslab = λ x h. ground (arith, l.full_mslab x);
    partial_mslab = λ j x h. ground (arith, l.partial_mslab j x);
  }

  pub stored-Mslabs :
      (c : Cache Disk) (m i : ℕ) (k x : Bytes) → Mslabs cfg c → Mslabs cfg (stored pf cfg c m i k x)
  stored-Mslabs c m i k x l = record {
    free_mslab = λ y h. ground (arith, l.free_mslab y);
    full_mslab = λ y h. ground (arith, l.full_mslab y);
    partial_mslab = λ j y h. ground (arith, l.partial_mslab j y);
  }

  -- The call returns, and a read of `q` afterwards gives this.
  abbrev pub read_after_put : Cache Disk → Bytes → Bytes → Bytes → Outcome (Status × Option Bytes)
  read_after_put c k x q =
      if same_entry hashing c.index k q
      then done
          (if bytes_eq q k then (ok_status, some x) else (not_found_status "Key not found", none))
      else get_slice pf cfg c q

  module _ (gc_fuel flush_fuel fuel : ℕ) (c : Cache Disk) (k x : Bytes) (sc : SlabClass)
      (v : Sound pf cfg c) (l : Mslabs cfg c) (roomy : Roomy cfg c)
      (fits : get_slab_class cfg.slab_class_table (slot_size k x) ≡ some sc)
      (room : HasRoom pf cfg c sc) (cell : HasEntry c k) where
    granted : Allocates pf cfg gc_fuel flush_fuel (suc (suc fuel)) c (slot_size k x)
    granted =
        slot_alloc-Allocates pf cfg gc_fuel flush_fuel fuel c (slot_size k x) sc v l roomy fits room

    allocated : Cache Disk
    allocated = granted.after

    written : Cache Disk
    unfolding allocated
    written = stored pf cfg allocated granted.slab granted.slot k x

    allocated-Sound : Sound pf cfg allocated
    unfolding allocated
    allocated-Sound = Keeps-Sound pf cfg c granted.after granted.grants.kept v

    written-Sound : Sound pf cfg written
    unfolding written allocated
    written-Sound =
        stored-Sound pf cfg granted.after granted.slab granted.slot k x allocated-Sound
          granted.grants.handed

    still_cell : HasEntry written k
    unfolding written allocated
    still_cell =
        subst (λ (i : Index). HasEntry (record written { index = i }) k)
          (sym granted.grants.same_index) cell

    recorded : Recorded gc_fuel flush_fuel (suc (suc fuel)) written k x granted.slab granted.slot
    unfolding written allocated
    recorded =
        record_slot-Recorded gc_fuel flush_fuel (suc fuel) written k x granted.slab granted.slot
          written-Sound
          (stored-Filled pf cfg granted.after granted.slab granted.slot k x allocated-Sound
            granted.grants.handed)
          still_cell

    finished : Cache Disk
    finished = hand_over pf cfg recorded.after granted.slab

    put_ran : put pf cfg gc_fuel flush_fuel (suc (suc fuel)) c k x ≡ done (ok_status, finished)
    unfolding put finished written allocated
    put_ran = rw (granted.ran, put) (rw (recorded.ran, put) refl)

    same_before :
        (q : Bytes) → same_entry hashing written.index k q ≡ same_entry hashing c.index k q
    unfolding written allocated
    same_before q = rw granted.grants.same_index refl

    before : (q : Bytes) → get_slice pf cfg written q ≡ get_slice pf cfg c q
    unfolding written allocated
    before q =
        get_slice-Keeps pf cfg granted.after _
          (stored-Keeps pf cfg granted.after granted.slab granted.slot k x allocated-Sound
            granted.grants.handed)
          allocated-Sound q
        ∙ get_slice-Keeps pf cfg c granted.after granted.grants.kept v q

    get_slice-recorded : (q : Bytes) → get_slice pf cfg recorded.after q ≡ read_after_put c k x q
    get_slice-recorded q = elim (Bool-cases (same_entry hashing c.index k q)) [
      | inl y ↦ rw y (recorded.stores.hit q (same_before q ∙ y))
      | inr n ↦ rw n (recorded.stores.miss q (same_before q ∙ n) ∙ before q)
    ]

    -- The run of `Put`, and what it does to reads.
    pub put_run_reads :
        (after : Cache Disk) × (put pf cfg gc_fuel flush_fuel (suc (suc fuel)) c k x
          ≡ done (ok_status, after))
        × ((q : Bytes) → get_slice pf cfg after q ≡ read_after_put c k x q)
    unfolding finished
    put_run_reads = (
      finished,
      put_ran,
      λ q.
          get_slice-Keeps pf cfg recorded.after _ (hand_over-Keeps recorded.after granted.slab)
            recorded.stores.sound q
          ∙ get_slice-recorded q,
    )
