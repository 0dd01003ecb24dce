-- ===== src/Api/Insert.antt =====
-- The index part of `Put` (src/kvcache.cpp) in general, the wait for an index entry included.
use kvcache.Base.{
  ℕ, List, Bytes, bytes_eq, bytes_eq_iff, ◌≡◌, ◌∙◌, refl, sym, ap, subst, Bool-cases, none, some,
  arith, Option-cases, inl, inr, true, false,
}
use kvcache.Status.{ok_status}
use kvcache.Index.{
  Index, IndexEntry, get_index_entry, index_entry_alloc, put_index_entry, same_entry,
}
use kvcache.Index.Count.{index_entry_alloc-Takes}
use kvcache.Slot.{key, value}
use kvcache.Slab.{Slab, is_full}
use kvcache.State.{
  Platform, Config, Cache, Outcome, done, done_injective, ◌>>=◌, >>=-eq-done, gc_buffer,
}
use kvcache.Lists.{count}
use kvcache.Reads.Turn.{Answers, Answers-trans}
use kvcache.Flush.Turn.{Flushes}
use kvcache.Api.{await_index_entry, record_slot, get_slice}
use kvcache.Api.Record.{
  Filled, Stores, repointed, entered, repointed-Stores, repointed-Relinks, repointed-Unreferenced,
  entered-Stores, entered-Relinks, entered-Unreferenced,
}
use kvcache.Api.Running.{Running, Flushes-Running}
use kvcache.Api.Relink.{Relinks-Running}
use kvcache.Api.Wait.{await_index_entry-Waits}
use kvcache.Api.Grant.{Held}

module _ (pf : Platform) (cfg : Config) where
  open pf use {Disk, hashing}

  -- The slot in hand stays in hand, and keeps what it holds.
  Flushes-Held :
      (c c' : Cache Disk) (m : ℕ) → Held pf cfg c m → Flushes pf cfg c c' → Held pf cfg c' m
  Flushes-Held c c' m h f =
      let (p, n) = h.memory in
      let same = (f.spared m p n h.away).slab in
      record {
        memory = (f.block_id m ∙ p, n);
        away = omega (arith, h.away, f.listed m);
        full = λ z cid.
            ap (λ (x : ℕ → List ℕ). count m (x cid)) f.partial
            ∙ h.full (ap is_full (sym same) ∙ z) cid;
      }

  Flushes-Filled :
      (c c' : Cache Disk) (m i : ℕ) (k x : Bytes)
      → Held pf cfg c m
      → Filled pf cfg c m i k x
      → Flushes pf cfg c c'
      → Filled pf cfg c' m i k x
  Flushes-Filled c c' m i k x h g f =
      let (p, n) = h.memory in
      let same = (f.spared m p n h.away).slab in
      record {
        in_memory = ap (λ (s : Slab). s.block_id) same ∙ g.in_memory;
        in_range = ground (arith, ap (λ (s : Slab). s.nr_alloc) same, g.in_range);
        holds_key = ap (λ (s : Slab). key (s.memory i)) same ∙ g.holds_key;
        holds_value = ap (λ (s : Slab). value (s.memory i)) same ∙ g.holds_value;
      }

  -- What recording `x` under `k` did, for a slot of `m`.
  pub record Records (c c' : Cache Disk) (k x : Bytes) (m : ℕ) : Type 0 where
    pub running : Running pf cfg c'
    pub held : Held pf cfg c' m
    pub hit : get_slice pf cfg c' k ≡ done (ok_status, some x)
    pub others :
        (q : Bytes)
        → bytes_eq q k ≡ false
        → Answers true (get_slice pf cfg c' q) (get_slice pf cfg c q)

  -- A read of a key that differs, by what the index tells apart.
  stored_hit :
      (c c' : Cache Disk) (k x : Bytes)
      → Stores pf cfg c c' k x
      → get_slice pf cfg c' k ≡ done (ok_status, some x)
  stored_hit c c' k x s =
      let same : bytes_eq k k ≡ true = (bytes_eq_iff k k).1 refl in ground (arith, s.hit k, same)

  stored_others :
      (c c' : Cache Disk) (k x q : Bytes)
      → Stores pf cfg c c' k x
      → bytes_eq q k ≡ false
      → Answers true (get_slice pf cfg c' q) (get_slice pf cfg c q)
  stored_others c c' k x q s n = elim (Bool-cases (same_entry hashing c.index k q)) [
    | inl y ↦ inr (ground (arith, s.hit q y, n))
    | inr z ↦ inl (s.miss q z)
  ]

  repointed-Records :
      (c : Cache Disk) (e : IndexEntry) (k x : Bytes) (m i : ℕ)
      → Running pf cfg c
      → Held pf cfg c m
      → Filled pf cfg c m i k x
      → get_index_entry hashing c.index k ≡ some e
      → Records c (repointed pf cfg c e k m i) k x m
  repointed-Records c e k x m i r h f p =
      let c' = repointed pf cfg c e k m i in
      let (memory, off) = h.memory in
      let s = repointed-Stores pf cfg c m i k x r.rest.sound f e p in
      record {
        running =
            Relinks-Running pf cfg c c' k r (repointed-Relinks pf cfg c m i k x r.rest.sound f e)
              s.sound
              (repointed-Unreferenced pf cfg c m i k x r.rest.sound f e (gc_buffer cfg) p
                (λ z. off (sym z)) r.rest.idle)
              (record { free = refl; full = refl; pool = refl })
              (record { free = refl; full = refl; partial = refl })
              (λ y. record {
                cid = ground arith;
                slot_size = ground arith;
                nr_slots = ground arith;
              });
        held = record {
          memory = (ground (arith, memory), off);
          away = h.away;
          full = λ z. h.full (unfold is_full in ground (arith, z));
        };
        hit = stored_hit c c' k x s;
        others = λ q n. stored_others c c' k x q s n;
      }

  entered-Records :
      (c : Cache Disk) (e : IndexEntry) (idx : Index) (k x : Bytes) (m i : ℕ)
      → Running pf cfg c
      → Held pf cfg c m
      → Filled pf cfg c m i k x
      → get_index_entry hashing c.index k ≡ none
      → index_entry_alloc c.index ≡ some (e, idx)
      → Records c (entered pf cfg c idx k m i) k x m
  entered-Records c e idx k x m i r h f absent q =
      let c' = entered pf cfg c idx k m i in
      let (memory, off) = h.memory in
      let (es, t, z) = index_entry_alloc-Takes c.index e idx q in
      let chains = ap (λ (y : Index). y.table) z in
      let size = ap (λ (y : Index). y.table_size) z in
      let s = entered-Stores pf cfg c m i k x r.rest.sound f idx chains size absent in
      record {
        running =
            Relinks-Running pf cfg c c' k r
              (entered-Relinks pf cfg c m i k x r.rest.sound f idx chains size absent) s.sound
              (entered-Unreferenced pf cfg c m i k x r.rest.sound f idx chains size absent
                (gc_buffer cfg) (λ z. off (sym z)) r.rest.idle)
              (record { free = refl; full = refl; pool = refl })
              (record { free = refl; full = refl; partial = refl })
              (λ y. record { cid = refl; slot_size = refl; nr_slots = refl });
        held = record { memory = h.memory; away = h.away; full = h.full };
        hit = stored_hit c c' k x s;
        others = λ q n. stored_others c c' k x q s n;
      }

  -- The state after an entry was put in.
  abbrev inserted : Bytes → ℕ → ℕ → Cache Disk → Cache Disk
  inserted k m i c = record c {
    index =
        put_index_entry hashing c.index k
          (record { digest = hashing.make_digest k; slab_id = (c.slabs m).sid; slot_id = i });
  }

  record_slot_waits :
      (gc_fuel flush_fuel fuel : ℕ) (c : Cache Disk) (k : Bytes) (m i : ℕ)
      → get_index_entry hashing c.index k ≡ none
      → record_slot pf cfg gc_fuel flush_fuel fuel c k m i
        ≡ (await_index_entry pf cfg gc_fuel flush_fuel fuel c >>= λ r. done (inserted k m i r.1))
  unfolding record_slot
  record_slot_waits gc_fuel flush_fuel fuel c k m i q = rw (q, record_slot) refl

  pub record_slot-Records :
      (gc_fuel flush_fuel fuel : ℕ) (c c' : Cache Disk) (k x : Bytes) (m i : ℕ)
      → Running pf cfg c
      → Held pf cfg c m
      → Filled pf cfg c m i k x
      → record_slot pf cfg gc_fuel flush_fuel fuel c k m i ≡ done c'
      → Records c c' k x m
  unfolding record_slot
  record_slot-Records gc_fuel flush_fuel fuel c c' k x m i r h f p =
      elim (Option-cases (get_index_entry hashing c.index k)) [
        | inr (e, q) ↦
            let same : ◌≡◌ {A = Outcome (Cache Disk)} (done (repointed pf cfg c e k m i))
                (done c') =
              ground (arith, p, q) in
            subst (λ y. Records c y k x m) (done_injective same)
              (repointed-Records c e k x m i r h f q)
        | inl q ↦
            let ((e, waited), s, t) =
              >>=-eq-done (await_index_entry pf cfg gc_fuel flush_fuel fuel c) _
                (sym (record_slot_waits gc_fuel flush_fuel fuel c k m i q) ∙ p) in
            let w = await_index_entry-Waits pf cfg gc_fuel flush_fuel fuel c waited e r s in
            let b = w.before in
            let running = Flushes-Running pf cfg c b r w.flushes in
            let recorded =
              entered-Records b e w.idx k x m i running (Flushes-Held c b m h w.flushes)
                (Flushes-Filled c b m i k x h f w.flushes) (w.flushes.absent k q) w.cell in
            let last : entered pf cfg b w.idx k m i ≡ c' =
              ap (inserted k m i) w.after ∙ done_injective t in
            subst (λ y. Records c y k x m) last
              (record {
                running = recorded.running;
                held = recorded.held;
                hit = recorded.hit;
                others = λ y n. Answers-trans true _ _ _ (w.flushes.reads y) (recorded.others y n);
              })
      ]
