-- ===== src/Api/Grant.antt =====
-- `slot_alloc` (src/kvcache.cpp) in general, the flushing that it waits for included.
use kvcache.Base.{
  ℕ, zero, suc, Bytes, ◌+◌, ◌≡◌, ◌∙◌, refl, sym, subst, Bool-cases, ◌&&◌, Option, none, some, arith,
  Option-cases, inl, inr, true, false, if◌then◌else◌,
}
use kvcache.Status.{Status, ok_status, object_too_large_status, shutdown_status, is_ok}
use kvcache.Slab.{Slab, is_full, slab_header_size}
use kvcache.Slab
use kvcache.SizeClass.{get_slab_class}
use kvcache.State.{
  Platform, Config, Cache, SlabClass, Outcome, done, done_injective, ◌>>=◌, >>=-eq-done,
  first_entry, detach, within,
}
use kvcache.Lists.{count, count-list_del, first_entry-count, IsMslab}
use kvcache.Reads.Turn.{Answers, Answers-trans}
use kvcache.Reads.Frame.{get_slice-Keeps}
use kvcache.Flush.{do_slab_flush}
use kvcache.Flush.Turn.{do_slab_flush-Flushes}
use kvcache.Api.{adopt, take_slot, slot_alloc, get_slice}
use kvcache.Api.Record.{Handed}
use kvcache.Api.Alloc.{take_slot-Grants, adopted_first, adopt-Keeps, adopt-Mslabs}
use kvcache.Api.Room.{Holds, take_slot-within, within-Holds, take_slot-Roomy, adopt-Roomy}
use kvcache.Api.Running.{Running, Flushes-Running, Keeps-Resting}

module _ (pf : Platform) (cfg : Config) where
  open pf use {Disk, hashing}

  -- The caller holds a slot of `m`, which no turn of a background thread can take.
  pub record Held (c : Cache Disk) (m : ℕ) : Type 0 where
    pub memory : IsMslab cfg c m
    pub away : count m c.mslab_free.items + count m c.mslab_full.items ≡ 0
    pub full : is_full (c.slabs m) ≡ true → (cid : ℕ) → count m (c.slab_partial cid) ≡ 0

  adopt-Running :
      (c : Cache Disk) (sc : SlabClass) (m : ℕ)
      → Running pf cfg c
      → Holds cfg sc
      → first_entry c.mslab_free.items ≡ some m
      → Running pf cfg (adopt pf cfg c sc m)
  adopt-Running c sc m r holds p =
      let on = first_entry-count m c.mslab_free.items p in
      let (memory, off) = r.mslabs.free_mslab m on in
      record {
        rest =
            Keeps-Resting pf cfg c _ r.rest (adopt-Keeps pf cfg c sc.cid m r.rest.sound r.mslabs sc)
              (λ s b q. unfold adopt in ground arith)
              (unfold adopt in record { free = refl; full = refl; pool = refl });
        mslabs = adopt-Mslabs pf cfg c sc.cid m r.rest.sound r.mslabs sc p;
        apart =
            unfold adopt in
            record {
              once = λ cid s.
                  unfold detach count in
                  ground (
                    arith,
                    on,
                    r.apart.once cid s,
                    r.apart.once sc.cid s,
                    count-list_del m s c.mslab_free.items,
                  );
              classed = λ cid s h.
                  unfold count in ground (arith, h, on, r.apart.classed cid s, r.apart.once cid s);
            };
        roomy = adopt-Roomy pf cfg c r.roomy r.apart sc m holds on;
      }

  -- The slot number is below the slab's count, and so the slab was not full.
  take_slot-Running :
      (c : Cache Disk) (cid m : ℕ)
      → Running pf cfg c
      → first_entry (c.slab_partial cid) ≡ some m
      → Running pf cfg (take_slot pf cfg c cid m).1 × Held (take_slot pf cfg c cid m).1 m
  take_slot-Running c cid m r p =
      let g = take_slot-Grants pf cfg c cid m r.rest.sound r.mslabs p in
      let on = first_entry-count m (c.slab_partial cid) p in
      let (memory, off) = r.mslabs.partial_mslab cid m on in
      (
        record {
          rest =
              Keeps-Resting pf cfg c _ r.rest g.kept
                (λ s b q. unfold take_slot Slab.slot_alloc in ground (arith, q, memory))
                (unfold take_slot in record { free = refl; full = refl; pool = refl });
          mslabs = g.mslabs;
          apart =
              unfold take_slot Slab.slot_alloc in
              record {
                once = λ j s.
                    ground (arith, r.apart.once j s, count-list_del m s (c.slab_partial cid));
                classed = λ j s h.
                    ground (arith, h, r.apart.classed j s, count-list_del m s (c.slab_partial cid));
              };
          roomy = take_slot-Roomy pf cfg c r.roomy r.apart cid m on;
        },
        unfold take_slot Slab.slot_alloc in
            record {
              memory = (ground (arith, memory), off);
              away = omega (arith, on, r.apart.once cid m);
              full = λ h j. ground (
                arith,
                h,
                on,
                r.apart.once j m,
                r.apart.classed j m,
                r.apart.classed cid m on,
                count-list_del m m (c.slab_partial cid),
              );
            },
      )

  -- What a call of `slot_alloc` did, by what it returned.
  unfoldable pub Got : Cache Disk → Status → Option (ℕ × ℕ) → Cache Disk → Type 0
  Got c status none c' =
      (is_ok status ≡ false)
      × Running pf cfg c'
      × ((q : Bytes) → Answers true (get_slice pf cfg c' q) (get_slice pf cfg c q))
  Got c status (some (m, i)) c' =
      (status ≡ ok_status)
      × Running pf cfg c'
      × ((q : Bytes) → Answers true (get_slice pf cfg c' q) (get_slice pf cfg c q))
      × Held c' m
      × Handed pf cfg c' m i

  -- A call that goes on from a later state.
  Got-after :
      (a b : Cache Disk) (status : Status) (place : Option (ℕ × ℕ)) (c : Cache Disk)
      → ((q : Bytes) → Answers true (get_slice pf cfg b q) (get_slice pf cfg a q))
      → Got b status place c
      → Got a status place c
  unfolding Got
  Got-after a b status none c f (n, r, g) = (n, r, λ q. Answers-trans true _ _ _ (f q) (g q))
  Got-after a b status (some (m, i)) c f (n, r, g, h, k) =
      (n, r, λ q. Answers-trans true _ _ _ (f q) (g q), h, k)

  refused :
      (c c' : Cache Disk) (status status' : Status) (place : Option (ℕ × ℕ))
      → Running pf cfg c
      → is_ok status' ≡ false
      → ◌≡◌ {A = Outcome ((Status × Option (ℕ × ℕ)) × Cache Disk)}
          (done ((status', none), c))
          (done ((status, place), c'))
      → Got c status place c'
  unfolding Got
  refused c c' status status' place r n p =
      subst (λ (x : (Status × Option (ℕ × ℕ)) × Cache Disk). Got c x.0.0 x.0.1 x.1)
        (done_injective p) (n, r, λ q. inl refl)

  granted :
      (c c' : Cache Disk) (cid m : ℕ) (status : Status) (place : Option (ℕ × ℕ))
      → Running pf cfg c
      → first_entry (c.slab_partial cid) ≡ some m
      → ◌≡◌ {A = Outcome ((Status × Option (ℕ × ℕ)) × Cache Disk)}
          (done ((ok_status, some (m, (take_slot pf cfg c cid m).0)), (take_slot pf cfg c cid m).1))
          (done ((status, place), c'))
      → Got c status place c'
  unfolding Got
  granted c c' cid m status place r e p =
      let g = take_slot-Grants pf cfg c cid m r.rest.sound r.mslabs e in
      let (running, held) = take_slot-Running c cid m r e in
      subst (λ (x : (Status × Option (ℕ × ℕ)) × Cache Disk). Got c x.0.0 x.0.1 x.1)
        (done_injective p)
        (
          refl,
          running,
          (λ q. inl (get_slice-Keeps pf cfg c _ g.kept r.rest.sound q)),
          held,
          g.handed,
        )

  slot_alloc_waits :
      (gc_fuel flush_fuel fuel : ℕ) (c : Cache Disk) (size : ℕ) (sc : SlabClass)
      → get_slab_class cfg.slab_class_table size ≡ some sc
      → first_entry (c.slab_partial sc.cid) ≡ none
      → first_entry c.mslab_free.items ≡ none
      → slot_alloc pf cfg gc_fuel flush_fuel (suc fuel) c size ≡ (
          do_slab_flush pf cfg gc_fuel flush_fuel c >>= λ r.
          if cfg.enable_background_flush && r.1.shutdown
          then done ((shutdown_status "KVCache is shutting down", none), r.1)
          else slot_alloc pf cfg gc_fuel flush_fuel fuel r.1 size)
  unfolding slot_alloc
  slot_alloc_waits gc_fuel flush_fuel fuel c size sc p q r =
      rw (p, slot_alloc) (rw (q, slot_alloc) (rw (r, slot_alloc) refl))

  -- The call goes on behind the adoption of `m`: only a slot of the slab is granted.
  adopted_granted :
      (gc_fuel flush_fuel fuel : ℕ) (c : Cache Disk) (size : ℕ) (sc : SlabClass) (m : ℕ)
      (status : Status) (place : Option (ℕ × ℕ)) (c' : Cache Disk)
      → get_slab_class cfg.slab_class_table size ≡ some sc
      → slot_alloc pf cfg gc_fuel flush_fuel fuel (adopt pf cfg c sc m) size
        ≡ done ((status, place), c')
      → within cfg ((take_slot pf cfg (adopt pf cfg c sc m) sc.cid m).1.slabs m) ≡ true
  unfolding slot_alloc
  adopted_granted gc_fuel flush_fuel zero c size sc m status place c' fits p =
      absurd (ground (arith, p))
  adopted_granted gc_fuel flush_fuel (suc fuel) c size sc m status place c' fits p =
      let a = adopt pf cfg c sc m in
      elim (Bool-cases (within cfg ((take_slot pf cfg a sc.cid m).1.slabs m))) [
        | inl y ↦ y
        | inr n ↦ absurd (ground (arith, p, fits, n, adopted_first pf cfg c sc m))
      ]

  pub slot_alloc-Got :
      (gc_fuel flush_fuel fuel : ℕ) (c : Cache Disk) (size : ℕ) (status : Status)
      (place : Option (ℕ × ℕ)) (c' : Cache Disk)
      → Running pf cfg c
      → slot_alloc pf cfg gc_fuel flush_fuel fuel c size ≡ done ((status, place), c')
      → Got c status place c'
  unfolding slot_alloc
  slot_alloc-Got gc_fuel flush_fuel zero c size status place c' r p = absurd (ground (arith, p))
  slot_alloc-Got gc_fuel flush_fuel (suc fuel) c size status place c' r p =
      elim (Option-cases (get_slab_class cfg.slab_class_table size)) [
        | inl none_fits ↦
            refused c c' status (object_too_large_status "Object is too large") place r
              (unfold is_ok in refl) (ground (arith, p, none_fits))
        | inr (sc, fits) ↦ elim (Option-cases (first_entry (c.slab_partial sc.cid))) [
          | inr (m, e) ↦
              let on = first_entry-count m (c.slab_partial sc.cid) e in
              let w = take_slot-within pf cfg c sc.cid m (r.roomy.partial_slots sc.cid m on) in
              granted c c' sc.cid m status place r e (ground (arith, p, fits, e, w))
          | inl no_partial ↦ elim (Option-cases (first_entry c.mslab_free.items)) [
            | inr (m, e) ↦
                let adopted = adopt pf cfg c sc m in
                let kept = adopt-Keeps pf cfg c sc.cid m r.rest.sound r.mslabs sc in
                let again : slot_alloc pf cfg gc_fuel flush_fuel fuel adopted size
                    ≡ done ((status, place), c') =
                  ground (arith, p, fits, no_partial, e) in
                let unused = r.roomy.free_unused m (first_entry-count m c.mslab_free.items e) in
                let holds = within-Holds pf cfg c sc m unused (
                  adopted_granted gc_fuel flush_fuel fuel c size sc m status place c' fits again) in
                Got-after c adopted status place c'
                  (λ q. inl (get_slice-Keeps pf cfg c adopted kept r.rest.sound q))
                  (slot_alloc-Got gc_fuel flush_fuel fuel adopted size status place c'
                    (adopt-Running c sc m r holds e) again)
            | inl no_free ↦
                let (flushed, q, z) = >>=-eq-done (do_slab_flush pf cfg gc_fuel flush_fuel c) _ (
                  sym (slot_alloc_waits gc_fuel flush_fuel fuel c size sc fits no_partial no_free)
                  ∙ p) in
                let f =
                  do_slab_flush-Flushes pf cfg gc_fuel flush_fuel c flushed.1 flushed.0 r.rest
                    r.mslabs q in
                let running = Flushes-Running pf cfg c flushed.1 r f in
                elim (Bool-cases (cfg.enable_background_flush && flushed.1.shutdown)) [
                  | inl y ↦ Got-after c flushed.1 status place c' f.reads (
                      refused flushed.1 c' status (shutdown_status "KVCache is shutting down") place
                        running (unfold is_ok in refl) (ground (arith, y, z)))
                  | inr n ↦ Got-after c flushed.1 status place c' f.reads (
                      slot_alloc-Got gc_fuel flush_fuel fuel flushed.1 size status place c' running
                        (ground (arith, n, z)))
                ]
          ]
        ]
      ]
