-- ===== src/Api/Puts.antt =====
-- `Put` and `Delete` (src/kvcache.cpp) in general, with all they may wait for.
use kvcache.Base.{
  ℕ, Bytes, bytes_eq, ◌≡◌, ◌∙◌, refl, sym, subst, Bool-cases, Option, none, some, arith, inl, inr,
  true, false,
}
use kvcache.Status.{Status, ok_status, is_ok}
use kvcache.Index.{same_entry}
use kvcache.SizeClass.{slot_size}
use kvcache.Slab.{is_full}
use kvcache.State.{Platform, Config, Cache, Outcome, done, done_injective, ◌>>=◌, >>=-eq-done, push}
use kvcache.Lists.{count, HasSlots-same}
use kvcache.Reads.Turn.{Answers, Answers-trans}
use kvcache.Reads.Frame.{get_slice-Keeps}
use kvcache.Api.{get_slice, slot_alloc, record_slot, hand_over, put, delete}
use kvcache.Api.Record.{Handed, stored, stored-Keeps, stored-Filled}
use kvcache.Api.Store.{hand_over-Keeps, hand_over-Mslabs, stored-Mslabs}
use kvcache.Api.Delete.{delete-Relinks, delete_gone, delete-Sound}
use kvcache.Api.Running.{Running, Keeps-Resting}
use kvcache.Api.Grant.{Held, Got, slot_alloc-Got}
use kvcache.Api.Relink.{Relinks-Running}
use kvcache.Api.Insert.{record_slot-Records}

module _ (pf : Platform) (cfg : Config) where
  open pf use {Disk, hashing}

  stored-Running :
      (c : Cache Disk) (m i : ℕ) (k x : Bytes)
      → Running pf cfg c
      → Handed pf cfg c m i
      → Running pf cfg (stored pf cfg c m i k x)
  stored-Running c m i k x r h = record {
    rest =
        Keeps-Resting pf cfg c _ r.rest (stored-Keeps pf cfg c m i k x r.rest.sound h)
          (λ s b q. ground arith) (record { free = refl; full = refl; pool = refl });
    mslabs = stored-Mslabs pf cfg c m i k x r.mslabs;
    apart = record {
      once = r.apart.once;
      classed = λ cid s z. ground (arith, r.apart.classed cid s z);
    };
    roomy = record {
      free_unused = λ s z. ground (arith, r.roomy.free_unused s z);
      partial_slots = λ cid s z.
          let h = r.roomy.partial_slots cid s z in
          HasSlots-same cfg (c.slabs s) _ (ground arith) (ground arith) (ground arith) h;
    };
  }

  stored-Held :
      (c : Cache Disk) (m i : ℕ) (k x : Bytes)
      → Held pf cfg c m
      → Held pf cfg (stored pf cfg c m i k x) m
  stored-Held c m i k x h = record {
    memory = (ground (arith, h.memory.0), h.memory.1);
    away = h.away;
    full = λ z. h.full (unfold is_full in ground (arith, z));
  }

  hand_over-Running :
      (c : Cache Disk) (m : ℕ)
      → Running pf cfg c
      → Held pf cfg c m
      → Running pf cfg (hand_over pf cfg c m)
  hand_over-Running c m r h = record {
    rest =
        Keeps-Resting pf cfg c _ r.rest (hand_over-Keeps pf cfg c m)
          (λ s b q. unfold hand_over in ground arith)
          (unfold hand_over in
            record { free = ground arith; full = ground arith; pool = ground arith });
    mslabs = hand_over-Mslabs pf cfg c m r.rest.sound r.mslabs h.memory.0 h.memory.1;
    apart =
        unfold hand_over in
        record {
          once = λ cid s. elim (Bool-cases (is_full (c.slabs m))) [
            | inl y ↦
                unfold push count in ground (arith, y, r.apart.once cid s, h.away, h.full y cid)
            | inr n ↦ ground (arith, n, r.apart.once cid s)
          ];
          classed = λ cid s z. ground (arith, r.apart.classed cid s, z);
        };
    roomy =
        unfold hand_over in
        record {
          free_unused = λ s z. ground (arith, r.roomy.free_unused s, z);
          partial_slots = λ cid s z.
              HasSlots-same cfg (c.slabs s) _ (ground arith) (ground arith) (ground arith)
                (r.roomy.partial_slots cid s (ground (arith, z)));
        };
  }

  -- What a call of `Put` that returned did.
  pub record Puts (c c' : Cache Disk) (k x : Bytes) (status : Status) : Type 0 where
    pub running : Running pf cfg c'
    pub hit : is_ok status ≡ true → get_slice pf cfg c' k ≡ done (ok_status, some x)
    pub others :
        (q : Bytes)
        → bytes_eq q k ≡ false
        → Answers true (get_slice pf cfg c' q) (get_slice pf cfg c q)
    pub refused :
        is_ok status ≡ false
        → (q : Bytes) → Answers true (get_slice pf cfg c' q) (get_slice pf cfg c q)

  -- The two parts behind the allocation of a slot.
  abbrev after_alloc :
      ℕ
      → ℕ
      → ℕ
      → Bytes
      → Bytes
      → (Status × Option (ℕ × ℕ)) × Cache Disk
      → Outcome (Status × Cache Disk)
  after_alloc gc_fuel flush_fuel fuel k x r = elim r.0.1 [
    | none ↦ done (r.0.0, r.1)
    | some place ↦
        record_slot pf cfg gc_fuel flush_fuel fuel (stored pf cfg r.1 place.0 place.1 k x) k place.0
          place.1
        >>= λ c₂. done (ok_status, hand_over pf cfg c₂ place.0)
  ]

  put_runs :
      (gc_fuel flush_fuel fuel : ℕ) (c : Cache Disk) (k x : Bytes)
      → put pf cfg gc_fuel flush_fuel fuel c k x ≡ (
          slot_alloc pf cfg gc_fuel flush_fuel fuel c (slot_size k x)
          >>= after_alloc gc_fuel flush_fuel fuel k x)
  unfolding put
  put_runs gc_fuel flush_fuel fuel c k x = refl

  filled :
      (gc_fuel flush_fuel fuel : ℕ) (c c₁ c' : Cache Disk) (k x : Bytes) (got status : Status)
      (place : Option (ℕ × ℕ))
      → Running pf cfg c
      → Got pf cfg c got place c₁
      → after_alloc gc_fuel flush_fuel fuel k x ((got, place), c₁) ≡ done (status, c')
      → Puts c c' k x status
  unfolding Got
  filled gc_fuel flush_fuel fuel c c₁ c' k x got status none r (failed, running, reads) p =
      subst (λ (y : Status × Cache Disk). Puts c y.1 k x y.0) (done_injective p)
        (record {
          running = running;
          hit = λ done_well. absurd (cc (done_well, failed));
          others = λ q n. reads q;
          refused = λ _ q. reads q;
        })
  filled gc_fuel flush_fuel fuel c c₁ c' k x got status (some (m, i)) r
        (ok, running, reads, held, handed) p =
      let written = stored pf cfg c₁ m i k x in
      let (c₂, q, e) = >>=-eq-done (record_slot pf cfg gc_fuel flush_fuel fuel written k m i) _ p in
      let f = stored-Filled pf cfg c₁ m i k x running.rest.sound handed in
      let s =
        record_slot-Records pf cfg gc_fuel flush_fuel fuel written c₂ k x m i
          (stored-Running c₁ m i k x running handed) (stored-Held c₁ m i k x held) f q in
      let last = hand_over pf cfg c₂ m in
      let same = λ (y : Bytes).
        get_slice-Keeps pf cfg c₂ last (hand_over-Keeps pf cfg c₂ m) s.running.rest.sound y in
      let kept = stored-Keeps pf cfg c₁ m i k x running.rest.sound handed in
      subst (λ (y : Status × Cache Disk). Puts c y.1 k x y.0) (done_injective e)
        (record {
          running = hand_over-Running c₂ m s.running s.held;
          hit = λ _. same k ∙ s.hit;
          others = λ y n. Answers-trans true _ _ _ (reads y) (
              Answers-trans true _ _ _
                (inl (get_slice-Keeps pf cfg c₁ written kept running.rest.sound y))
                (Answers-trans true _ _ _ (s.others y n) (inl (same y))));
          refused = λ failed. absurd (unfold is_ok in cc failed);
        })

  -- Where `Put` returns on a running cache, after whatever flushing and collection it waited for: the
  -- invariant holds; if the status is OK the key reads the new value, and every other key reads what it
  -- read before or that it is not found; with another status that holds of every key.
  pub put-Puts :
      (gc_fuel flush_fuel fuel : ℕ) (c c' : Cache Disk) (k x : Bytes) (status : Status)
      → Running pf cfg c
      → put pf cfg gc_fuel flush_fuel fuel c k x ≡ done (status, c')
      → Puts c c' k x status
  put-Puts gc_fuel flush_fuel fuel c c' k x status r p =
      let (((got, place), c₁), q, z) =
        >>=-eq-done (slot_alloc pf cfg gc_fuel flush_fuel fuel c (slot_size k x)) _
          (sym (put_runs gc_fuel flush_fuel fuel c k x) ∙ p) in
      filled gc_fuel flush_fuel fuel c c₁ c' k x got status place r
        (slot_alloc-Got pf cfg gc_fuel flush_fuel fuel c (slot_size k x) got place c₁ r q) z

  pub delete-Running :
      (c : Cache Disk) (k : Bytes) → Running pf cfg c → Running pf cfg (delete pf cfg c k)
  delete-Running c k r =
      let v = r.rest.sound in
      let l = delete-Relinks pf cfg c k v in
      Relinks-Running pf cfg c (delete pf cfg c k) k r l (delete-Sound pf cfg c k v)
        (λ q e p at. elim (Bool-cases (same_entry hashing c.index k q)) [
          | inl y ↦ absurd (cc (p, delete_gone pf cfg c k q v y))
          | inr n ↦ r.rest.idle q e (sym (l.miss q n) ∙ p) at
        ])
        (unfold delete in record { free = ground arith; full = ground arith; pool = ground arith })
        (unfold delete in
          record { free = ground arith; full = ground arith; partial = ground arith })
        (λ s.
          unfold delete in
          record { cid = ground arith; slot_size = ground arith; nr_slots = ground arith })
