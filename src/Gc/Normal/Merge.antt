-- ===== src/Gc/Normal/Merge.antt =====
-- The loop of `normal_gc` (src/kvcache.cpp) over the slab classes.
use kvcache.Base.{
  ℕ, zero, suc, ◌+◌, ◌<◌, ◌≤◌, ◌≡◌, refl, subst, List, arith, ltb, ◌==◌, Bool-cases, inl, inr,
  length, false,
}
use kvcache.State.{Platform, Config, Cache, Ring, done, ◌>>=◌, >>=-eq-done, done_injective}
use kvcache.Gc.Copy.Slabs.{SameDisk}
use kvcache.Reads.Turn.{SameMemory, Turn, Turn-trans, same-Turn}
use kvcache.Lists.{count}
use kvcache.Gc.Quick.{channel_of}
use kvcache.Gc.Copy.{gc_dslabs}
use kvcache.Gc.Copy.Turn.{Collecting, Collected, gc_dslabs-Collected}
use kvcache.Gc.Normal.{collect, merge_classes}
use kvcache.Gc.Normal.Select.{count-collect}

module _ (pf : Platform) (cfg : Config) where
  open pf use {Disk}

  -- The classes from `i` on hold full slabs, and no slab is in two.
  pub record Pending (c : Cache Disk) (classes : ℕ → List ℕ) (i : ℕ) : Type 0 where
    pub listed :
        (j d : ℕ)
        → i ≤ j
        → count d (classes j) ≤ count d (c.dslab_full (channel_of cfg (c.slabs d))).items
    pub apart : (j k d : ℕ) → 0 < count d (classes j) → 0 < count d (classes k) → j ≡ k

  later :
      (c : Cache Disk) (classes : ℕ → List ℕ) (i : ℕ)
      → Pending c classes i
      → Pending c classes (i + 1)
  later c classes i p = record {
    listed = λ j d h. p.listed j d (omega (arith, h));
    apart = p.apart;
  }

  same_channel :
      (c c' : Cache Disk) (d : ℕ)
      → (c'.slabs d).block_id ≡ (c.slabs d).block_id
      → channel_of cfg (c'.slabs d) ≡ channel_of cfg (c.slabs d)
  same_channel c c' d e = rw e

  after_merge :
      (c c' : Cache Disk) (free_list free_list' : ℕ → Ring) (classes : ℕ → List ℕ) (i : ℕ)
      (ds held : List ℕ)
      → Pending c classes i
      → Collected pf cfg c c' free_list free_list' ds held
      → ((d : ℕ) → count d ds ≤ count d (classes i))
      → Pending c' classes (i + 1)
  after_merge c c' free_list free_list' classes i ds held p g sub = record {
    listed = λ j d h.
        let e = same_channel c c' d (g.turn.block_id d) in
        let kept = g.full d (channel_of cfg (c.slabs d)) in
        rw e (ground (arith, kept, p.listed j d, p.apart j i d, sub d, h));
    apart = p.apart;
  }

  -- What a part of a collection does to reads and lists.
  pub record Merged (c c' : Cache Disk) (free_list' : ℕ → Ring) (held : List ℕ) : Type 0 where
    pub turn : Turn pf cfg false c c'
    pub state : Collecting pf cfg c' free_list' held

  pub stays :
      (c c' : Cache Disk) (free_list free_list' : ℕ → Ring) (held : List ℕ)
      → Collecting pf cfg c free_list held
      → ◌≡◌ {A = Cache Disk × (ℕ → Ring)} (c, free_list) (c', free_list')
      → Merged c c' free_list' held
  stays c c' free_list free_list' held s e =
      subst (λ (x : Cache Disk × (ℕ → Ring)). Merged c x.0 x.1 held) e
        (record {
          turn =
              same-Turn pf cfg c c s.sound refl refl refl
                (record { free = refl; full = refl; partial = refl });
          state = s;
        })

  -- Only counters changed.
  pub same-Merged :
      (c c' : Cache Disk) (extra : ℕ → Ring) (held : List ℕ)
      → Collecting pf cfg c extra held
      → c'.index ≡ c.index
      → c'.slabs ≡ c.slabs
      → c'.disk ≡ c.disk
      → SameMemory pf cfg c c'
      → SameDisk pf cfg c c'
      → Merged c c' extra held
  same-Merged c c' extra held s idx slabs disk memory lists =
      let turn = same-Turn pf cfg c c' s.sound idx slabs disk memory in
      record {
        turn = turn;
        state = record {
          sound = turn.sound;
          imaged = turn.imaged s.imaged;
          idle = λ q e p at. s.idle q e (ground (arith, idx, p)) at;
          placed = rw (slabs, lists.free, lists.full, lists.pool) s.placed;
          cleared = λ x d h q e p at. s.cleared x d h q e (ground (arith, idx, p)) at;
        };
      }

  pub Merged-trans :
      (a b c : Cache Disk) (free_list free_list' : ℕ → Ring) (held : List ℕ)
      → Merged a b free_list held
      → Merged b c free_list' held
      → Merged a c free_list' held
  Merged-trans a b c free_list free_list' held f g = record {
    turn = Turn-trans pf cfg false a b c f.turn g.turn;
    state = g.state;
  }

  pub merge_classes-Merged :
      (n i : ℕ) (c c' : Cache Disk) (classes : ℕ → List ℕ) (free_list free_list' : ℕ → Ring)
      (held : List ℕ)
      → Collecting pf cfg c free_list held
      → Pending c classes i
      → merge_classes pf cfg n i c classes free_list ≡ done (c', free_list')
      → Merged c c' free_list' held
  unfolding merge_classes
  merge_classes-Merged zero i c c' classes free_list free_list' held s p e =
      stays c c' free_list free_list' held s (done_injective e)
  merge_classes-Merged (suc n) i c c' classes free_list free_list' held s p e =
      let to_drop = collect c.slabs 0 (classes i) in
      let some_of : (d : ℕ) → count d to_drop ≤ count d (classes i) =
        λ d. count-collect c.slabs d 0 (classes i) in
      elim (Bool-cases (ltb 1 (length to_drop))) [
        | inr few ↦
            merge_classes-Merged n (i + 1) c c' classes free_list free_list' held s
              (later c classes i p) (ground (arith, e, few))
        | inl enough ↦ elim (Bool-cases (c.ops_pool_size == 0)) [
          | inl dry ↦
              stays c c' free_list free_list' held s
                (done_injective (ground (arith, e, enough, dry)))
          | inr some_left ↦
              let merging : (gc_dslabs pf cfg c to_drop free_list >>= λ r.
              merge_classes pf cfg n (i + 1) r.0 classes r.1)
                  ≡ done (c', free_list') =
                ground (arith, e, enough, some_left) in
              let ((c₁, free_list₁), q, r) =
                >>=-eq-done (gc_dslabs pf cfg c to_drop free_list) _ merging in
              let g =
                gc_dslabs-Collected pf cfg c c₁ free_list free_list₁ held to_drop s
                  (λ d. omega (arith, some_of d, p.listed i d (omega arith))) q in
              let pending =
                after_merge c c₁ free_list free_list₁ classes i to_drop held p g some_of in
              Merged-trans c c₁ c' free_list₁ free_list' held
                (record { turn = g.turn; state = g.state })
                (merge_classes-Merged n (i + 1) c₁ c' classes free_list₁ free_list' held g.state
                  pending r)
        ]
      ]
