-- ===== src/Gc/Normal/Recycle.antt =====
-- The loops of `normal_gc` (src/kvcache.cpp) that share out the freed slabs.
use kvcache.Base.{
  ℕ, zero, suc, ◌+◌, ◌-◌, ◌<◌, ◌≤◌, ◌≡◌, ◌≢◌, ◌∙◌, ◌⊎◌, refl, sym, ap, List, [], ◌∷◌, none, some,
  arith, ltb, ◌==◌, if◌then◌else◌, Bool-cases, Option-cases, inl, inr, update,
}
use kvcache.Slab.{Slab, reset}
use kvcache.State.{
  Platform, Config, Cache, Ring, empty_ring, done, push, detach, list_del, first_entry,
  next_channel, done_injective,
}
use kvcache.Reads.{Unreferenced}
use kvcache.Reads.Turn.{touch-Turn, same-Turn, SameMemory}
use kvcache.Lists.{count, count-list_del, first_entry-count, Placed}
use kvcache.Lists.Channels.{OnChannel, Spread, Spread-slabs, fewer_extra-Spread}
use kvcache.Lists.Channels.Take.{take_extra-Spread, take_pool-Spread}
use kvcache.Lists.Channels.Give.{give_extra-Spread, give_pool-Spread, give_free-Spread}
use kvcache.Gc.Copy.Turn.{Collecting, unused-Unreferenced}
use kvcache.Gc.Normal.{repay_ops_pool, shrink_ops_pool, release_channel, release_channels}
use kvcache.Gc.Normal.Merge.{Merged, Merged-trans, same-Merged, stays}

module _ (pf : Platform) (cfg : Config) where
  open pf use {Disk, hashing}

  -- A slab to which no entry points is reset, and changes lists.
  pub recycled :
      (c c' : Cache Disk) (extra extra' : ℕ → Ring) (held held' : List ℕ) (d : ℕ)
      → Collecting pf cfg c extra held
      → Unreferenced pf cfg c d
      → (c.slabs d).block_id ≢ none
      → c'.index ≡ c.index
      → c'.slabs ≡ update c.slabs d (reset (c.slabs d))
      → c'.disk ≡ c.disk
      → SameMemory pf cfg c c'
      → Placed cfg c' extra' held'
      → ((x q : ℕ) → 0 < count q (extra' x).items → (0 < count q (extra x).items) ⊎ (d ≡ q))
      → Merged pf cfg c c' extra' held'
  unfolding reset
  recycled c c' extra extra' held held' d s u block idx slabs disk memory w sub =
      let turn =
        touch-Turn pf cfg c c' d (reset (c.slabs d)) s.sound idx slabs disk refl refl (omega arith)
          (λ i. refl) (inl block) (inl u) memory in
      record {
        turn = turn;
        state = record {
          sound = turn.sound;
          imaged = turn.imaged s.imaged;
          idle = λ q e p at. s.idle q e (ground (arith, idx, p)) at;
          placed = w;
          cleared = λ x y h q e p at. elim (sub x y h) [
            | inl old ↦ s.cleared x y old q e (ground (arith, idx, p)) at
            | inr z ↦ u q e (ground (arith, idx, p)) (at ∙ sym z)
          ];
        };
      }

  pub on_disk :
      (slabs : ℕ → Slab) (channel d : ℕ) → OnChannel cfg slabs channel d → (slabs d).block_id ≢ none
  on_disk slabs channel d (b, p, q) z = cc

  pub reset_place :
      (slabs : ℕ → Slab) (channel d : ℕ)
      → OnChannel cfg slabs channel d
      → OnChannel cfg (update slabs d (reset (slabs d))) channel d
  unfolding reset
  reset_place slabs channel d (b, p, q) = (b, ground (arith, p), q)

  -- The slab in hand is reset.
  pub reset-Spread :
      (slabs : ℕ → Slab) (free full pool extra : ℕ → List ℕ) (held : List ℕ) (d : ℕ)
      → Spread cfg slabs free full pool extra held
      → Spread cfg (update slabs d (reset (slabs d))) free full pool extra held
  unfolding reset
  reset-Spread slabs free full pool extra held d w =
      Spread-slabs cfg slabs free full pool extra held _ w (λ y. ground arith)
        (λ x q h z. ground (arith, z))

  pub repay_ops_pool-Merged :
      (fuel channel n : ℕ) (c c' : Cache Disk) (free_list free_list' : ℕ → Ring) (held : List ℕ)
      → Collecting pf cfg c free_list held
      → repay_ops_pool pf cfg fuel channel n c free_list ≡ done (c', free_list')
      → Merged pf cfg c c' free_list' held
  unfolding repay_ops_pool
  repay_ops_pool-Merged fuel channel zero c c' free_list free_list' held s e =
      stays pf cfg c c' free_list free_list' held s (done_injective (ground (arith, e)))
  repay_ops_pool-Merged zero channel (suc n) c c' free_list free_list' held s e =
      absurd (ground (arith, e))
  repay_ops_pool-Merged (suc fuel) channel (suc n) c c' free_list free_list' held s e =
      elim (Option-cases (first_entry (free_list channel).items)) [
        | inl z ↦
            repay_ops_pool-Merged fuel (next_channel cfg channel) (suc n) c c' free_list free_list'
              held s (ground (arith, e, z))
        | inr (d, z) ↦
            let next = record c {
              slabs = update c.slabs d (reset (c.slabs d));
              ops_pool = update c.ops_pool channel (push d (c.ops_pool channel));
              ops_pool_size = c.ops_pool_size + 1;
            } in
            let extra =
              update free_list channel
                (record (detach d (free_list channel)) { size = (free_list channel).size }) in
            let on = first_entry-count d (free_list channel).items z in
            let place = s.placed.extra_dslab channel d on in
            let w =
              give_pool-Spread cfg next.slabs _ _ _ _ held (λ x. (next.ops_pool x).items) channel d
                (reset-Spread c.slabs _ _ _ _ (d ∷ held) d (
                  take_extra-Spread cfg c.slabs _ _ _ _ held (λ x. (extra x).items) channel d
                    s.placed (λ x. unfold detach in ground arith) on))
                (reset_place c.slabs channel d place) (unfold reset in ground arith)
                (λ x. unfold push in ground arith) in
            let step =
              recycled c next free_list extra held held d s (s.cleared channel d on)
                (on_disk c.slabs channel d place) refl refl refl
                (record { free = refl; full = refl; partial = refl }) w
                (λ x q h. inl (
                  unfold detach in
                  ground (arith, h, count-list_del d q (free_list channel).items))) in
            Merged-trans pf cfg c next c' extra free_list' held step (
              repay_ops_pool-Merged fuel (next_channel cfg channel) n next c' extra free_list' held
                step.state (ground (arith, e, z)))
      ]

  pushed :
      (d q : ℕ) (rings : ℕ → Ring) (channel x : ℕ)
      → 0 < count q (rings x).items + (if d == q then 1 else 0)
      → (0 < count q (rings x).items) ⊎ (d ≡ q)
  pushed d q rings channel x h = elim (Bool-cases (d == q)) [
    | inl y ↦ inr (ground arith)
    | inr n ↦ inl (ground (arith, h, n))
  ]

  skipped :
      (c : Cache Disk) (channel : ℕ) (free_list : ℕ → Ring) (held : List ℕ)
      → Collecting pf cfg c free_list held
      → Merged pf cfg c (record c { next_ops_pool_remove_channel = channel }) free_list held
  skipped c channel free_list held s =
      same-Merged pf cfg c _ free_list held s refl refl refl
        (record { free = refl; full = refl; partial = refl })
        (record { free = refl; full = refl; pool = refl })

  shrunk :
      (c : Cache Disk) (channel d : ℕ) (free_list : ℕ → Ring) (held : List ℕ)
      → Collecting pf cfg c free_list held
      → first_entry (c.ops_pool channel).items ≡ some d
      → Merged pf cfg c
          (record c {
            next_ops_pool_remove_channel = channel;
            slabs = update c.slabs d (reset (c.slabs d));
            ops_pool = update c.ops_pool channel (detach d (c.ops_pool channel));
            ops_pool_size = c.ops_pool_size - 1;
          })
          (update free_list channel (push d (free_list channel)))
          held
  shrunk c channel d free_list held s z =
      let next = record c {
        next_ops_pool_remove_channel = channel;
        slabs = update c.slabs d (reset (c.slabs d));
        ops_pool = update c.ops_pool channel (detach d (c.ops_pool channel));
        ops_pool_size = c.ops_pool_size - 1;
      } in
      let extra = update free_list channel (push d (free_list channel)) in
      let on = first_entry-count d (c.ops_pool channel).items z in
      let (place, unused) = s.placed.pool_dslab channel d on in
      let w =
        give_extra-Spread cfg next.slabs _ _ _ _ held (λ x. (extra x).items) channel d
          (reset-Spread c.slabs _ _ _ _ (d ∷ held) d (
            take_pool-Spread cfg c.slabs _ _ _ _ held (λ x. (next.ops_pool x).items) channel d
              s.placed (λ x. unfold detach in ground arith) on))
          (reset_place c.slabs channel d place) (λ x. unfold push in ground arith) in
      recycled c next free_list extra held held d s (unused-Unreferenced pf cfg c d s.sound unused)
        (on_disk c.slabs channel d place) refl refl refl
        (record { free = refl; full = refl; partial = refl }) w
        (λ x q h. pushed d q free_list channel x (unfold push count in ground (arith, h)))

  pub shrink_ops_pool-Merged :
      (n : ℕ) (c : Cache Disk) (free_list : ℕ → Ring) (held : List ℕ)
      → Collecting pf cfg c free_list held
      → let r = shrink_ops_pool pf cfg n c free_list in Merged pf cfg c r.0 r.1 held
  unfolding shrink_ops_pool
  shrink_ops_pool-Merged zero c free_list held s = stays pf cfg c c free_list free_list held s refl
  shrink_ops_pool-Merged (suc n) c free_list held s =
      let channel = next_channel cfg c.next_ops_pool_remove_channel in
      let turned = record c { next_ops_pool_remove_channel = channel } in
      let none_turn = skipped c channel free_list held s in
      elim (Option-cases (first_entry (c.ops_pool channel).items)) [
        | inl z ↦
            rw (z, shrink_ops_pool)
              (Merged-trans pf cfg c turned _ free_list _ held none_turn
                (shrink_ops_pool-Merged n turned free_list held none_turn.state))
        | inr (d, z) ↦
            let next = record turned {
              slabs = update c.slabs d (reset (c.slabs d));
              ops_pool = update c.ops_pool channel (detach d (c.ops_pool channel));
              ops_pool_size = c.ops_pool_size - 1;
            } in
            let extra = update free_list channel (push d (free_list channel)) in
            let step = shrunk c channel d free_list held s z in
            rw (z, shrink_ops_pool)
              (Merged-trans pf cfg c next _ extra _ held step
                (shrink_ops_pool-Merged n next extra held step.state))
      ]

  -- Freed slabs that are forgotten stand on no list.
  pub fewer-Merged :
      (c : Cache Disk) (extra extra' : ℕ → Ring) (held : List ℕ)
      → Collecting pf cfg c extra held
      → ((x d : ℕ) → count d (extra' x).items ≤ count d (extra x).items)
      → Merged pf cfg c c extra' held
  fewer-Merged c extra extra' held s less = record {
    turn =
        same-Turn pf cfg c c s.sound refl refl refl
          (record { free = refl; full = refl; partial = refl });
    state = record {
      sound = s.sound;
      imaged = s.imaged;
      idle = s.idle;
      placed = fewer_extra-Spread cfg c.slabs _ _ _ _ held (λ x. (extra' x).items) s.placed less;
      cleared = λ x d h. s.cleared x d (omega (arith, h, less x d));
    };
  }

  released :
      (channel d : ℕ) (ds : List ℕ) (c : Cache Disk) (extra : ℕ → Ring) (held : List ℕ)
      → Collecting pf cfg c extra held
      → (extra channel).items ≡ d ∷ ds
      → Merged pf cfg c
          (record c {
            slabs = update c.slabs d (reset (c.slabs d));
            dslab_free = update c.dslab_free channel (push d (c.dslab_free channel));
            nr_free_dslab = c.nr_free_dslab + 1;
          })
          (update extra channel (record { items = ds; size = 0 }))
          held
  unfolding count
  released channel d ds c extra held s e =
      let next = record c {
        slabs = update c.slabs d (reset (c.slabs d));
        dslab_free = update c.dslab_free channel (push d (c.dslab_free channel));
        nr_free_dslab = c.nr_free_dslab + 1;
      } in
      let extra' : ℕ → Ring = update extra channel (record { items = ds; size = 0 }) in
      let on : 0 < count d (extra channel).items = rw e (ground arith) in
      let place = s.placed.extra_dslab channel d on in
      let w =
        give_free-Spread cfg next.slabs _ _ _ _ held (λ x. (next.dslab_free x).items) channel d
          (reset-Spread c.slabs _ _ _ _ (d ∷ held) d (
            take_extra-Spread cfg c.slabs _ _ _ _ held (λ x. (extra' x).items) channel d s.placed
              (λ x. unfold list_del in ground (arith, e)) on))
          (reset_place c.slabs channel d place) (unfold reset in ground arith)
          (λ x. unfold push in ground arith) in
      recycled c next extra extra' held held d s (s.cleared channel d on)
        (on_disk c.slabs channel d place) refl refl refl
        (record { free = refl; full = refl; partial = refl }) w
        (λ x q h. inl (ground (arith, h, ap (count q) e)))

  release_channel-Merged :
      (channel : ℕ) (ds : List ℕ) (c : Cache Disk) (extra : ℕ → Ring) (held : List ℕ)
      → Collecting pf cfg c extra held
      → (extra channel).items ≡ ds
      → Merged pf cfg c (release_channel pf cfg channel ds c) (update extra channel empty_ring) held
  unfolding release_channel
  release_channel-Merged channel [] c extra held s e =
      fewer-Merged c extra _ held s (λ x d. unfold count in ground (arith, ap (count d) e))
  release_channel-Merged channel (d ∷ ds) c extra held s e =
      let step = released channel d ds c extra held s e in
      let extra' : ℕ → Ring = update extra channel (record { items = ds; size = 0 }) in
      let rest = release_channel-Merged channel ds _ extra' held step.state (ground arith) in
      Merged-trans pf cfg c _ _ (update extra' channel empty_ring) _ held
        (Merged-trans pf cfg c _ _ extra' (update extra' channel empty_ring) held step rest)
        (fewer-Merged _ (update extra' channel empty_ring) _ held rest.state (λ x q. ground arith))

  -- After the channels below `n`, nothing freed is left there.
  abbrev above : ℕ → (ℕ → Ring) → ℕ → Ring
  above n extra x = if ltb x n then empty_ring else extra x

  pub release_channels-Merged :
      (n : ℕ) (free_list : ℕ → Ring) (c : Cache Disk) (held : List ℕ)
      → Collecting pf cfg c free_list held
      → Merged pf cfg c (release_channels pf cfg n free_list c) (above n free_list) held
  unfolding release_channels
  release_channels-Merged zero free_list c held s =
      fewer-Merged c free_list _ held s (λ x d. unfold count in ground arith)
  release_channels-Merged (suc n) free_list c held s =
      let below = release_channels-Merged n free_list c held s in
      let last =
        release_channel-Merged n (free_list n).items (release_channels pf cfg n free_list c)
          (above n free_list) held below.state (ground arith) in
      Merged-trans pf cfg c _ _ (update (above n free_list) n empty_ring) _ held
        (Merged-trans pf cfg c _ _ (above n free_list) _ held below last)
        (fewer-Merged _ (update (above n free_list) n empty_ring) _ held last.state
          (λ x d. ground arith))
