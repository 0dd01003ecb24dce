-- ===== src/Gc/Quick/Select.antt =====
-- The loop of `do_quick_gc` that selects disk slabs (src/kvcache.cpp) ends where enough of them are full.
use kvcache.Base.Int.{negsuc, ◌+ℤ◌}
use kvcache.Base.{
  ℕ, zero, suc, ◌+◌, ◌-◌, ◌*◌, ◌%◌, ◌<◌, ◌≤◌, ◌≡◌, ◌≢◌, ◌∙◌, refl, sym, ap, List, ◌∷◌, none, arith,
  length, ltb, update, Bool-cases, inl, inr, Option-cases,
}
use native.Mathlib.Nat.{mod-add-mod, mod-lt}
use kvcache.State.{Platform, Config, Cache, done, detach, first_entry, next_channel}
use kvcache.Channel.Search.{mod_below, mod_full}
use kvcache.Base.{some}
use kvcache.State.{no_fuel}
use kvcache.Gc.Quick.{select_to_drop}
use kvcache.Gc.Quick.Full.{full_slabs, full_slabs-detach, full_slabs_first}

-- From a channel below `n` every channel is some steps away, fewer than `n`.
steps_to :
    (n start channel : ℕ)
    → start < n
    → channel < n
    → (k : ℕ) × (k < n) × ((start + k) % n ≡ channel)
steps_to n start channel hs hc = elim (Bool-cases (ltb channel start)) [
  | inl y ↦
      let before : channel < start = ground (arith, y) in
      (
        channel + n - start,
        omega (arith, before),
        ap (λ x. x % n) (omega (arith, before)) ∙ mod_full channel n hc,
      )
  | inr m ↦
      let after : start ≤ channel = ground (arith, m) in
      (
        channel - start,
        omega (arith),
        ap (λ x. x % n) (omega (arith, after)) ∙ mod_below channel n hc,
      )
]

module _ (pf : Platform) (cfg : Config) where
  open pf use {Disk}

  -- What one slab more on `to_drop` leaves: the rounds, the cache, and the slab.
  record Picked (fuel : ℕ) (c : Cache Disk) (n : ℕ) (acc : List ℕ) (used : ℕ) : Type 0 where
    left : ℕ
    after : Cache Disk
    slab : ℕ
    same :
        select_to_drop pf cfg fuel c (suc n) acc ≡ select_to_drop pf cfg left after n (slab ∷ acc)
    spent : fuel ≤ left + used
    fewer :
        full_slabs after.dslab_full cfg.nr_channels + 1 ≡ full_slabs c.dslab_full cfg.nr_channels

  taken :
      (fuel : ℕ) (c : Cache Disk) (n : ℕ) (acc : List ℕ) (used d : ℕ)
      → 1 ≤ used
      → 0 < cfg.nr_channels
      → first_entry (c.dslab_full (next_channel cfg c.next_ops_pool_remove_channel)).items ≡ some d
      → Picked (suc fuel) c n acc used
  unfolding select_to_drop
  taken fuel c n acc used d some_round some_channel e =
      let channel = next_channel cfg c.next_ops_pool_remove_channel in
      record {
        left = fuel;
        after = record c {
          next_ops_pool_remove_channel = channel;
          dslab_full = update c.dslab_full channel (detach d (c.dslab_full channel));
          nr_full_dslab = c.nr_full_dslab +ℤ negsuc 0;
        };
        slab = d;
        same = rw (e, select_to_drop) refl;
        spent = omega (arith, some_round);
        fewer =
            full_slabs-detach c.dslab_full channel cfg.nr_channels d
              (unfold next_channel in mod-lt (c.next_ops_pool_remove_channel + 1) some_channel) e;
      }

  pick :
      (k fuel : ℕ) (c : Cache Disk) (n : ℕ) (acc : List ℕ)
      → 0 < cfg.nr_channels
      → k < fuel
      → first_entry
          (c.dslab_full
            ((next_channel cfg c.next_ops_pool_remove_channel + k) % cfg.nr_channels)).items
        ≢ none
      → Picked fuel c n acc (suc k)
  unfolding select_to_drop
  pick k zero c n acc some_channel enough found = absurd (omega (arith, enough))
  pick zero (suc fuel) c n acc some_channel enough found =
      let channel = next_channel cfg c.next_ops_pool_remove_channel in
      let below : channel < cfg.nr_channels =
        unfold next_channel in mod-lt (c.next_ops_pool_remove_channel + 1) some_channel in
      let here : (channel + 0) % cfg.nr_channels ≡ channel =
        ap (λ x. x % cfg.nr_channels) (omega arith) ∙ mod_below channel cfg.nr_channels below in
      elim (Option-cases (first_entry (c.dslab_full channel).items)) [
        | inr (d, e) ↦ taken fuel c n acc 1 d (omega arith) some_channel e
        | inl e ↦ absurd (found (ap (λ x. first_entry (c.dslab_full x).items) here ∙ e))
      ]
  pick (suc k) (suc fuel) c n acc some_channel enough found =
      let channel = next_channel cfg c.next_ops_pool_remove_channel in
      elim (Option-cases (first_entry (c.dslab_full channel).items)) [
        | inr (d, e) ↦ taken fuel c n acc (suc (suc k)) d (omega arith) some_channel e
        | inl e ↦
            let turned = record c { next_ops_pool_remove_channel = channel } in
            let at : (next_channel cfg channel + k) % cfg.nr_channels
                ≡ (channel + suc k) % cfg.nr_channels =
              unfold next_channel in
              mod-add-mod (channel + 1) cfg.nr_channels k
              ∙ ap (λ x. x % cfg.nr_channels) (omega arith) in
            let rest =
              pick k fuel turned n acc some_channel (omega (arith, enough))
                (λ z. found (ap (λ x. first_entry (c.dslab_full x).items) (sym at) ∙ z)) in
            record {
              left = rest.left;
              after = rest.after;
              slab = rest.slab;
              same = rw (e, select_to_drop) rest.same;
              spent = omega (arith, rest.spent);
              fewer = rest.fewer;
            }
      ]

  -- Where at least `n` disk slabs are full, the selection of `n` of them ends within a turn through the
  -- channels for each, and puts `n` slabs on `to_drop`.
  pub select_to_drop_ends :
      (n fuel : ℕ) (c : Cache Disk) (acc : List ℕ)
      → 0 < cfg.nr_channels
      → n ≤ full_slabs c.dslab_full cfg.nr_channels
      → n * cfg.nr_channels ≤ fuel
      → (c' : Cache Disk) × (to_drop : List ℕ) × (select_to_drop pf cfg fuel c n acc
          ≡ done (c', to_drop))
        × (length to_drop ≡ n + length acc)
  unfolding select_to_drop
  select_to_drop_ends zero fuel c acc some_channel full enough = (c, acc, refl, omega arith)
  select_to_drop_ends (suc n) fuel c acc some_channel full enough =
      let channels = cfg.nr_channels in
      let start = next_channel cfg c.next_ops_pool_remove_channel in
      let (channel, below, has) = full_slabs_first c.dslab_full channels (omega (arith, full)) in
      let (k, short, at) =
        steps_to channels start channel
          (unfold next_channel in mod-lt (c.next_ops_pool_remove_channel + 1) some_channel) below in
      let p =
        pick k fuel c n acc some_channel (grind (arith, short, enough))
          (λ z. has (ap (λ x. first_entry (c.dslab_full x).items) (sym at) ∙ z)) in
      let (c', to_drop, e, size) =
        select_to_drop_ends n p.left p.after (p.slab ∷ acc) some_channel
          (omega (arith, full, p.fewer)) (grind (arith, enough, p.spent, short)) in
      (c', to_drop, p.same ∙ e, omega (arith, size))

  -- Where fewer than `n` disk slabs are full, the selection of `n` of them never ends: no fuel is enough.
  pub select_to_drop_spins :
      (fuel n : ℕ) (c : Cache Disk) (acc : List ℕ)
      → 0 < cfg.nr_channels
      → full_slabs c.dslab_full cfg.nr_channels < n
      → select_to_drop pf cfg fuel c n acc ≡ no_fuel
  unfolding select_to_drop
  select_to_drop_spins fuel zero c acc some_channel few = absurd (omega (arith, few))
  select_to_drop_spins zero (suc n) c acc some_channel few = refl
  select_to_drop_spins (suc fuel) (suc n) c acc some_channel few =
      let channel = next_channel cfg c.next_ops_pool_remove_channel in
      let turned = record c { next_ops_pool_remove_channel = channel } in
      elim (Option-cases (first_entry (c.dslab_full channel).items)) [
        | inl e ↦
            rw (e, select_to_drop) (select_to_drop_spins fuel (suc n) turned acc some_channel few)
        | inr (d, e) ↦
            let less =
              full_slabs-detach c.dslab_full channel cfg.nr_channels d
                (unfold next_channel in mod-lt (c.next_ops_pool_remove_channel + 1) some_channel)
                e in
            rw (e, select_to_drop)
              (select_to_drop_spins fuel n
                (record turned {
                  dslab_full = update c.dslab_full channel (detach d (c.dslab_full channel));
                  nr_full_dslab = c.nr_full_dslab +ℤ negsuc 0;
                })
                (d ∷ acc) some_channel (omega (arith, less, few)))
      ]
