-- ===== src/Gc/Quick/Drop.antt =====
-- The loops of `do_quick_gc` (src/kvcache.cpp) that select full disk slabs and delete their entries.
use kvcache.Base.Int.{negsuc, ◌+ℤ◌}
use kvcache.Base.{
  ℕ, zero, suc, Bytes, ◌<◌, ◌≡◌, refl, sym, subst, true, false, List, [], ◌∷◌, some, arith, update,
  ◌==◌, Bool-cases, Option-cases, inl, inr,
}
use kvcache.Index.{IndexEntry, get_index_entry}
use kvcache.Slab.{Slab}
use kvcache.State.{
  Platform, Config, Cache, Ring, empty_ring, done, >>=-eq-done, done_injective, set_slab, detach,
  first_entry, next_channel,
}
use kvcache.Move.{read_dslab}
use kvcache.Reads.{Unreferenced}
use kvcache.Reads.Turn.{Turn, SameMemory, Turn-trans, Turn-lossy, Thins-Turn, same-Turn, touch-Turn}
use kvcache.Lists.{count, first_entry-count}
use kvcache.Lists.Channels.{Spread-slabs}
use kvcache.Lists.Channels.Take.{take_full-Spread}
use kvcache.Gc.Quick.{select_to_drop, evict_dslab, evict_all}
use kvcache.Gc.Quick.Evict.{dropped, evict_dslab_done, dropped-Thins, dropped-Unreferenced}
use kvcache.Gc.Copy.Turn.{Collecting}
use kvcache.Gc.Normal.Merge.{Merged, same-Merged, stays}

abbrev pub nothing : ℕ → Ring
nothing _ = empty_ring

module _ (pf : Platform) (cfg : Config) where
  open pf use {Disk, hashing, read_block}

  pub after :
      (a b c : Cache Disk) (held held' : List ℕ)
      → Merged pf cfg a b nothing held
      → Merged pf cfg b c nothing held'
      → Merged pf cfg a c nothing held'
  after a b c held held' f g = record {
    turn = Turn-trans pf cfg false a b c f.turn g.turn;
    state = g.state;
  }

  -- A full slab leaves its list, and the caller holds it.
  chosen_dslab :
      (c c' : Cache Disk) (channel d : ℕ) (held : List ℕ)
      → Collecting pf cfg c nothing held
      → first_entry (c.dslab_full channel).items ≡ some d
      → c'.index ≡ c.index
      → c'.slabs ≡ c.slabs
      → c'.disk ≡ c.disk
      → SameMemory pf cfg c c'
      → c'.dslab_free ≡ c.dslab_free
      → c'.ops_pool ≡ c.ops_pool
      → c'.dslab_full ≡ update c.dslab_full channel (detach d (c.dslab_full channel))
      → Merged pf cfg c c' nothing (d ∷ held)
  chosen_dslab c c' channel d held s e idx slabs disk memory free pool full =
      let turn = same-Turn pf cfg c c' s.sound idx slabs disk memory in
      let on = first_entry-count d (c.dslab_full channel).items e in
      let full_dslab : ℕ → Ring = update c.dslab_full channel (detach d (c.dslab_full channel)) in
      let w =
        take_full-Spread cfg c.slabs _ _ _ _ held (λ x. (full_dslab x).items) channel d s.placed
          (λ x. unfold detach in ground arith) on in
      record {
        turn = turn;
        state = record {
          sound = turn.sound;
          imaged = turn.imaged s.imaged;
          idle = λ q e p at. s.idle q e (ground (arith, idx, p)) at;
          placed = rw (slabs, free, pool, full) w;
          cleared = λ x y h q e p at. s.cleared x y h q e (ground (arith, idx, p)) at;
        };
      }

  pub select_to_drop-Merged :
      (fuel : ℕ) (c : Cache Disk) (n : ℕ) (to_drop : List ℕ) (c' : Cache Disk) (chosen : List ℕ)
      → Collecting pf cfg c nothing to_drop
      → select_to_drop pf cfg fuel c n to_drop ≡ done (c', chosen)
      → Merged pf cfg c c' nothing chosen
  unfolding select_to_drop
  select_to_drop-Merged fuel c zero to_drop c' chosen s p =
      let both = done_injective p in
      subst (λ (x : Cache Disk × List ℕ). Merged pf cfg c x.0 nothing x.1) both
        (stays pf cfg c c nothing nothing to_drop s refl)
  select_to_drop-Merged zero c (suc n) to_drop c' chosen s p = absurd (ground (arith, p))
  select_to_drop-Merged (suc fuel) c (suc n) to_drop c' chosen s p =
      let channel = next_channel cfg c.next_ops_pool_remove_channel in
      let turned = record c { next_ops_pool_remove_channel = channel } in
      elim (Option-cases (first_entry (c.dslab_full channel).items)) [
        | inl e ↦
            let t =
              same-Merged pf cfg c turned nothing to_drop s refl refl refl
                (record { free = refl; full = refl; partial = refl })
                (record { free = refl; full = refl; pool = refl }) in
            after c turned c' to_drop chosen t (
              select_to_drop-Merged fuel turned (suc n) to_drop c' chosen t.state
                (ground (arith, e, p)))
        | inr (d, e) ↦
            let next = record turned {
              dslab_full = update c.dslab_full channel (detach d (c.dslab_full channel));
              nr_full_dslab = c.nr_full_dslab +ℤ negsuc 0;
            } in
            let t =
              chosen_dslab c next channel d to_drop s e refl refl refl
                (record { free = refl; full = refl; partial = refl }) refl refl refl in
            after c next c' (d ∷ to_drop) chosen t (
              select_to_drop-Merged fuel next n (d ∷ to_drop) c' chosen t.state
                (ground (arith, e, p)))
      ]

  -- What quick GC does to reads and lists.
  pub record Lost (c c' : Cache Disk) (held : List ℕ) : Type 0 where
    pub turn : Turn pf cfg true c c'
    pub state : Collecting pf cfg c' nothing held

  pub Lost-trans :
      (a b c : Cache Disk) (held held' : List ℕ) → Lost a b held → Lost b c held' → Lost a c held'
  Lost-trans a b c held held' f g = record {
    turn = Turn-trans pf cfg true a b c f.turn g.turn;
    state = g.state;
  }

  pub Merged-Lost :
      (c c' : Cache Disk) (held : List ℕ) → Merged pf cfg c c' nothing held → Lost c c' held
  Merged-Lost c c' held m = record { turn = Turn-lossy pf cfg false c c' m.turn; state = m.state }

  -- One slab was read, and its entries went.
  emptied_dslab :
      (c : Cache Disk) (d b : ℕ) (image : Slab) (held : List ℕ)
      → Collecting pf cfg c nothing held
      → (c.slabs d).block_id ≡ some b
      → read_block c.disk b ≡ some image
      → let c' = dropped pf cfg c image in
        let after_read = set_slab c' d (record (c'.slabs d) { nr_used = 0 }) in
        Lost c after_read held × Unreferenced pf cfg after_read d
  emptied_dslab c d b image held s on read =
      let c' = dropped pf cfg c image in
      let thins = dropped-Thins pf cfg c d b image s.sound s.imaged on read in
      let gone = dropped-Unreferenced pf cfg c d b image s.sound s.imaged on read in
      let turn =
        Thins-Turn pf cfg c c' s.sound thins refl
          (record { free = refl; full = refl; partial = refl }) in
      let used = record (c.slabs d) { nr_used = 0 } in
      let last = set_slab c' d used in
      let touched =
        touch-Turn pf cfg c' last d used turn.sound refl refl refl refl refl (omega arith)
          (λ i. refl) (inl (λ z. ground (arith, z, on))) (inl gone)
          (record { free = refl; full = refl; partial = refl }) in
      let both = Turn-trans pf cfg true c c' last turn (Turn-lossy pf cfg false c' last touched) in
      (
        record {
          turn = both;
          state = record {
            sound = touched.sound;
            imaged = both.imaged s.imaged;
            idle = λ q e p at. s.idle q e (thins.fewer q e p) at;
            placed =
                Spread-slabs cfg c.slabs _ _ _ _ held last.slabs s.placed (λ y. ground arith)
                  (λ x y h z. ground (arith, z));
            cleared = λ x y h q e p at. s.cleared x y h q e (thins.fewer q e p) at;
          };
        },
        gone,
      )

  -- The entries went of all slabs of `ds`.
  pub record Evicts (c c' : Cache Disk) (ds held : List ℕ) : Type 0 where
    pub lost : Lost c c' held
    pub fewer :
        (q : Bytes) (e : IndexEntry)
        → get_index_entry hashing c'.index q ≡ some e
        → get_index_entry hashing c.index q ≡ some e
    pub cleared : (d : ℕ) → 0 < count d ds → Unreferenced pf cfg c' d

  pub evict_all-Evicts :
      (ds : List ℕ) (c c' : Cache Disk) (held : List ℕ)
      → Collecting pf cfg c nothing held
      → evict_all pf cfg c ds ≡ done c'
      → Evicts c c' ds held
  unfolding evict_all count
  evict_all-Evicts [] c c' held s p =
      subst (λ x. Evicts c x [] held) (done_injective p)
        (record {
          lost = Merged-Lost c c held (stays pf cfg c c nothing nothing held s refl);
          fewer = λ q e z. z;
          cleared = λ d h. absurd (omega (arith, h));
        })
  evict_all-Evicts (d ∷ ds) c c' held s p =
      let (fake_slab, q, r) = >>=-eq-done (read_dslab pf c (c.slabs d)) _ p in
      let (evicted, q', r') = >>=-eq-done (evict_dslab pf cfg c fake_slab) _ r in
      let (b, image, on, read, e) = evict_dslab_done pf cfg c evicted d fake_slab q q' in
      let dropped_state = dropped pf cfg c image in
      let (lost, gone) = emptied_dslab c d b image held s on read in
      let thins = dropped-Thins pf cfg c d b image s.sound s.imaged on read in
      let next = set_slab dropped_state d (record (dropped_state.slabs d) { nr_used = 0 }) in
      let rest = evict_all-Evicts ds next c' held lost.state (
        subst
          (λ x. evict_all pf cfg (set_slab x d (record (x.slabs d) { nr_used = 0 })) ds ≡ done c')
          (sym e) r') in
      record {
        lost = Lost-trans c next c' held held lost rest.lost;
        fewer = λ k x z. thins.fewer k x (rest.fewer k x z);
        cleared = λ y h. elim (Bool-cases (d == y)) [
          | inl same ↦ λ k x z at. gone k x (rest.fewer k x z) (ground (arith, at, same))
          | inr other ↦ rest.cleared y (ground (arith, other, h))
        ];
      }
