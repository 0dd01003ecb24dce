-- ===== src/Flush/Wait.antt =====
-- The wait of `do_slab_flush` (src/kvcache.cpp) for a free disk slab, with the rounds of collection
-- that run in it.
use kvcache.Base.{
  ℕ, zero, suc, ◌-◌, ◌≡◌, ◌∙◌, refl, sym, ap, subst, true, false, [], ◌∷◌, Option, none, some,
  arith, update, Bool-cases, Option-cases, if◌then◌else◌, inl, inr,
}
use kvcache.State.{
  Platform, Config, Cache, empty_ring, done, ◌>>=◌, >>=-eq-done, done_injective, detach,
  first_entry,
}
use kvcache.Channel.{find_channel}
use kvcache.Reads.Turn.{Turn, Turn-trans, Turn-lossy, same-Turn}
use kvcache.Lists.{first_entry-count}
use kvcache.Lists.Channels.{OnChannel}
use kvcache.Lists.Channels.Take.{take_free-Spread}
use kvcache.Gc.{do_slab_gc}
use kvcache.Gc.Copy.{has_items}
use kvcache.Gc.Copy.Turn.{Collecting}
use kvcache.Gc.Normal.Merge.{same-Merged}
use kvcache.Gc.Quick.Drop.{Lost, Lost-trans, Merged-Lost}
use kvcache.Gc.Turn.{Resting, do_slab_gc-Lost}
use kvcache.Flush.{take_free_dslab, await_free_dslab}

module _ (pf : Platform) (cfg : Config) where
  open pf use {Disk, hashing, write_block}

  -- The search ends with nothing.
  abbrev turned : Cache Disk → ℕ → Cache Disk
  turned c following = record c { next_mslab_flush_channel = following }

  -- The search ends with disk slab `d` of `channel`, which leaves its list.
  abbrev taken : Cache Disk → ℕ → ℕ → ℕ → Cache Disk
  taken c following channel d = record c {
    next_mslab_flush_channel = following;
    dslab_free = update c.dslab_free channel (detach d (c.dslab_free channel));
    nr_free_dslab = c.nr_free_dslab - 1;
  }

  -- What the search does, by its result.
  Searched : Cache Disk → Option (ℕ × ℕ) × Cache Disk → Type 0
  Searched c (none, c') = (following : ℕ) × (c' ≡ turned c following)
  Searched c (some (channel, d), c') =
      (following : ℕ) × (first_entry (c.dslab_free channel).items ≡ some d)
      × (c' ≡ taken c following channel d)

  take_free_dslab-Searched : (c : Cache Disk) → Searched c (take_free_dslab pf cfg c)
  unfolding take_free_dslab Searched
  take_free_dslab-Searched c =
      let found = find_channel cfg (has_items c.dslab_free) c.next_mslab_flush_channel in
      elim (Option-cases found.0) [
        | inl e ↦ rw (e, take_free_dslab) (found.1, refl)
        | inr (channel, e) ↦ elim (Option-cases (first_entry (c.dslab_free channel).items)) [
          | inl z ↦ rw (e, take_free_dslab) (rw (z, take_free_dslab) (found.1, refl))
          | inr (d, z) ↦ rw (e, take_free_dslab) (rw (z, take_free_dslab) (found.1, z, refl))
        ]
      ]

  -- The wait ended: rounds of collection ran, and a disk slab is in hand where one was found.
  pub record Awaited (c c' : Cache Disk) (channel d : ℕ) : Type 0 where
    pub turn : Turn pf cfg true c c'
    pub state : Collecting pf cfg c' (λ _. empty_ring) (d ∷ [])
    pub place : OnChannel cfg c'.slabs channel d
    pub unused : (c'.slabs d).nr_alloc ≡ 0

  unfoldable pub Waited : Cache Disk → Option (ℕ × ℕ) × Cache Disk → Type 0
  Waited c (none, c') = Lost pf cfg c c' []
  Waited c (some (channel, d), c') = Awaited c c' channel d

  Waited-after :
      (a b : Cache Disk) (r : Option (ℕ × ℕ) × Cache Disk)
      → Lost pf cfg a b []
      → Waited b r
      → Waited a r
  unfolding Waited
  Waited-after a b (none, c) l w = Lost-trans pf cfg a b c [] [] l w
  Waited-after a b (some (channel, d), c) l w = record {
    turn = Turn-trans pf cfg true a b c l.turn w.turn;
    state = w.state;
    place = w.place;
    unused = w.unused;
  }

  turned-Lost :
      (c : Cache Disk) (following : ℕ) → Resting pf cfg c → Lost pf cfg c (turned c following) []
  turned-Lost c following s = Merged-Lost pf cfg c (turned c following) [] (
      same-Merged pf cfg c (turned c following) (λ _. empty_ring) [] s refl refl refl
        (record { free = refl; full = refl; partial = refl })
        (record { free = refl; full = refl; pool = refl }))

  taken-Awaited :
      (c : Cache Disk) (following channel d : ℕ)
      → Resting pf cfg c
      → first_entry (c.dslab_free channel).items ≡ some d
      → Awaited c (taken c following channel d) channel d
  taken-Awaited c following channel d s e =
      let c' = taken c following channel d in
      let turn =
        same-Turn pf cfg c c' s.sound refl refl refl
          (record { free = refl; full = refl; partial = refl }) in
      let on = first_entry-count d (c.dslab_free channel).items e in
      let (place, unused) = s.placed.free_dslab channel d on in
      record {
        turn = Turn-lossy pf cfg false c c' turn;
        state = record {
          sound = turn.sound;
          imaged = turn.imaged s.imaged;
          idle = s.idle;
          placed =
              take_free-Spread cfg c.slabs _ _ _ _ [] (λ x. (c'.dslab_free x).items) channel d
                s.placed (λ x. unfold detach in ground arith) on;
          cleared = s.cleared;
        };
        place = place;
        unused = unused;
      }

  await_hit :
      (gc_fuel fuel : ℕ) (c c₁ : Cache Disk) (found : ℕ × ℕ)
      → take_free_dslab pf cfg c ≡ (some found, c₁)
      → await_free_dslab pf cfg gc_fuel (suc fuel) c ≡ done (some found, c₁)
  unfolding await_free_dslab
  await_hit gc_fuel fuel c c₁ found e =
      rw (ap (λ (x : Option (ℕ × ℕ) × Cache Disk). x.0) e, await_free_dslab)
        (ap (λ (x : Option (ℕ × ℕ) × Cache Disk). done (some found, x.1)) e)

  await_miss :
      (gc_fuel fuel : ℕ) (c c₁ : Cache Disk)
      → take_free_dslab pf cfg c ≡ (none, c₁)
      → await_free_dslab pf cfg gc_fuel (suc fuel) c ≡ (
          do_slab_gc pf cfg gc_fuel c₁ >>= λ r.
          if r.1.shutdown then done (none, r.1) else await_free_dslab pf cfg gc_fuel fuel r.1)
  unfolding await_free_dslab
  await_miss gc_fuel fuel c c₁ e =
      rw (ap (λ (x : Option (ℕ × ℕ) × Cache Disk). x.0) e, await_free_dslab)
        (ap
          (λ (x : Option (ℕ × ℕ) × Cache Disk). do_slab_gc pf cfg gc_fuel x.1 >>= λ r.
            if r.1.shutdown then done (none, r.1) else await_free_dslab pf cfg gc_fuel fuel r.1)
          e)

  pub await_free_dslab-Waited :
      (gc_fuel fuel : ℕ) (c : Cache Disk) (r : Option (ℕ × ℕ) × Cache Disk)
      → Resting pf cfg c
      → await_free_dslab pf cfg gc_fuel fuel c ≡ done r
      → Waited c r
  unfolding await_free_dslab Waited Searched
  await_free_dslab-Waited gc_fuel zero c r s p = absurd (ground (arith, p))
  await_free_dslab-Waited gc_fuel (suc fuel) c r s p =
      go (take_free_dslab pf cfg c) refl (take_free_dslab-Searched c)
        (λ b t q. await_free_dslab-Waited gc_fuel fuel b r t q)
    where
      go :
          (t : Option (ℕ × ℕ) × Cache Disk)
          → take_free_dslab pf cfg c ≡ t
          → Searched c t
          → ((b : Cache Disk)
              → Resting pf cfg b
              → await_free_dslab pf cfg gc_fuel fuel b ≡ done r
              → Waited b r)
          → Waited c r
      go (some (channel, d), c₁) e (following, listed, is) later =
          subst (Waited c) (done_injective (sym (await_hit gc_fuel fuel c c₁ (channel, d) e) ∙ p)) (
            subst (λ x. Awaited c x channel d) (sym is)
              (taken-Awaited c following channel d s listed))
      go (none, c₁) e (following, is) later =
          let first = subst (λ x. Lost pf cfg c x []) (sym is) (turned-Lost c following s) in
          let (collected, q, z) =
            >>=-eq-done (do_slab_gc pf cfg gc_fuel c₁) _
              (sym (await_miss gc_fuel fuel c c₁ e) ∙ p) in
          let round = do_slab_gc-Lost pf cfg gc_fuel c₁ collected.1 collected.0 first.state q in
          let both = Lost-trans pf cfg c c₁ collected.1 [] [] first round in
          elim (Bool-cases collected.1.shutdown) [
            | inl y ↦
                let last : (none, collected.1) ≡ r = done_injective (ground (arith, y, z)) in
                subst (Waited c) last both
            | inr n ↦
                Waited-after c collected.1 r both
                  (later collected.1 both.state (ground (arith, n, z)))
          ]
