-- ===== src/Gc/Turn.antt =====
-- A whole round of garbage collection (`do_slab_gc` of src/kvcache.cpp): reads, and the lists of
-- disk slabs.
use kvcache.Gc.Normal.Collect.{SelectsFit, normal_gc-SelectsFit}
use kvcache.Base.Int.{pos_part}
use kvcache.Base.{
  ℕ, ◌≡◌, ◌⊎◌, ap, Bool, Bytes, false, none, arith, ◌==◌, ltb, Bool-cases, inl, inr, [],
}
use kvcache.Base.Int.{pos}
use kvcache.Status.{not_found_status}
use kvcache.State.{Platform, Config, Cache, Outcome, done, empty_ring, done_injective}
use kvcache.Api.{get_slice}
use kvcache.Gc.{gc_round, do_slab_gc}
use kvcache.Gc.Copy.Turn.{Collecting}
use kvcache.Gc.Normal.{normal_gc}
use kvcache.Gc.Normal.Merge.{stays}
use kvcache.Gc.Normal.Turn.{normal_gc-Merged}
use kvcache.Gc.Quick.Drop.{Lost, Merged-Lost}
use kvcache.Gc.Quick.Turn.{do_quick_gc-Lost, quick_gc-Lost}

module _ (pf : Platform) (cfg : Config) where
  open pf use {Disk}

  -- Between rounds: the cache is sound, images hold what headers count, nothing points to
  -- `gc_buffer_`, and the disk slabs are on the lists of their channels, with none in hand.
  abbrev pub Resting : Cache Disk → Type 0
  Resting c = Collecting pf cfg c (λ _. empty_ring) []

  gc_round-Lost :
      (fuel : ℕ) (c c' : Cache Disk) (more : Bool)
      → Resting c
      → gc_round pf cfg fuel c ≡ done (more, c')
      → Lost pf cfg c c' []
  unfolding gc_round
  gc_round-Lost fuel c c' more s p = elim (Bool-cases (c.index.nr_free == 0)) [
    | inl y ↦ do_quick_gc-Lost pf cfg fuel c c' more (pos 1) 0 s (ground (arith, p, y))
    | inr n ↦ elim (Bool-cases (ltb c.nr_free_dslab c.free_block_water_mark_low)) [
      | inl y ↦ quick_gc-Lost pf cfg fuel c c' more s (ground (arith, p, n, y))
      | inr z ↦
          Merged-Lost pf cfg c c' []
            (normal_gc-Merged pf cfg fuel c c' more [] s (ground (arith, p, n, z)))
    ]
  ]

  pub do_slab_gc-Lost :
      (fuel : ℕ) (c c' : Cache Disk) (more : Bool)
      → Resting c
      → do_slab_gc pf cfg fuel c ≡ done (more, c')
      → Lost pf cfg c c' []
  unfolding do_slab_gc
  do_slab_gc-Lost fuel c c' more s p = elim (Bool-cases c.shutdown) [
    | inl y ↦
        let same : ◌≡◌ {A = Outcome (Bool × Cache Disk)} (done (false, c)) (done (more, c')) =
          ground (arith, p, y) in
        Merged-Lost pf cfg c c' [] (
          stays pf cfg c c' (λ _. empty_ring) (λ _. empty_ring) [] s
            (ap (λ (x : Bool × Cache Disk). (x.1, λ (_ : ℕ). empty_ring)) (done_injective same)))
    | inr n ↦ elim (Bool-cases (pos_part c.nr_full_dslab == 0)) [
      | inl y ↦ absurd (ground (arith, p, n, y))
      | inr z ↦ gc_round-Lost fuel c c' more s (ground (arith, p, n, z))
    ]
  ]

  -- Where `normal_gc` returns on a cache at rest, every read answers as it did, and the cache is at
  -- rest again; and the slabs that it selected first of each class have together no more used slots
  -- than the largest of them has slots.
  pub get_slice-normal_gc :
      (fuel : ℕ) (c c' : Cache Disk) (more : Bool)
      → Resting c
      → normal_gc pf cfg fuel c ≡ done (more, c')
      → ((q : Bytes) → get_slice pf cfg c' q ≡ get_slice pf cfg c q) × Resting c' × SelectsFit cfg c
  get_slice-normal_gc fuel c c' more s p =
      let m = normal_gc-Merged pf cfg fuel c c' more [] s p in
      (m.turn.reads, m.state, normal_gc-SelectsFit cfg c)

  -- Where a round of garbage collection returns on a cache at rest, every read answers as it did or
  -- that the key is not found, and the cache is at rest again; and the slabs that a normal GC selects
  -- first of each class have together no more used slots than the largest of them has slots.
  pub get_slice-do_slab_gc :
      (fuel : ℕ) (c c' : Cache Disk) (more : Bool)
      → Resting c
      → do_slab_gc pf cfg fuel c ≡ done (more, c')
      → ((q : Bytes)
          → (get_slice pf cfg c' q ≡ get_slice pf cfg c q)
            ⊎ (get_slice pf cfg c' q ≡ done (not_found_status "Key not found", none)))
        × Resting c'
        × SelectsFit cfg c
  get_slice-do_slab_gc fuel c c' more s p =
      let l = do_slab_gc-Lost fuel c c' more s p in
      (l.turn.reads, l.state, normal_gc-SelectsFit cfg c)
