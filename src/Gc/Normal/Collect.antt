-- ===== src/Gc/Normal/Collect.antt =====
-- The slabs that `normal_gc` (src/kvcache.cpp) merges into one: how many used slots they have.
use kvcache.Base.{
  ℕ, ◌*◌, max, ◌+◌, ◌<◌, ◌≤◌, ◌≡◌, refl, ap, List, [], ◌∷◌, ◌++◌, Bool-cases, inl, inr, ltb, arith,
}
use kvcache.Slab.{Slab}
use kvcache.Lists.{count}
use kvcache.State.{Config, Cache}
use kvcache.Gc.Normal.{collect, of_class, offer_channels}

-- The used slots of the slabs.
abbrev pub used_slots : (ℕ → Slab) → List ℕ → ℕ
used_slots slabs [] = 0
used_slots slabs (d ∷ ds) = (slabs d).nr_used + used_slots slabs ds

-- The slots of the slab that has most.
abbrev pub most_slots : (ℕ → Slab) → List ℕ → ℕ
most_slots slabs [] = 0
most_slots slabs (d ∷ ds) = max (slabs d).nr_slots (most_slots slabs ds)

collect_within :
    (slabs : ℕ → Slab) (moved : ℕ) (ds : List ℕ)
    → moved + used_slots slabs (collect slabs moved ds)
      ≤ max moved (most_slots slabs (collect slabs moved ds))
unfolding collect
collect_within slabs moved [] = omega arith
collect_within slabs moved (d ∷ ds) =
    elim (Bool-cases (ltb (slabs d).nr_slots ((slabs d).nr_used + moved))) [
      | inl y ↦ rw y (omega arith)
      | inr z ↦
          let r = collect_within slabs (moved + (slabs d).nr_used) ds in
          let room : (slabs d).nr_used + moved ≤ (slabs d).nr_slots = ground (arith, z) in
          rw z (omega (arith, r, room))
    ]

module _ (cfg : Config) {D : Type 0} where
  -- The slabs of class `i` that a round of `normal_gc` selects first, to be merged into one.
  abbrev pub selected : Cache D → ℕ → List ℕ
  selected c i = collect c.slabs 0 (
      of_class c.slabs i
        (offer_channels c.slabs (3 * c.ops_pool_size) c.dslab_full cfg.nr_channels))

  -- What a round selects from each class has no more used slots than a slab of it has slots.
  abbrev pub SelectsFit : Cache D → Type 0
  SelectsFit c = (i : ℕ) → used_slots c.slabs (selected c i) ≤ most_slots c.slabs (selected c i)

  pub normal_gc-SelectsFit : (c : Cache D) → SelectsFit c
  normal_gc-SelectsFit c i = omega (
    arith,
    collect_within c.slabs 0 (
        of_class c.slabs i
          (offer_channels c.slabs (3 * c.ops_pool_size) c.dslab_full cfg.nr_channels)),
  )

-- The slabs that are collected when `moved` slots are there already, and those that are left.
record Collects (slabs : ℕ → Slab) (n moved : ℕ) (ds : List ℕ) : Type 0 where
  rest : List ℕ
  split : ds ≡ collect slabs moved ds ++ rest
  fit : moved + used_slots slabs (collect slabs moved ds) ≤ n
  most :
      (d : ℕ) (others : List ℕ)
      → rest ≡ d ∷ others
      → n < moved + used_slots slabs (collect slabs moved ds) + (slabs d).nr_used

collect-Collects :
    (slabs : ℕ → Slab) (n moved : ℕ) (ds : List ℕ)
    → moved ≤ n
    → ((d : ℕ) → 0 < count d ds → (slabs d).nr_slots ≡ n)
    → Collects slabs n moved ds
unfolding collect
collect-Collects slabs n moved [] h same = record {
  rest = [];
  split = refl;
  fit = omega (arith, h);
  most = λ d others e. absurd (cc e);
}
collect-Collects slabs n moved (d ∷ ds) h same =
    let size = same d (unfold count in ground arith) in
    elim (Bool-cases (ltb (slabs d).nr_slots ((slabs d).nr_used + moved))) [
      | inl y ↦ record {
        rest = d ∷ ds;
        split = rw y refl;
        fit = rw y (omega (arith, h));
        most = λ x others e. ground (arith, y, size, e);
      }
      | inr z ↦
          let r =
            collect-Collects slabs n (moved + (slabs d).nr_used) ds (ground (arith, z, size))
              (λ x i. same x (unfold count in ground (arith, i))) in
          record {
            rest = r.rest;
            split = rw z (ap (λ xs. d ∷ xs) r.split);
            fit = rw z (omega (arith, r.fit));
            most = λ x others e. rw z (omega (arith, r.most x others e));
          }
    ]

-- Where the slabs of a class have `n` slots each, those that are merged into one slab are the first ones
-- of them; together they have at most `n` used slots; and with the one behind them they would have more
-- than `n`.
pub collect-fits :
    (slabs : ℕ → Slab) (n : ℕ) (ds : List ℕ)
    → ((d : ℕ) → 0 < count d ds → (slabs d).nr_slots ≡ n)
    → (used_slots slabs (collect slabs 0 ds) ≤ n)
      × ((rest : List ℕ) × (ds ≡ collect slabs 0 ds ++ rest)
          × ((d : ℕ) (others : List ℕ)
              → rest ≡ d ∷ others
              → n < used_slots slabs (collect slabs 0 ds) + (slabs d).nr_used))
collect-fits slabs n ds same =
    let r = collect-Collects slabs n 0 ds (omega arith) same in
    (omega (arith, r.fit), (r.rest, r.split, λ d others e. omega (arith, r.most d others e)))
