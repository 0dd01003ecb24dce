-- ===== src/Lists/Channels.antt =====
-- The disk slabs of each channel: on the lists of src/kvcache.cpp that are free, full and
-- over-provisioned, on a list of the caller, and in hand.
pub mod Take
pub mod Give
use kvcache.Base.{
  ℕ, zero, suc, ◌+◌, ◌-◌, ◌<◌, ◌≤◌, ◌≡◌, ◌∙◌, ◌⊎◌, inl, inr, List, ◌∷◌, some, arith, update, ◌==◌,
  ◌&&◌, if◌then◌else◌, Bool-cases,
}
use kvcache.Slab.{Slab}
use kvcache.State.{Config, list_del, channel_id}
use kvcache.Lists.Count.{count, count-list_del}

positive_part : (a b c d : ℕ) → 0 < a + b + c + d → (((0 < a) ⊎ (0 < b)) ⊎ (0 < c)) ⊎ (0 < d)
positive_part (suc a) b c d h = inl (inl (inl (omega arith)))
positive_part zero (suc b) c d h = inl (inl (inr (omega arith)))
positive_part zero zero (suc c) d h = inl (inr (omega arith))
positive_part zero zero zero d h = inr (omega (arith, h))

module _ (cfg : Config) where
  -- `d` is a disk slab of a channel.
  abbrev pub OnChannel : (ℕ → Slab) → ℕ → ℕ → Type 0
  OnChannel slabs channel d = (b : ℕ) × ((slabs d).block_id ≡ some b) × (channel_id cfg b ≡ channel)

  -- Each disk slab stands on one list at most, and that of its own channel; what is free or
  -- over-provisioned has no slot in use.
  pub record Spread (slabs : ℕ → Slab) (free full pool extra : ℕ → List ℕ) (held : List ℕ)
      : Type 0 where
    pub once :
        (channel d : ℕ)
        → count d (free channel)
            + count d (full channel)
            + count d (pool channel)
            + count d (extra channel)
            + count d held
          ≤ 1
    pub free_dslab :
        (channel d : ℕ)
        → 0 < count d (free channel)
        → OnChannel slabs channel d × ((slabs d).nr_alloc ≡ 0)
    pub full_dslab : (channel d : ℕ) → 0 < count d (full channel) → OnChannel slabs channel d
    pub pool_dslab :
        (channel d : ℕ)
        → 0 < count d (pool channel)
        → OnChannel slabs channel d × ((slabs d).nr_alloc ≡ 0)
    pub extra_dslab : (channel d : ℕ) → 0 < count d (extra channel) → OnChannel slabs channel d
    pub held_dslab : (d : ℕ) → 0 < count d held → (b : ℕ) × ((slabs d).block_id ≡ some b)

  module _ (slabs : ℕ → Slab) (free full pool extra : ℕ → List ℕ) (held : List ℕ) where
    -- The slabs changed, and what is listed as unused still is.
    pub Spread-slabs :
        (slabs' : ℕ → Slab)
        → Spread slabs free full pool extra held
        → ((s : ℕ) → (slabs' s).block_id ≡ (slabs s).block_id)
        → ((channel d : ℕ)
            → 0 < count d (free channel) + count d (pool channel)
            → (slabs d).nr_alloc ≡ 0
            → (slabs' d).nr_alloc ≡ 0)
        → Spread slabs' free full pool extra held
    Spread-slabs slabs' w same unused = record {
      once = w.once;
      free_dslab = λ x d h.
          let ((b, p, q), z) = w.free_dslab x d h in
          ((b, same d ∙ p, q), unused x d (omega (arith, h)) z);
      full_dslab = λ x d h. let (b, p, q) = w.full_dslab x d h in (b, same d ∙ p, q);
      pool_dslab = λ x d h.
          let ((b, p, q), z) = w.pool_dslab x d h in
          ((b, same d ∙ p, q), unused x d (omega (arith, h)) z);
      extra_dslab = λ x d h. let (b, p, q) = w.extra_dslab x d h in (b, same d ∙ p, q);
      held_dslab = λ d h. let (b, p) = w.held_dslab d h in (b, same d ∙ p);
    }

    -- A slab that stands on a list of channel `x` is on that channel.
    pub elsewhere :
        (x d b : ℕ)
        → Spread slabs free full pool extra held
        → (slabs d).block_id ≡ some b
        → 0 < count d (free x) + count d (full x) + count d (pool x) + count d (extra x)
        → x ≡ channel_id cfg b
    elsewhere x d b w p h = elim (positive_part (count d (free x)) _ _ _ h) [
      | inl (inl (inl y)) ↦ let ((b', q, r), _) = w.free_dslab x d y in ground (arith, p, q, r)
      | inl (inl (inr y)) ↦ let (b', q, r) = w.full_dslab x d y in ground (arith, p, q, r)
      | inl (inr y) ↦ let ((b', q, r), _) = w.pool_dslab x d y in ground (arith, p, q, r)
      | inr y ↦ let (b', q, r) = w.extra_dslab x d y in ground (arith, p, q, r)
    ]

    pub listed_block :
        (x d : ℕ)
        → Spread slabs free full pool extra held
        → 0 < count d (free x) + count d (full x) + count d (pool x) + count d (extra x)
        → (b : ℕ) × ((slabs d).block_id ≡ some b)
    listed_block x d w h = elim (positive_part (count d (free x)) _ _ _ h) [
      | inl (inl (inl y)) ↦ let ((b, q, r), _) = w.free_dslab x d y in (b, q)
      | inl (inl (inr y)) ↦ let (b, q, r) = w.full_dslab x d y in (b, q)
      | inl (inr y) ↦ let ((b, q, r), _) = w.pool_dslab x d y in (b, q)
      | inr y ↦ let (b, q, r) = w.extra_dslab x d y in (b, q)
    ]

    -- What is in hand may be lost.
    pub lose-Spread :
        (d : ℕ)
        → Spread slabs free full pool extra (d ∷ held)
        → Spread slabs free full pool extra held
    unfolding count
    lose-Spread d w = record {
      once = λ x q. omega (arith, w.once x q);
      free_dslab = w.free_dslab;
      full_dslab = w.full_dslab;
      pool_dslab = w.pool_dslab;
      extra_dslab = w.extra_dslab;
      held_dslab = λ q h. w.held_dslab q (ground (arith, h));
    }

    pub fewer_extra-Spread :
        (extra' : ℕ → List ℕ)
        → Spread slabs free full pool extra held
        → ((x d : ℕ) → count d (extra' x) ≤ count d (extra x))
        → Spread slabs free full pool extra' held
    fewer_extra-Spread extra' w less = record {
      once = λ x d. omega (arith, w.once x d, less x d);
      free_dslab = w.free_dslab;
      full_dslab = w.full_dslab;
      pool_dslab = w.pool_dslab;
      extra_dslab = λ x d h. w.extra_dslab x d (omega (arith, h, less x d));
      held_dslab = w.held_dslab;
    }
