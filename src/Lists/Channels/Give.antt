-- ===== src/Lists/Channels/Give.antt =====
-- The disk slab in hand goes on a list (src/kvcache.cpp).
use kvcache.Base.{
  ℕ, suc, ◌≡◌, inl, inr, List, ◌∷◌, arith, update, ◌==◌, ◌&&◌, if◌then◌else◌, Bool-cases,
}
use kvcache.Slab.{Slab}
use kvcache.State.{Config}
use kvcache.Lists.Count.{count}
use kvcache.Lists.Channels.{OnChannel, Spread}

module _ (cfg : Config) (slabs : ℕ → Slab) (free full pool extra : ℕ → List ℕ) (held : List ℕ) where
  pub give_free-Spread :
      (free' : ℕ → List ℕ) (channel d : ℕ)
      → Spread cfg slabs free full pool extra (d ∷ held)
      → OnChannel cfg slabs channel d
      → (slabs d).nr_alloc ≡ 0
      → ((x : ℕ) → free' x ≡ update free channel (d ∷ free channel) x)
      → Spread cfg slabs free' full pool extra held
  unfolding count
  give_free-Spread free' channel d w (b, p, r) z e =
      let at : (x q : ℕ)
          → count q (free' x)
            ≡ (if channel == x && d == q then suc (count q (free x)) else count q (free x)) =
        λ x q. ground (arith, e x) in
      record {
        once = λ x q. ground (arith, w.once x q, at x q);
        free_dslab = λ x q h. elim (Bool-cases (channel == x && d == q)) [
          | inl y ↦ ((b, ground (arith, y, p), ground (arith, y, r)), ground (arith, y, z))
          | inr n ↦ w.free_dslab x q (ground (arith, at x q, n, h))
        ];
        full_dslab = w.full_dslab;
        pool_dslab = w.pool_dslab;
        extra_dslab = w.extra_dslab;
        held_dslab = λ q h. w.held_dslab q (ground (arith, h));
      }

  pub give_full-Spread :
      (full' : ℕ → List ℕ) (channel d : ℕ)
      → Spread cfg slabs free full pool extra (d ∷ held)
      → OnChannel cfg slabs channel d
      → ((x : ℕ) → full' x ≡ update full channel (d ∷ full channel) x)
      → Spread cfg slabs free full' pool extra held
  unfolding count
  give_full-Spread full' channel d w (b, p, r) e =
      let at : (x q : ℕ)
          → count q (full' x)
            ≡ (if channel == x && d == q then suc (count q (full x)) else count q (full x)) =
        λ x q. ground (arith, e x) in
      record {
        once = λ x q. ground (arith, w.once x q, at x q);
        free_dslab = w.free_dslab;
        full_dslab = λ x q h. elim (Bool-cases (channel == x && d == q)) [
          | inl y ↦ (b, ground (arith, y, p), ground (arith, y, r))
          | inr n ↦ w.full_dslab x q (ground (arith, at x q, n, h))
        ];
        pool_dslab = w.pool_dslab;
        extra_dslab = w.extra_dslab;
        held_dslab = λ q h. w.held_dslab q (ground (arith, h));
      }

  pub give_pool-Spread :
      (pool' : ℕ → List ℕ) (channel d : ℕ)
      → Spread cfg slabs free full pool extra (d ∷ held)
      → OnChannel cfg slabs channel d
      → (slabs d).nr_alloc ≡ 0
      → ((x : ℕ) → pool' x ≡ update pool channel (d ∷ pool channel) x)
      → Spread cfg slabs free full pool' extra held
  unfolding count
  give_pool-Spread pool' channel d w (b, p, r) z e =
      let at : (x q : ℕ)
          → count q (pool' x)
            ≡ (if channel == x && d == q then suc (count q (pool x)) else count q (pool x)) =
        λ x q. ground (arith, e x) in
      record {
        once = λ x q. ground (arith, w.once x q, at x q);
        free_dslab = w.free_dslab;
        full_dslab = w.full_dslab;
        pool_dslab = λ x q h. elim (Bool-cases (channel == x && d == q)) [
          | inl y ↦ ((b, ground (arith, y, p), ground (arith, y, r)), ground (arith, y, z))
          | inr n ↦ w.pool_dslab x q (ground (arith, at x q, n, h))
        ];
        extra_dslab = w.extra_dslab;
        held_dslab = λ q h. w.held_dslab q (ground (arith, h));
      }

  pub give_extra-Spread :
      (extra' : ℕ → List ℕ) (channel d : ℕ)
      → Spread cfg slabs free full pool extra (d ∷ held)
      → OnChannel cfg slabs channel d
      → ((x : ℕ) → extra' x ≡ update extra channel (d ∷ extra channel) x)
      → Spread cfg slabs free full pool extra' held
  unfolding count
  give_extra-Spread extra' channel d w (b, p, r) e =
      let at : (x q : ℕ)
          → count q (extra' x)
            ≡ (if channel == x && d == q then suc (count q (extra x)) else count q (extra x)) =
        λ x q. ground (arith, e x) in
      record {
        once = λ x q. ground (arith, w.once x q, at x q);
        free_dslab = w.free_dslab;
        full_dslab = w.full_dslab;
        pool_dslab = w.pool_dslab;
        extra_dslab = λ x q h. elim (Bool-cases (channel == x && d == q)) [
          | inl y ↦ (b, ground (arith, y, p), ground (arith, y, r))
          | inr n ↦ w.extra_dslab x q (ground (arith, at x q, n, h))
        ];
        held_dslab = λ q h. w.held_dslab q (ground (arith, h));
      }
