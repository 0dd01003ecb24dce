-- ===== src/Lists/Channels/Take.antt =====
-- A disk slab is taken off a list (src/kvcache.cpp), and is in hand.
use kvcache.Base.{
  ℕ, ◌-◌, ◌<◌, ◌≡◌, inl, inr, List, ◌∷◌, arith, update, ◌==◌, ◌&&◌, if◌then◌else◌, Bool-cases,
}
use kvcache.Slab.{Slab}
use kvcache.State.{Config, list_del}
use kvcache.Lists.Count.{count, count-list_del}
use kvcache.Lists.Channels.{Spread, elsewhere}

module _ (cfg : Config) (slabs : ℕ → Slab) (free full pool extra : ℕ → List ℕ) (held : List ℕ) where
  pub take_free-Spread :
      (free' : ℕ → List ℕ) (channel d : ℕ)
      → Spread cfg slabs free full pool extra held
      → ((x : ℕ) → free' x ≡ update free channel (list_del d (free channel)) x)
      → 0 < count d (free channel)
      → Spread cfg slabs free' full pool extra (d ∷ held)
  unfolding count
  take_free-Spread free' channel d w e on =
      let ((b, p, r), _) = w.free_dslab channel d on in
      let at : (x q : ℕ)
          → count q (free' x)
            ≡ (if channel == x && d == q then count q (free x) - 1 else count q (free x)) =
        λ x q. ground (arith, e x, count-list_del d q (free channel)) in
      record {
        once = λ x q. ground (
          arith,
          w.once x q,
          w.once channel q,
          at x q,
          on,
          r,
          elsewhere cfg slabs free full pool extra held x d b w p,
        );
        free_dslab = λ x q h. w.free_dslab x q (ground (arith, at x q, h));
        full_dslab = w.full_dslab;
        pool_dslab = w.pool_dslab;
        extra_dslab = w.extra_dslab;
        held_dslab = λ q h. elim (Bool-cases (d == q)) [
          | inl y ↦ (b, ground (arith, y, p))
          | inr n ↦ w.held_dslab q (ground (arith, n, h))
        ];
      }

  pub take_full-Spread :
      (full' : ℕ → List ℕ) (channel d : ℕ)
      → Spread cfg slabs free full pool extra held
      → ((x : ℕ) → full' x ≡ update full channel (list_del d (full channel)) x)
      → 0 < count d (full channel)
      → Spread cfg slabs free full' pool extra (d ∷ held)
  unfolding count
  take_full-Spread full' channel d w e on =
      let (b, p, r) = w.full_dslab channel d on in
      let at : (x q : ℕ)
          → count q (full' x)
            ≡ (if channel == x && d == q then count q (full x) - 1 else count q (full x)) =
        λ x q. ground (arith, e x, count-list_del d q (full channel)) in
      record {
        once = λ x q. ground (
          arith,
          w.once x q,
          w.once channel q,
          at x q,
          on,
          r,
          elsewhere cfg slabs free full pool extra held x d b w p,
        );
        free_dslab = w.free_dslab;
        full_dslab = λ x q h. w.full_dslab x q (ground (arith, at x q, h));
        pool_dslab = w.pool_dslab;
        extra_dslab = w.extra_dslab;
        held_dslab = λ q h. elim (Bool-cases (d == q)) [
          | inl y ↦ (b, ground (arith, y, p))
          | inr n ↦ w.held_dslab q (ground (arith, n, h))
        ];
      }

  pub take_pool-Spread :
      (pool' : ℕ → List ℕ) (channel d : ℕ)
      → Spread cfg slabs free full pool extra held
      → ((x : ℕ) → pool' x ≡ update pool channel (list_del d (pool channel)) x)
      → 0 < count d (pool channel)
      → Spread cfg slabs free full pool' extra (d ∷ held)
  unfolding count
  take_pool-Spread pool' channel d w e on =
      let ((b, p, r), _) = w.pool_dslab channel d on in
      let at : (x q : ℕ)
          → count q (pool' x)
            ≡ (if channel == x && d == q then count q (pool x) - 1 else count q (pool x)) =
        λ x q. ground (arith, e x, count-list_del d q (pool channel)) in
      record {
        once = λ x q. ground (
          arith,
          w.once x q,
          w.once channel q,
          at x q,
          on,
          r,
          elsewhere cfg slabs free full pool extra held x d b w p,
        );
        free_dslab = w.free_dslab;
        full_dslab = w.full_dslab;
        pool_dslab = λ x q h. w.pool_dslab x q (ground (arith, at x q, h));
        extra_dslab = w.extra_dslab;
        held_dslab = λ q h. elim (Bool-cases (d == q)) [
          | inl y ↦ (b, ground (arith, y, p))
          | inr n ↦ w.held_dslab q (ground (arith, n, h))
        ];
      }

  pub take_extra-Spread :
      (extra' : ℕ → List ℕ) (channel d : ℕ)
      → Spread cfg slabs free full pool extra held
      → ((x : ℕ) → extra' x ≡ update extra channel (list_del d (extra channel)) x)
      → 0 < count d (extra channel)
      → Spread cfg slabs free full pool extra' (d ∷ held)
  unfolding count
  take_extra-Spread extra' channel d w e on =
      let (b, p, r) = w.extra_dslab channel d on in
      let at : (x q : ℕ)
          → count q (extra' x)
            ≡ (if channel == x && d == q then count q (extra x) - 1 else count q (extra x)) =
        λ x q. ground (arith, e x, count-list_del d q (extra channel)) in
      record {
        once = λ x q. ground (
          arith,
          w.once x q,
          w.once channel q,
          at x q,
          on,
          r,
          elsewhere cfg slabs free full pool extra held x d b w p,
        );
        free_dslab = w.free_dslab;
        full_dslab = w.full_dslab;
        pool_dslab = w.pool_dslab;
        extra_dslab = λ x q h. w.extra_dslab x q (ground (arith, at x q, h));
        held_dslab = λ q h. elim (Bool-cases (d == q)) [
          | inl y ↦ (b, ground (arith, y, p))
          | inr n ↦ w.held_dslab q (ground (arith, n, h))
        ];
      }
