-- ===== src/Gc/Normal/Select.antt =====
-- The choice of the slabs to merge in `normal_gc` (src/kvcache.cpp): full slabs, each once, and of one
-- class each.
use kvcache.Base.{
  ℕ, zero, suc, ◌+◌, ◌<◌, ◌≤◌, ◌≡◌, ap, List, [], ◌∷◌, ◌++◌, some, arith, ltb, ◌==◌, if◌then◌else◌,
  Bool-cases, inl, inr,
}
use kvcache.Slab.{Slab}
use kvcache.State.{Config, Ring}
use kvcache.Lists.{count}
use kvcache.Lists.Channels.{Spread}
use kvcache.Gc.Quick.{channel_of}
use kvcache.Gc.Copy.Lists.{channel_of-OnChannel}
use kvcache.Gc.Normal.{pq_push, offer, offer_all, offer_channels, of_class, collect}

count-append : (q : ℕ) (xs ys : List ℕ) → count q (xs ++ ys) ≡ count q xs + count q ys
unfolding count
count-append q [] ys = omega arith
count-append q (x ∷ xs) ys = omega (arith, count-append q xs ys)

module _ (slabs : ℕ → Slab) where
  count-pq_push :
      (q d : ℕ) (pq : List ℕ)
      → count q (pq_push slabs d pq) ≡ count q pq + (if d == q then 1 else 0)
  unfolding count pq_push
  count-pq_push q d [] = omega arith
  count-pq_push q d (x ∷ xs) = ground (arith, count-pq_push q d xs)

  count-offer :
      (q room : ℕ) (pq : List ℕ) (d : ℕ)
      → count q (offer slabs room pq d) ≤ count q pq + (if d == q then 1 else 0)
  unfolding count offer
  count-offer q room [] d = ground (arith, count-pq_push q d [])
  count-offer q room (x ∷ xs) d = ground (arith, count-pq_push q d (x ∷ xs), count-pq_push q d xs)

  count-offer_all :
      (q room : ℕ) (pq ds : List ℕ) → count q (offer_all slabs room pq ds) ≤ count q pq + count q ds
  unfolding count offer_all
  count-offer_all q room pq [] = omega arith
  count-offer_all q room pq (d ∷ ds) =
      omega (arith, count-offer q room pq d, count-offer_all q room (offer slabs room pq d) ds)

  pub count-of_class : (q i : ℕ) (ds : List ℕ) → count q (of_class slabs i ds) ≤ count q ds
  unfolding count of_class
  count-of_class q i [] = omega arith
  count-of_class q i (d ∷ ds) =
      let tail = count-append q (of_class slabs i ds) (d ∷ []) in
      unfold count in ground (arith, count-of_class q i ds, tail)

  pub of_class-cid :
      (q i : ℕ) (ds : List ℕ) → 0 < count q (of_class slabs i ds) → (slabs q).cid ≡ some i
  unfolding count of_class
  of_class-cid q i [] h = absurd (omega (arith, h))
  of_class-cid q i (d ∷ ds) h =
      let tail = count-append q (of_class slabs i ds) (d ∷ []) in
      unfold count in ground (arith, of_class-cid q i ds, tail, h)

  pub count-collect : (q moved : ℕ) (ds : List ℕ) → count q (collect slabs moved ds) ≤ count q ds
  unfolding count collect
  count-collect q moved [] = omega arith
  count-collect q moved (d ∷ ds) = ground (arith, count-collect q (moved + (slabs d).nr_used) ds)

module _ (cfg : Config) (slabs : ℕ → Slab) (room : ℕ) (full : ℕ → Ring)
    (free pool extra : ℕ → List ℕ) (held : List ℕ)
    (w : Spread cfg slabs free (λ x. (full x).items) pool extra held) where
  home : (x d : ℕ) → 0 < count d (full x).items → channel_of cfg (slabs d) ≡ x
  home x d h = channel_of-OnChannel cfg slabs x d (w.full_dslab x d h)

  count-offer_channels_below :
      (n d : ℕ)
      → count d (offer_channels slabs room full n) ≤ (
          if ltb (channel_of cfg (slabs d)) n
          then count d (full (channel_of cfg (slabs d))).items
          else 0)
  unfolding offer_channels
  count-offer_channels_below zero d = unfold count in ground arith
  count-offer_channels_below (suc n) d =
      let one = count-offer_all slabs d room (offer_channels slabs room full n) (full n).items in
      let rest = count-offer_channels_below n d in
      elim (Bool-cases (channel_of cfg (slabs d) == n)) [
        | inl y ↦
            let e : channel_of cfg (slabs d) ≡ n = ground arith in
            ground (arith, one, rest, ap (λ (x : ℕ). count d (full x).items) e)
        | inr k ↦ ground (arith, one, rest, k, home n d)
      ]

  pub count-offer_channels :
      (n d : ℕ)
      → count d (offer_channels slabs room full n) ≤ count d (full (channel_of cfg (slabs d))).items
  count-offer_channels n d = ground (arith, count-offer_channels_below n d)
