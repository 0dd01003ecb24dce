-- ===== src/Gc/Copy/Lists.antt =====
-- The lists in `gc_dslabs` (src/kvcache.cpp): a slab of the pool becomes full, and the slabs to free
-- leave the full slabs.
use kvcache.Base.Int.{negsuc, ◌+ℤ◌}
use kvcache.Base.{
  ℕ, ◌+◌, ◌<◌, ◌≤◌, ◌≡◌, refl, List, [], ◌∷◌, Option, none, some, arith, update, ◌==◌,
  if◌then◌else◌, inl, inr, ◌-◌, Option-cases,
}
use kvcache.Slab.{Slab}
use kvcache.State.{Platform, Config, Cache, Ring, done, push, detach, first_entry}
use kvcache.Channel.{find_channel}
use kvcache.Lists.{count, count-list_del, Placed}
use kvcache.Lists.Channels.{OnChannel}
use kvcache.Lists.Channels.Take.{take_full-Spread}
use kvcache.Lists.Channels.Give.{give_extra-Spread}
use kvcache.Gc.Quick.{channel_of}
use kvcache.Gc.Copy.{has_items, take_ops_slab, retire}

-- The channel of a slab that is on one.
pub channel_of-OnChannel :
    (cfg : Config) (slabs : ℕ → Slab) (channel d : ℕ)
    → OnChannel cfg slabs channel d
    → channel_of cfg (slabs d) ≡ channel
channel_of-OnChannel cfg slabs channel d (b, p, q) = ground (arith, p, q)

module _ (pf : Platform) (cfg : Config) where
  open pf use {Disk}

  -- The slabs stand on the full lists of their channels, as often as here.
  abbrev pub Listed : Cache Disk → List ℕ → Type 0
  Listed c ds = (d : ℕ) → count d ds ≤ count d (c.dslab_full (channel_of cfg (c.slabs d))).items

  -- A slab that was taken off the pool.
  pub record Taken (c : Cache Disk) (d : ℕ) (c' : Cache Disk) : Type 0 where
    pub channel : ℕ
    pub first : first_entry (c.ops_pool channel).items ≡ some d
    pub following : ℕ
    pub after : c' ≡ record c {
      next_ops_pool_remove_channel = following;
      ops_pool = update c.ops_pool channel (detach d (c.ops_pool channel));
      ops_pool_size = c.ops_pool_size - 1;
    }

  pub take_ops_slab-Taken :
      (c : Cache Disk) (d : ℕ) (c' : Cache Disk)
      → take_ops_slab pf cfg c ≡ done (d, c')
      → Taken c d c'
  unfolding take_ops_slab
  take_ops_slab-Taken c d c' p =
      go (find_channel cfg (has_items c.ops_pool) c.next_ops_pool_remove_channel).0 refl
    where
      go :
          (o : Option ℕ)
          → (find_channel cfg (has_items c.ops_pool) c.next_ops_pool_remove_channel).0 ≡ o
          → Taken c d c'
      go none e = absurd (ground (arith, p, e))
      go (some channel) e = elim (Option-cases (first_entry (c.ops_pool channel).items)) [
        | inl z ↦ absurd (ground (arith, p, e, z))
        | inr (f, z) ↦ record {
          channel = channel;
          first = ground (arith, p, e, z);
          following = (find_channel cfg (has_items c.ops_pool) c.next_ops_pool_remove_channel).1;
          after = ground (arith, p, e, z);
        }
      ]

  pub record Retired (c : Cache Disk) (held ds : List ℕ) (free_list : ℕ → Ring) (c' : Cache Disk)
      (free_list' : ℕ → Ring) : Type 0 where
    pub placed : Placed cfg c' free_list' held
    pub index : c'.index ≡ c.index
    pub slabs : c'.slabs ≡ c.slabs
    pub disk : c'.disk ≡ c.disk
    pub mslab_free : c'.mslab_free ≡ c.mslab_free
    pub mslab_full : c'.mslab_full ≡ c.mslab_full
    pub slab_partial : c'.slab_partial ≡ c.slab_partial
    pub full :
        (d x : ℕ) → count d (c.dslab_full x).items ≤ count d (c'.dslab_full x).items + count d ds
    pub extra : (d x : ℕ) → count d (free_list' x).items ≤ count d (free_list x).items + count d ds

  pub retire-Retired :
      (ds : List ℕ) (c : Cache Disk) (held : List ℕ) (free_list : ℕ → Ring)
      → Placed cfg c free_list held
      → Listed c ds
      → let r = retire pf cfg c ds free_list in Retired c held ds free_list r.0 r.1
  unfolding retire count
  retire-Retired [] c held free_list w l = record {
    placed = w;
    index = refl;
    slabs = refl;
    disk = refl;
    mslab_free = refl;
    mslab_full = refl;
    slab_partial = refl;
    full = λ d x. omega arith;
    extra = λ d x. omega arith;
  }
  retire-Retired (d ∷ ds) c held free_list w l =
      let channel = channel_of cfg (c.slabs d) in
      let on : 0 < count d (c.dslab_full channel).items = ground (arith, l d) in
      let next = record c {
        dslab_full = update c.dslab_full channel (detach d (c.dslab_full channel));
        nr_full_dslab = c.nr_full_dslab +ℤ negsuc 0;
      } in
      let free_list' = update free_list channel (push d (free_list channel)) in
      let place : OnChannel cfg c.slabs channel d = w.full_dslab channel d on in
      let in_hand =
        take_full-Spread cfg c.slabs (λ x. (c.dslab_free x).items) (λ x. (c.dslab_full x).items)
          (λ x. (c.ops_pool x).items) (λ x. (free_list x).items) held
          (λ x. (next.dslab_full x).items) channel d w (λ x. unfold detach in ground arith) on in
      let given =
        give_extra-Spread cfg c.slabs (λ x. (c.dslab_free x).items) (λ x. (next.dslab_full x).items)
          (λ x. (c.ops_pool x).items) (λ x. (free_list x).items) held (λ x. (free_list' x).items)
          channel d in_hand place (λ x. unfold push in ground arith) in
      let at : (q x : ℕ)
          → count q (next.dslab_full x).items ≡ (
              if channel == x
              then (if d == q
                  then count q (c.dslab_full x).items - 1
                  else count q (c.dslab_full x).items)
              else count q (c.dslab_full x).items) =
        λ q x. unfold detach in ground (arith, count-list_del d q (c.dslab_full channel).items) in
      let got : (q x : ℕ)
          → count q (free_list' x).items ≤ count q (free_list x).items + (if d == q then 1 else 0) =
        λ q x. unfold push in ground arith in
      let rest =
        retire-Retired ds next held free_list' given
          (λ q. ground (arith, l q, at q (channel_of cfg (c.slabs q)))) in
      record {
        placed = rest.placed;
        index = rest.index;
        slabs = rest.slabs;
        disk = rest.disk;
        mslab_free = rest.mslab_free;
        mslab_full = rest.mslab_full;
        slab_partial = rest.slab_partial;
        full = λ q x. ground (arith, rest.full q x, at q x);
        extra = λ q x. ground (arith, rest.extra q x, got q x);
      }
