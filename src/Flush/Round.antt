-- ===== src/Flush/Round.antt =====
-- A whole round of `do_slab_flush` (src/kvcache.cpp) where a disk slab is free.
use kvcache.Base.{
  ℕ, suc, ◌<◌, ◌≡◌, refl, ◌∙◌, ap, Bytes, true, false, List, [], ◌∷◌, Option, none, some, arith,
  update, ◌-◌,
}
use kvcache.Slab.{Slab}
use kvcache.State.{Platform, Config, Cache, Ring, done, first_entry, detach}
use kvcache.Channel.{find_channel}
use kvcache.Channel.Search.{find_channel-hit, find_channel-miss}
use kvcache.Move.{flush_mslab_to_dslab}
use kvcache.Move.Transfer.{wrote, Ready}
use kvcache.Gc.Copy.{has_items}
use kvcache.Lists.{first_entry-count, Mslabs, Dslabs}
use kvcache.Reads.{Sound}
use kvcache.Reads.Frame.{Keeps, Keeps-Sound, get_slice-Keeps}
use kvcache.Flush.{take_free_dslab, await_free_dslab, flush_pair, finish_flush, do_slab_flush}
use kvcache.Flush.Images.{flush_pair-Imaged}
use kvcache.Gc.Quick.Evict.{Imaged}
use kvcache.Flush.Reads.{flush_pair-Flushed}
use kvcache.Api.{get_slice}

has_items-first :
    (rings : ℕ → Ring) (channel : ℕ)
    → has_items rings channel ≡ true
    → (d : ℕ) × (first_entry (rings channel).items ≡ some d)
unfolding first_entry
has_items-first rings channel p = go (rings channel).items refl
  where
    go :
        (xs : List ℕ)
        → (rings channel).items ≡ xs
        → (d : ℕ) × (first_entry (rings channel).items ≡ some d)
    go [] e = absurd (ground arith)
    go (x ∷ xs) e = (x, ap first_entry e)

module _ (pf : Platform) (cfg : Config) where
  open pf use {Disk, write_block}

  -- The state after disk slab `d` was taken off the free list of `channel`.
  abbrev taken : Cache Disk → ℕ → ℕ → ℕ → Cache Disk
  taken c following channel d = record c {
    next_mslab_flush_channel = following;
    dslab_free = update c.dslab_free channel (detach d (c.dslab_free channel));
    nr_free_dslab = c.nr_free_dslab - 1;
  }

  -- The search ends with a disk slab of a free list.
  record Takes (c : Cache Disk) : Type 0 where
    channel : ℕ
    dslab : ℕ
    following : ℕ
    listed : first_entry (c.dslab_free channel).items ≡ some dslab
    ran : take_free_dslab pf cfg c ≡ (some (channel, dslab), taken c following channel dslab)

  take_free_dslab-Takes :
      (c : Cache Disk) (channel : ℕ)
      → c.next_mslab_flush_channel < cfg.nr_channels
      → channel < cfg.nr_channels
      → has_items c.dslab_free channel ≡ true
      → Takes c
  unfolding take_free_dslab
  take_free_dslab-Takes c channel hb hc p =
      go (find_channel cfg (has_items c.dslab_free) c.next_mslab_flush_channel).0 refl
    where
      go :
          (o : Option ℕ)
          → (find_channel cfg (has_items c.dslab_free) c.next_mslab_flush_channel).0 ≡ o
          → Takes c
      go none e = absurd (
          ground (
            arith,
            p,
            find_channel-miss cfg (has_items c.dslab_free) c.next_mslab_flush_channel channel hb hc
                e,
          ))
      go (some ch) e =
          let hit = find_channel-hit cfg (has_items c.dslab_free) c.next_mslab_flush_channel ch e in
          let (d, first) = has_items-first c.dslab_free ch hit in
          record {
            channel = ch;
            dslab = d;
            following = (find_channel cfg (has_items c.dslab_free) c.next_mslab_flush_channel).1;
            listed = first;
            ran = rw (e, take_free_dslab) (rw (first, take_free_dslab) refl);
          }

  same_slabs :
      (c c' : Cache Disk)
      → c'.index ≡ c.index
      → c'.disk ≡ c.disk
      → c'.slabs ≡ c.slabs
      → Keeps pf cfg c c'
  same_slabs c c' p q r = record {
    chains = ground arith;
    chain_count = ground arith;
    disk = q;
    sid = λ s. rw r;
    block_id = λ s. rw r;
    in_use = λ k e found used. (rw r, rw r used);
  }

  -- The disk takes every block.
  abbrev pub Writable : Disk → Type 0
  Writable disk = (b : ℕ) (image : Slab) → (disk' : Disk) × (write_block disk b image ≡ some disk')

  flush_pair_done :
      (c : Cache Disk) (m channel d b : ℕ)
      → (c.slabs d).block_id ≡ some b
      → Writable c.disk
      → (c' : Cache Disk) × (flush_pair pf cfg c m channel d ≡ done c')
  unfolding flush_pair flush_mslab_to_dslab
  flush_pair_done c m channel d b p w =
      let (disk', q) = w b (c.slabs m) in
      (
        finish_flush pf cfg (wrote pf cfg c m d disk') m channel d,
        rw (p, flush_pair) (rw (q, flush_mslab_to_dslab) refl),
      )

  await_free_dslab_done :
      (gc_fuel fuel : ℕ) (c c₁ : Cache Disk) (found : ℕ × ℕ)
      → take_free_dslab pf cfg c ≡ (some found, c₁)
      → await_free_dslab pf cfg gc_fuel (suc fuel) c ≡ done (some found, c₁)
  unfolding await_free_dslab
  await_free_dslab_done gc_fuel fuel c c₁ found p =
      rw (ap (λ (x : Option (ℕ × ℕ) × Cache Disk). x.0) p, await_free_dslab)
        (ap (λ (x : Option (ℕ × ℕ) × Cache Disk). done (some found, x.1)) p)

  do_slab_flush_done :
      (gc_fuel fuel : ℕ) (c c₁ c' : Cache Disk) (m channel d : ℕ)
      → c.shutdown ≡ false
      → first_entry c.mslab_full.items ≡ some m
      → await_free_dslab pf cfg gc_fuel fuel (record c { mslab_full = detach m c.mslab_full })
        ≡ done (some (channel, d), c₁)
      → flush_pair pf cfg c₁ m channel d ≡ done c'
      → do_slab_flush pf cfg gc_fuel fuel c ≡ done (true, c')
  unfolding do_slab_flush
  do_slab_flush_done gc_fuel fuel c c₁ c' m channel d up full ran pair = ground arith

  -- Where the image of each disk slab has at least the slots of its header in memory, the cache is not
  -- shutting down, a memory slab is full, some channel has a free disk slab and the disk takes writes,
  -- a round of flushing returns and asks for another; the invariant and the condition on images hold
  -- afterwards, and every key reads what it read before.
  pub do_slab_flush-reads :
      (gc_fuel fuel : ℕ) (c : Cache Disk) (m channel : ℕ)
      → Sound pf cfg c
      → Imaged pf cfg c
      → Mslabs cfg c
      → Dslabs cfg c
      → c.shutdown ≡ false
      → first_entry c.mslab_full.items ≡ some m
      → c.next_mslab_flush_channel < cfg.nr_channels
      → channel < cfg.nr_channels
      → has_items c.dslab_free channel ≡ true
      → Writable c.disk
      → (c' : Cache Disk) × (do_slab_flush pf cfg gc_fuel (suc fuel) c ≡ done (true, c'))
        × Sound pf cfg c'
        × Imaged pf cfg c'
        × ((q : Bytes) → get_slice pf cfg c' q ≡ get_slice pf cfg c q)
  do_slab_flush-reads gc_fuel fuel c m channel v im ms ds up full hb hc free w =
      let c₁ = record c { mslab_full = detach m c.mslab_full } in
      let t = take_free_dslab-Takes c₁ channel hb hc free in
      let c₂ = taken c₁ t.following t.channel t.dslab in
      let kept = same_slabs c c₂ refl refl refl in
      let (memory, off) = ms.full_mslab m (first_entry-count m c.mslab_full.items full) in
      let ((b, block, _), unused) =
        ds.free_dslab t.channel t.dslab (first_entry-count t.dslab _ t.listed) in
      let (c', ran) = flush_pair_done c₂ m t.channel t.dslab b block w in
      let ready : Ready pf cfg c₂ m t.dslab b = record {
        from_memory = memory;
        to_block = block;
        unused = unused;
      } in
      let sound = Keeps-Sound pf cfg c c₂ kept v in
      let f = flush_pair-Flushed pf cfg c₂ c' m t.dslab b t.channel sound ready ran in
      (
        c',
        do_slab_flush_done gc_fuel (suc fuel) c c₂ c' m t.channel t.dslab up full
            (await_free_dslab_done gc_fuel fuel c₁ c₂ (t.channel, t.dslab) t.ran) ran,
        f.sound,
        flush_pair-Imaged pf cfg c₂ c' m t.dslab b t.channel sound ready im ran,
        λ q. f.reads q ∙ get_slice-Keeps pf cfg c c₂ kept v q,
      )
