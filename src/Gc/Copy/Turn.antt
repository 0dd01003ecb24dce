-- ===== src/Gc/Copy/Turn.antt =====
-- A whole call of `gc_dslabs` (src/kvcache.cpp): reads, and the lists of disk slabs.
use kvcache.Base.{
  ℕ, ◌+◌, ◌-◌, ◌<◌, ◌≤◌, ◌≡◌, ◌≢◌, refl, sym, ◌∙◌, ap, subst, List, [], ◌∷◌, some, arith, false,
  update, ◌==◌, Bool-cases, inl, inr,
}
use kvcache.Slab.{reset}
use kvcache.State.{
  Platform, Config, Cache, Ring, Outcome, done, ◌>>=◌, >>=-eq-done, done_injective, gc_buffer, push,
  detach, first_entry, channel_id,
}
use kvcache.Move.{flush_mslab_to_dslab, modify_index_to}
use kvcache.Move.Transfer.{
  Ready, transferred, flush_mslab_to_dslab_done, transferred-Sound, transferred-block_id,
  transferred-nr_alloc, transferred-Unreferenced, transferred-Unreferenced_other,
  get_slice-transferred,
}
use kvcache.Move.Transfer.Spares.{transferred-Spares, transferred-absent, transferred-Imaged}
use kvcache.Reads.{Sound, Unreferenced}
use kvcache.Reads.Turn.{Turn, Turn-trans, touch-Turn, same-Turn}
use kvcache.Lists.{count, first_entry-count, Placed}
use kvcache.Lists.Channels.{OnChannel, listed_block, elsewhere, Spread-slabs}
use kvcache.Lists.Channels.Take.{take_pool-Spread}
use kvcache.Lists.Channels.Give.{give_full-Spread}
use kvcache.Gc.Quick.{channel_of}
use kvcache.Gc.Quick.Evict.{Imaged}
use kvcache.Gc.Copy.{
  take_ops_slab, enlist_ops_slab, retire, prepare_gc_buffer, rescue_all, gc_dslabs,
}
use kvcache.Gc.Copy.Lists.{
  channel_of-OnChannel, Listed, take_ops_slab-Taken, Retired, retire-Retired,
}
use kvcache.Gc.Copy.Slabs.{Emptied, rescue_all-Emptied}

module _ (pf : Platform) (cfg : Config) where
  open pf use {Disk, hashing, read_block, write_block}

  -- Between the steps of a collection that has freed the slabs of `extra`, with `held` in hand.
  pub record Collecting (c : Cache Disk) (extra : ℕ → Ring) (held : List ℕ) : Type 0 where
    pub sound : Sound pf cfg c
    pub imaged : Imaged pf cfg c
    pub idle : Unreferenced pf cfg c (gc_buffer cfg)
    pub placed : Placed cfg c extra held
    pub cleared : (channel d : ℕ) → 0 < count d (extra channel).items → Unreferenced pf cfg c d

  pub unused-Unreferenced :
      (c : Cache Disk) (d : ℕ) → Sound pf cfg c → (c.slabs d).nr_alloc ≡ 0 → Unreferenced pf cfg c d
  unused-Unreferenced c d v z q e p at = ground (arith, (v.points q e p).0, z, at)

  -- The first part: a slab of the pool is full, and the slabs to free are on `free_list`.
  pub record Prepared (c c' : Cache Disk) (free_list free_list' : ℕ → Ring) (ds held : List ℕ)
      (ops : ℕ) : Type 0 where
    pub turn : Turn pf cfg false c c'
    pub index : c'.index ≡ c.index
    pub placed : Placed cfg c' free_list' held
    pub idle : Unreferenced pf cfg c' (gc_buffer cfg)
    pub listed : (channel : ℕ) × (0 < count ops (c'.dslab_full channel).items)
    pub unused : (c'.slabs ops).nr_alloc ≡ 0
    pub extra : (d x : ℕ) → count d (free_list' x).items ≤ count d (free_list x).items + count d ds
    pub full :
        (d x : ℕ) → count d (c.dslab_full x).items ≤ count d (c'.dslab_full x).items + count d ds
    pub in_ds : (d : ℕ) → 0 < count d ds → (b : ℕ) × ((c'.slabs d).block_id ≡ some b)

  module _ (c : Cache Disk) (free_list : ℕ → Ring) (held : List ℕ) (first : ℕ) (ds : List ℕ)
      (ops channel following : ℕ) (s : Collecting c free_list held)
      (l : Listed pf cfg c (first ∷ ds))
      (on : first_entry (c.ops_pool channel).items ≡ some ops) where
    taken : Cache Disk
    taken = record c {
      next_ops_pool_remove_channel = following;
      ops_pool = update c.ops_pool channel (detach ops (c.ops_pool channel));
      ops_pool_size = c.ops_pool_size - 1;
    }

    listed_pool : 0 < count ops (c.ops_pool channel).items
    listed_pool = first_entry-count ops (c.ops_pool channel).items on

    place : OnChannel cfg c.slabs channel ops × ((c.slabs ops).nr_alloc ≡ 0)
    place = s.placed.pool_dslab channel ops listed_pool

    taken-Placed : Placed cfg taken free_list (ops ∷ held)
    unfolding taken
    taken-Placed =
        take_pool-Spread cfg c.slabs (λ x. (c.dslab_free x).items) (λ x. (c.dslab_full x).items)
          (λ x. (c.ops_pool x).items) (λ x. (free_list x).items) held
          (λ x. (taken.ops_pool x).items) channel ops s.placed (λ x. unfold detach in ground arith)
          listed_pool

    taken-Turn : Turn pf cfg false c taken
    unfolding taken
    taken-Turn =
        same-Turn pf cfg c taken s.sound refl refl refl
          (record { free = refl; full = refl; partial = refl })

    enlisted : Cache Disk
    unfolding taken
    enlisted = enlist_ops_slab pf cfg taken ops

    enlisted-Placed : Placed cfg enlisted free_list held
    unfolding enlisted taken enlist_ops_slab
    enlisted-Placed =
        let ((b, p, q), z) = place in
        let clean =
          Spread-slabs cfg c.slabs (λ x. (c.dslab_free x).items) (λ x. (c.dslab_full x).items)
            (λ x. (taken.ops_pool x).items) (λ x. (free_list x).items) (ops ∷ held) enlisted.slabs
            taken-Placed (λ y. unfold reset in ground arith)
            (λ x d h used. unfold reset in ground (arith, used)) in
        give_full-Spread cfg enlisted.slabs (λ x. (c.dslab_free x).items)
          (λ x. (c.dslab_full x).items) (λ x. (taken.ops_pool x).items) (λ x. (free_list x).items)
          held (λ x. (enlisted.dslab_full x).items) (channel_of cfg (c.slabs ops)) ops clean
          (b, unfold reset in ground (arith, p), ground (arith, p))
          (λ x. unfold push in ground arith)

    enlisted-Turn : Turn pf cfg false taken enlisted
    unfolding enlisted taken enlist_ops_slab
    enlisted-Turn =
        let ((b, p, q), z) = place in
        touch-Turn pf cfg taken enlisted ops (reset (c.slabs ops)) taken-Turn.sound refl refl refl
          (unfold reset in refl) (unfold reset in refl) (unfold reset in omega arith)
          (λ i. unfold reset in refl) (inl (λ n. ground (arith, n, p)))
          (inl (unused-Unreferenced taken ops taken-Turn.sound z))
          (record { free = refl; full = refl; partial = refl })

    enlisted-Listed : Listed pf cfg enlisted (first ∷ ds)
    unfolding enlisted taken enlist_ops_slab
    enlisted-Listed d = unfold push reset count in ground (arith, l d)

    enlisted_listed : 0 < count ops (enlisted.dslab_full (channel_of cfg (c.slabs ops))).items
    unfolding enlisted taken enlist_ops_slab
    enlisted_listed = unfold push count in ground arith

    enlisted_full :
        (d x : ℕ) → count d (c.dslab_full x).items ≤ count d (enlisted.dslab_full x).items
    unfolding enlisted taken enlist_ops_slab
    enlisted_full d x = unfold push count in ground arith

    pub retired : Cache Disk × (ℕ → Ring)
    retired = retire pf cfg enlisted (first ∷ ds) free_list

    after_retire : Retired pf cfg enlisted held (first ∷ ds) free_list retired.0 retired.1
    unfolding retired
    after_retire =
        retire-Retired pf cfg (first ∷ ds) enlisted held free_list enlisted-Placed enlisted-Listed

    retired-Turn : Turn pf cfg false c retired.0
    retired-Turn =
        let r = after_retire in
        Turn-trans pf cfg false c taken retired.0 taken-Turn (
          Turn-trans pf cfg false taken enlisted retired.0 enlisted-Turn (
            same-Turn pf cfg enlisted retired.0 enlisted-Turn.sound r.index r.slabs r.disk
              (record { free = r.mslab_free; full = r.mslab_full; partial = r.slab_partial })))

    pub prepared : Cache Disk
    prepared = prepare_gc_buffer pf cfg retired.0 first

    retired_idle : Unreferenced pf cfg retired.0 (gc_buffer cfg)
    unfolding enlisted taken enlist_ops_slab
    retired_idle q e p at = s.idle q e (ground (arith, after_retire.index, p)) at

    prepared-Turn : Turn pf cfg false retired.0 prepared
    unfolding prepared prepare_gc_buffer reset
    prepared-Turn =
        touch-Turn pf cfg retired.0 prepared (gc_buffer cfg) _ retired-Turn.sound refl refl refl
          refl refl (omega arith) (λ i. refl) (inr refl) (inl retired_idle)
          (record { free = refl; full = refl; partial = refl })

    pub prepared-Prepared : Prepared c prepared free_list retired.1 (first ∷ ds) held ops
    unfolding count prepared prepare_gc_buffer
    prepared-Prepared =
        let r = after_retire in
        let ((b, p, q), z) = place in
        let turn = Turn-trans pf cfg false c retired.0 prepared retired-Turn prepared-Turn in
        let clean : (retired.0.slabs ops).nr_alloc ≡ 0 =
          unfold enlisted taken enlist_ops_slab reset in ground (arith, r.slabs) in
        record {
          turn = turn;
          placed =
              unfold reset in
              Spread-slabs cfg retired.0.slabs _ _ _ _ held prepared.slabs r.placed
                (λ y. ground arith) (λ x d h used. ground (arith, used));
          index = unfold enlisted taken enlist_ops_slab in r.index;
          idle = retired_idle;
          listed =
              let home : channel_of cfg (c.slabs ops) ≡ channel =
                channel_of-OnChannel cfg c.slabs channel ops place.0 in
              let none_of_ds : count ops (first ∷ ds) ≡ 0 = omega (
                arith,
                l ops,
                s.placed.once channel ops,
                listed_pool,
                ap (λ (x : ℕ). count ops (c.dslab_full x).items) home,
              ) in
              (
                channel_of cfg (c.slabs ops),
                omega
                    (arith, r.full ops (channel_of cfg (c.slabs ops)), none_of_ds, enlisted_listed),
              );
          unused = unfold reset in ground (arith, clean);
          extra = r.extra;
          full = λ d x. omega (arith, r.full d x, enlisted_full d x);
          in_ds = λ d h.
              let (b', p', q') =
                s.placed.full_dslab (channel_of cfg (c.slabs d)) d (omega (arith, l d, h)) in
              (b', turn.block_id d ∙ p');
        }

  -- From the write of `gc_buffer_` to the slab of the pool to the end.
  module _ (c : Cache Disk) (free_list : ℕ → Ring) (held : List ℕ) (ops b : ℕ) (disk : Disk)
      (v : Sound pf cfg c) (im : Imaged pf cfg c) (w : Placed cfg c free_list held)
      (listed : (channel : ℕ) × (0 < count ops (c.dslab_full channel).items))
      (on : (c.slabs ops).block_id ≡ some b) (unused : (c.slabs ops).nr_alloc ≡ 0)
      (clear : (x d : ℕ) → 0 < count d (free_list x).items → Unreferenced pf cfg c d)
      (write : write_block c.disk b (c.slabs (gc_buffer cfg)) ≡ some disk) where
    ready : Ready pf cfg c (gc_buffer cfg) ops b
    ready = record { from_memory = v.buffer; to_block = on; unused = unused }

    -- The slab of the pool is on a full list, and so on no other.
    apart :
        (x d : ℕ)
        → 0
          < count d (c.dslab_free x).items
            + count d (c.ops_pool x).items
            + count d (free_list x).items
        → d ≢ ops
    apart x d h z =
        let (channel, full) = listed in
        let here : channel ≡ channel_id cfg b =
          elsewhere cfg c.slabs _ _ _ _ held channel ops b w on (omega (arith, full)) in
        let there : x ≡ channel_id cfg b =
          elsewhere cfg c.slabs _ _ _ _ held x ops b w on (ground (arith, h, z)) in
        ground (arith, w.once channel ops, full, here, there, h, z)

    pub moved : Cache Disk
    moved = transferred pf cfg c (gc_buffer cfg) ops disk

    moved-Turn : Turn pf cfg false c moved
    unfolding moved
    moved-Turn = record {
      sound = transferred-Sound pf cfg c (gc_buffer cfg) ops b disk v ready write;
      reads = get_slice-transferred pf cfg c (gc_buffer cfg) ops b disk v ready write;
      imaged = transferred-Imaged pf cfg c (gc_buffer cfg) ops b disk v ready write;
      block_id = transferred-block_id pf cfg c (gc_buffer cfg) ops b disk v ready write;
      spared = λ m p n.
          transferred-Spares pf cfg c (gc_buffer cfg) ops b disk v ready write m n
            (λ z. ground (arith, z, p, on));
      absent = transferred-absent pf cfg c (gc_buffer cfg) ops b disk v ready write;
      memory =
          unfold transferred modify_index_to in record { free = refl; full = refl; partial = refl };
    }

    pub moved-Collecting : Collecting moved free_list held
    unfolding moved
    moved-Collecting = record {
      sound = moved-Turn.sound;
      imaged = moved-Turn.imaged im;
      idle = transferred-Unreferenced pf cfg c (gc_buffer cfg) ops b disk v ready write;
      placed =
          unfold transferred modify_index_to in
          Spread-slabs cfg c.slabs _ _ _ _ held moved.slabs w moved-Turn.block_id (λ x d h z.
            ground (
              arith,
              z,
              apart x d,
              h,
              transferred-nr_alloc pf cfg c (gc_buffer cfg) ops b disk v ready write d,
            ));
      cleared = λ x d h.
          transferred-Unreferenced_other pf cfg c (gc_buffer cfg) ops b disk v ready write d
            (clear x d h) (λ z. apart x d (omega (arith, h)) z);
    }

  pub record Collected (c c' : Cache Disk) (free_list free_list' : ℕ → Ring) (ds held : List ℕ)
      : Type 0 where
    pub turn : Turn pf cfg false c c'
    pub state : Collecting c' free_list' held
    pub full :
        (d x : ℕ) → count d (c.dslab_full x).items ≤ count d (c'.dslab_full x).items + count d ds

  -- The parts together.
  module _ (c ready c₃ : Cache Disk) (free_list free_list' : ℕ → Ring) (ds held : List ℕ)
      (ops b : ℕ) (disk : Disk) (s : Collecting c free_list held)
      (before : Prepared c ready free_list free_list' ds held ops) (e : Emptied pf cfg ready c₃ ds)
      (on : (c.slabs ops).block_id ≡ some b)
      (w : write_block c₃.disk b (c₃.slabs (gc_buffer cfg)) ≡ some disk) where
    off_buffer :
        (x d : ℕ)
        → 0
          < count d (ready.dslab_free x).items
            + count d (ready.dslab_full x).items
            + count d (ready.ops_pool x).items
            + count d (free_list' x).items
        → d ≢ gc_buffer cfg
    off_buffer x d h z =
        let (block, at) = listed_block cfg ready.slabs _ _ _ _ held x d before.placed h in
        ground (arith, at, z, before.turn.sound.buffer)

    c₃-Placed : Placed cfg c₃ free_list' held
    c₃-Placed =
        rw (e.lists.free, e.lists.full, e.lists.pool)
          (Spread-slabs cfg ready.slabs _ _ _ _ held c₃.slabs before.placed e.turn.block_id
            (λ x d h z. e.nr_alloc d (off_buffer x d (omega (arith, h))) ∙ z))

    c₃-clear : (x d : ℕ) → 0 < count d (free_list' x).items → Unreferenced pf cfg c₃ d
    c₃-clear x d h = elim (Bool-cases (count d ds == 0)) [
      | inl y ↦ e.others d (off_buffer x d (omega (arith, h))) (λ q f p at.
          s.cleared x d (ground (arith, h, y, before.extra d x)) q f
            (ground (arith, before.index, p)) at)
      | inr n ↦ e.gone d (ground arith)
    ]

    c₃-listed : (channel : ℕ) × (0 < count ops (c₃.dslab_full channel).items)
    c₃-listed = let (channel, full) = before.listed in (channel, rw e.lists.full full)

    c₃-on : (c₃.slabs ops).block_id ≡ some b
    c₃-on = e.turn.block_id ops ∙ before.turn.block_id ops ∙ on

    c₃-unused : (c₃.slabs ops).nr_alloc ≡ 0
    c₃-unused =
        let (channel, full) = before.listed in
        e.nr_alloc ops (off_buffer channel ops (omega (arith, full))) ∙ before.unused

    pub copied-Collected :
        Collected c (transferred pf cfg c₃ (gc_buffer cfg) ops disk) free_list free_list' ds held
    unfolding moved
    copied-Collected =
        let im = e.turn.imaged (before.turn.imaged s.imaged) in
        let state =
          moved-Collecting c₃ free_list' held ops b disk e.turn.sound im c₃-Placed c₃-listed c₃-on
            c₃-unused c₃-clear w in
        let last =
          moved-Turn c₃ free_list' held ops b disk e.turn.sound im c₃-Placed c₃-listed c₃-on
            c₃-unused c₃-clear w in
        record {
          turn =
              Turn-trans pf cfg false c ready _ before.turn
                (Turn-trans pf cfg false ready c₃ _ e.turn last);
          state = state;
          full = λ d x. unfold transferred modify_index_to in rw e.lists.full (before.full d x);
        }

  -- What `gc_dslabs` does once it has the slab of the pool.
  abbrev with_ops_slab :
      Cache Disk → ℕ → List ℕ → ℕ → (ℕ → Ring) → Outcome (Cache Disk × (ℕ → Ring))
  with_ops_slab c first ds ops free_list =
      let r = retire pf cfg (enlist_ops_slab pf cfg c ops) (first ∷ ds) free_list in
      rescue_all pf cfg (prepare_gc_buffer pf cfg r.0 first) (first ∷ ds) >>= λ c₃.
      flush_mslab_to_dslab pf c₃ (gc_buffer cfg) ops >>= λ c₄.
      done (modify_index_to pf c₄ (gc_buffer cfg) ops, r.1)

  pub gc_dslabs-Collected :
      (c c' : Cache Disk) (free_list free_list' : ℕ → Ring) (held ds : List ℕ)
      → Collecting c free_list held
      → Listed pf cfg c ds
      → gc_dslabs pf cfg c ds free_list ≡ done (c', free_list')
      → Collected c c' free_list free_list' ds held
  unfolding gc_dslabs taken enlisted retired prepared
  gc_dslabs-Collected c c' free_list free_list' held [] s l p = absurd (cc)
  gc_dslabs-Collected c c' free_list free_list' held (first ∷ ds) s l p =
      let ((ops, c₁), q, r) = >>=-eq-done (take_ops_slab pf cfg c) _ p in
      let t = take_ops_slab-Taken pf cfg c ops c₁ q in
      let r' : with_ops_slab (taken c free_list held first ds ops t.channel t.following s l t.first)
            first ds ops free_list
          ≡ done (c', free_list') =
        subst (λ x. with_ops_slab x first ds ops free_list ≡ done (c', free_list')) t.after r in
      let ready = prepared c free_list held first ds ops t.channel t.following s l t.first in
      let before =
        prepared-Prepared c free_list held first ds ops t.channel t.following s l t.first in
      let gone = (retired c free_list held first ds ops t.channel t.following s l t.first).1 in
      let (c₃, ran, r'') = >>=-eq-done (rescue_all pf cfg ready (first ∷ ds)) _ r' in
      let (c₄, wrote_at, last) =
        >>=-eq-done (flush_mslab_to_dslab pf c₃ (gc_buffer cfg) ops) _ r'' in
      let e = rescue_all-Emptied pf cfg (first ∷ ds) ready c₃ before.turn.sound before.in_ds ran in
      let ((b, block, _), _) =
        s.placed.pool_dslab t.channel ops (first_entry-count ops _ t.first) in
      let on : (c₃.slabs ops).block_id ≡ some b =
        e.turn.block_id ops ∙ before.turn.block_id ops ∙ block in
      let (disk, w, same) =
        flush_mslab_to_dslab_done pf cfg c₃ (gc_buffer cfg) ops b c₄ on wrote_at in
      let all =
        copied-Collected c ready c₃ free_list gone (first ∷ ds) held ops b disk s before e block
          w in
      let result : Cache Disk × (ℕ → Ring) =
        (transferred pf cfg c₃ (gc_buffer cfg) ops disk, gone) in
      let final : Cache Disk × (ℕ → Ring) = (c', free_list') in
      let ends : result ≡ final =
        unfold transferred in
        ap (λ (x : Cache Disk). (modify_index_to pf x (gc_buffer cfg) ops, gone)) (sym same)
        ∙ done_injective last in
      subst (λ (x : Cache Disk × (ℕ → Ring)). Collected c x.0 free_list x.1 (first ∷ ds) held) ends
        all
