-- ===== src/Api/Wait.antt =====
-- The wait of `Put` (src/kvcache.cpp) for a free index entry.
use kvcache.Base.{
  ℕ, zero, suc, ◌≡◌, ◌∙◌, refl, sym, ap, Bool-cases, ◌&&◌, none, some, arith, Option-cases, inl,
  inr, true,
}
use kvcache.Index.{Index, IndexEntry, index_entry_alloc}
use kvcache.State.{Platform, Config, Cache, Outcome, done, done_injective, ◌>>=◌, >>=-eq-done}
use kvcache.Gc.{do_slab_gc}
use kvcache.Flush.Turn.{Flushes, Flushes-refl, Flushes-trans}
use kvcache.Api.{flush_if_full, await_index_entry}
use kvcache.Api.Running.{Running, Flushes-Running, flush_if_full-Flushes, do_slab_gc-Flushes}

module _ (pf : Platform) (cfg : Config) where
  open pf use {Disk, hashing}

  -- The wait for an index entry ended with `e`, and left the index `idx`.
  pub record Waits (c c' : Cache Disk) (e : IndexEntry) : Type 0 where
    pub before : Cache Disk
    pub idx : Index
    pub flushes : Flushes pf cfg c before
    pub cell : index_entry_alloc before.index ≡ some (e, idx)
    pub after : record before { index = idx } ≡ c'

  await_runs :
      (gc_fuel flush_fuel fuel : ℕ) (c : Cache Disk)
      → index_entry_alloc c.index ≡ none
      → (cfg.enable_background_flush && cfg.enable_background_gc) ≡ true
      → await_index_entry pf cfg gc_fuel flush_fuel (suc fuel) c ≡ (
          flush_if_full pf cfg gc_fuel flush_fuel c >>= λ r. do_slab_gc pf cfg gc_fuel r.1 >>= λ s.
          await_index_entry pf cfg gc_fuel flush_fuel fuel s.1)
  unfolding await_index_entry
  await_runs gc_fuel flush_fuel fuel c q y =
      rw (q, await_index_entry) (rw (y, await_index_entry) refl)

  pub await_index_entry-Waits :
      (gc_fuel flush_fuel fuel : ℕ) (c c' : Cache Disk) (e : IndexEntry)
      → Running pf cfg c
      → await_index_entry pf cfg gc_fuel flush_fuel fuel c ≡ done (e, c')
      → Waits c c' e
  unfolding await_index_entry
  await_index_entry-Waits gc_fuel flush_fuel zero c c' e r p = absurd (ground (arith, p))
  await_index_entry-Waits gc_fuel flush_fuel (suc fuel) c c' e r p =
      elim (Option-cases (index_entry_alloc c.index)) [
        | inr ((f, idx), q) ↦
            let same : ◌≡◌ {A = Outcome (IndexEntry × Cache Disk)}
                (done (f, record c { index = idx })) (done (e, c')) =
              ground (arith, p, q) in
            let at = done_injective same in
            record {
              before = c;
              idx = idx;
              flushes = Flushes-refl pf cfg c r.rest;
              cell = q ∙ ap (λ (x : IndexEntry × Cache Disk). some (x.0, idx)) at;
              after = ap (λ (x : IndexEntry × Cache Disk). x.1) at;
            }
        | inl q ↦ elim (Bool-cases (cfg.enable_background_flush && cfg.enable_background_gc)) [
          | inr n ↦ absurd (ground (arith, p, q, n))
          | inl y ↦
              let (flushed, s, t) =
                >>=-eq-done (flush_if_full pf cfg gc_fuel flush_fuel c) _
                  (sym (await_runs gc_fuel flush_fuel fuel c q y) ∙ p) in
              let f = flush_if_full-Flushes pf cfg gc_fuel flush_fuel c flushed r s in
              let running = Flushes-Running pf cfg c flushed.1 r f in
              let (collected, s', t') = >>=-eq-done (do_slab_gc pf cfg gc_fuel flushed.1) _ t in
              let g = do_slab_gc-Flushes pf cfg gc_fuel flushed.1 collected running s' in
              let w =
                await_index_entry-Waits gc_fuel flush_fuel fuel collected.1 c' e
                  (Flushes-Running pf cfg flushed.1 collected.1 running g) t' in
              record {
                before = w.before;
                idx = w.idx;
                flushes =
                    Flushes-trans pf cfg c flushed.1 w.before f
                      (Flushes-trans pf cfg flushed.1 collected.1 w.before g w.flushes);
                cell = w.cell;
                after = w.after;
              }
        ]
      ]
