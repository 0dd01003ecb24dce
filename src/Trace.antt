-- ===== src/Trace.antt =====
-- Sequences of calls and background rounds of src/kvcache.cpp, and the map that a client may think the
-- cache is.
pub mod Life
use kvcache.Base.{
  ℕ, Bytes, bytes_eq, bytes_eq_iff, ◌≡◌, ◌∙◌, refl, ap, subst, ◌⊎◌, Bool, Bool-cases, List, [], ◌∷◌,
  Option, none, some, arith, inl, inr, true, false, if◌then◌else◌,
}
use kvcache.Status.{Status, ok_status, not_found_status, is_ok}
use kvcache.Index.{same_entry}
use kvcache.State.{Platform, Config, Cache, done}
use kvcache.Reads.Turn.{Answers}
use kvcache.Gc.{do_slab_gc}
use kvcache.Flush.{do_slab_flush}
use kvcache.Flush.Turn.{do_slab_flush-Flushes}
use kvcache.Api.{get_slice, put, delete}
use kvcache.Api.Delete.{get_slice-delete}
use kvcache.Api.Running.{Running, Flushes-Running, do_slab_gc-Flushes}
use kvcache.Api.Puts.{put-Puts, delete-Running}

-- What happens to the cache: a `Put` that returns OK or another status, a `Delete`, or a round of a
-- background thread.
pub data Event : Type 0 where
  stores : Bytes → Bytes → Event
  refuses : Bytes → Bytes → Event
  deletes : Bytes → Event
  works : Event

-- The map of what was put and not deleted.
abbrev pub Contents : Type 0
Contents = Bytes → Option Bytes

abbrev pub follow : Contents → Event → Contents
follow contents (stores k x) q = if bytes_eq q k then some x else contents q
follow contents (refuses k x) q = contents q
follow contents (deletes k) q = if bytes_eq q k then none else contents q
follow contents works q = contents q

abbrev pub follow_all : Contents → List Event → Contents
follow_all contents [] = contents
follow_all contents (e ∷ es) = follow_all (follow contents e) es

module _ (pf : Platform) (cfg : Config) where
  open pf use {Disk, hashing}

  -- A call or a round that returns.
  pub data Step : Cache Disk → Event → Cache Disk → Type 0 where
    put_stored :
        (gc_fuel flush_fuel fuel : ℕ) {c c' : Cache Disk} (k x : Bytes) (status : Status)
        → put pf cfg gc_fuel flush_fuel fuel c k x ≡ done (status, c')
        → is_ok status ≡ true
        → Step c (stores k x) c'
    put_refused :
        (gc_fuel flush_fuel fuel : ℕ) {c c' : Cache Disk} (k x : Bytes) (status : Status)
        → put pf cfg gc_fuel flush_fuel fuel c k x ≡ done (status, c')
        → is_ok status ≡ false
        → Step c (refuses k x) c'
    deleted : {c : Cache Disk} (k : Bytes) → Step c (deletes k) (delete pf cfg c k)
    flushed :
        (gc_fuel fuel : ℕ) {c c' : Cache Disk} (more : Bool)
        → do_slab_flush pf cfg gc_fuel fuel c ≡ done (more, c')
        → Step c works c'
    collected :
        (gc_fuel : ℕ) {c c' : Cache Disk} (more : Bool)
        → do_slab_gc pf cfg gc_fuel c ≡ done (more, c')
        → Step c works c'

  pub data Trace : Cache Disk → List Event → Cache Disk → Type 0 where
    stop : {c : Cache Disk} → Trace c [] c
    step :
        {a b c : Cache Disk} {e : Event} {es : List Event}
        → Step a e b
        → Trace b es c
        → Trace a (e ∷ es) c

  -- A read answers what the map holds, or that the key is not found.
  abbrev pub Serves : Cache Disk → Contents → Type 0
  Serves c contents =
      (q : Bytes)
      → (get_slice pf cfg c q ≡ done (not_found_status "Key not found", none))
        ⊎ ((v : Bytes) × (contents q ≡ some v) × (get_slice pf cfg c q ≡ done (ok_status, some v)))

  -- One key, where the answer stayed or became that it is not found.
  Serves-Answers :
      (c c' : Cache Disk) (contents contents' : Contents) (q : Bytes)
      → Serves c contents
      → contents' q ≡ contents q
      → Answers true (get_slice pf cfg c' q) (get_slice pf cfg c q)
      → (get_slice pf cfg c' q ≡ done (not_found_status "Key not found", none))
        ⊎ ((v : Bytes) × (contents' q ≡ some v)
            × (get_slice pf cfg c' q ≡ done (ok_status, some v)))
  Serves-Answers c c' contents contents' q s e (inr n) = inl n
  Serves-Answers c c' contents contents' q s e (inl same) = elim (s q) [
    | inl n ↦ inl (same ∙ n)
    | inr (v, held, read) ↦ inr (v, e ∙ held, same ∙ read)
  ]

  Step-Serves :
      (c c' : Cache Disk) (contents : Contents) (e : Event)
      → Running pf cfg c
      → Serves c contents
      → Step c e c'
      → Running pf cfg c' × Serves c' (follow contents e)
  Step-Serves c c' contents _ r s (put_stored gc_fuel flush_fuel fuel k x status p ok) =
      let f = put-Puts pf cfg gc_fuel flush_fuel fuel c c' k x status r p in
      (
        f.running,
        λ q. elim (Bool-cases (bytes_eq q k)) [
          | inl y ↦
              let same : q ≡ k = (bytes_eq_iff q k).0 y in
              inr (x, rw y refl, ap (get_slice pf cfg c') same ∙ f.hit ok)
          | inr n ↦
              Serves-Answers c c' contents (follow contents (stores k x)) q s (rw n refl)
                (f.others q n)
        ],
      )
  Step-Serves c c' contents _ r s (put_refused gc_fuel flush_fuel fuel k x status p bad) =
      let f = put-Puts pf cfg gc_fuel flush_fuel fuel c c' k x status r p in
      (f.running, λ q. Serves-Answers c c' contents contents q s refl (f.refused bad q))
  Step-Serves c _ contents _ r s (deleted k) =
      let c' = delete pf cfg c k in
      let gone = λ (q : Bytes). get_slice-delete pf cfg c k q r.rest.sound in
      (
        delete-Running pf cfg c k r,
        λ q. elim (Bool-cases (same_entry hashing c.index k q)) [
          | inl y ↦ inl (ground (arith, gone q, y))
          | inr n ↦
              let other : bytes_eq q k ≡ false = elim (Bool-cases (bytes_eq q k)) [
                | inl y ↦
                    let same = (bytes_eq_iff q k).0 y in
                    absurd
                      (ground (arith, subst (λ z. same_entry hashing c.index k z ≡ false) same n))
                | inr m ↦ m
              ] in
              Serves-Answers c c' contents (follow contents (deletes k)) q s (rw other refl)
                (inl (ground (arith, gone q, n)))
        ],
      )
  Step-Serves c c' contents _ r s (flushed gc_fuel fuel more p) =
      let f = do_slab_flush-Flushes pf cfg gc_fuel fuel c c' more r.rest r.mslabs p in
      (
        Flushes-Running pf cfg c c' r f,
        λ q. Serves-Answers c c' contents contents q s refl (f.reads q),
      )
  Step-Serves c c' contents _ r s (collected gc_fuel more p) =
      let f = do_slab_gc-Flushes pf cfg gc_fuel c (more, c') r p in
      (
        Flushes-Running pf cfg c c' r f,
        λ q. Serves-Answers c c' contents contents q s refl (f.reads q),
      )

  -- Over any sequence of calls of `Put` and `Delete` and of rounds of flushing and collection that
  -- return, from a state where the invariant holds and every read answers what a map holds or that the
  -- key is not found: at the end the invariant holds, with which each partial slab has a slot left and its
  -- slots inside it, and every read answers what was put last and not deleted since (or what the map held of an untouched
  -- key), or that the key is not found.
  pub Trace-Serves :
      (c c' : Cache Disk) (contents : Contents) (es : List Event)
      → Running pf cfg c
      → Serves c contents
      → Trace c es c'
      → Running pf cfg c' × Serves c' (follow_all contents es)
  Trace-Serves c c' contents _ r s stop = (r, s)
  Trace-Serves c c' contents _ r s (step {b} {e} {es} first rest) =
      let (r', s') = Step-Serves c b contents e r s first in
      Trace-Serves b c' (follow contents e) es r' s' rest
