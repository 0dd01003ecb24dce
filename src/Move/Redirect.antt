-- ===== src/Move/Redirect.antt =====
-- What the loop of `modify_index_to` does to the index.
use kvcache.Base.{
  ℕ, zero, suc, ◌+◌, ◌≡◌, ◌≢◌, refl, ap, ◌∙◌, inl, inr, Bytes, true, ◌&&◌, Option, none, some,
  arith, ◌==◌, ltb, leb, if◌then◌else◌, Option-cases,
}
use kvcache.Index.{Index, IndexEntry, get_index_entry, set_location, same_entry}
use kvcache.Index.Laws.{get-set_location, get_congr}
use kvcache.Index.Unique.{IsUnique, set_location-IsUnique}
use kvcache.Slot.{Slot, key}
use kvcache.Slab.{for_slots}
use kvcache.State.{Platform}
use kvcache.Move.{redirect}

-- An entry of slots `i` to `i + n - 1` of slab `src` now points to the same slot of `dst`.
abbrev pub retarget : ℕ → ℕ → ℕ → ℕ → Option IndexEntry → Option IndexEntry
retarget src dst i n none = none
retarget src dst i n (some e) =
    if e.slab_id == src && (leb i e.slot_id && ltb e.slot_id (i + n))
    then some (record e { slab_id = dst })
    else some e

module _ (pf : Platform) (src dst : ℕ) where
  open pf use {hashing}

  redirect_goes_on :
      (idx : Index) (u : ℕ) (slot : Slot) (i : ℕ) → (redirect pf src dst (idx, u) slot i).1 ≡ true
  unfolding redirect
  redirect_goes_on idx u slot i = ground arith

  redirect-table_size :
      (idx : Index) (u : ℕ) (slot : Slot) (i : ℕ)
      → (redirect pf src dst (idx, u) slot i).0.0.table_size ≡ idx.table_size
  unfolding redirect set_location
  redirect-table_size idx u slot i = ground arith

  redirect-IsUnique :
      (idx : Index) (u : ℕ) (slot : Slot) (i : ℕ)
      → IsUnique idx
      → IsUnique (redirect pf src dst (idx, u) slot i).0.0
  unfolding redirect
  redirect-IsUnique idx u slot i h = elim (Option-cases (get_index_entry hashing idx (key slot))) [
    | inl p ↦ rw (p, redirect) h
    | inr (e, p) ↦
        rw (p, redirect)
          (λ b d.
            ground (arith, h b d, set_location-IsUnique hashing idx (key slot) dst e.slot_id h b d))
  ]

  -- Each entry of slab `src` is found by keys that are the same to the index as the key of its slot.
  abbrev pub Owned : (ℕ → Slot) → Index → Type 0
  Owned memory idx =
      (q : Bytes) (e : IndexEntry)
      → get_index_entry hashing idx q ≡ some e
      → e.slab_id ≡ src
      → same_entry hashing idx (key (memory e.slot_id)) q ≡ true

  redirect-none :
      (idx : Index) (u : ℕ) (slot : Slot) (i : ℕ)
      → get_index_entry hashing idx (key slot) ≡ none
      → (redirect pf src dst (idx, u) slot i).0.0 ≡ idx
  unfolding redirect
  redirect-none idx u slot i p = rw (p, redirect)

  redirect-some :
      (idx : Index) (u : ℕ) (slot : Slot) (i : ℕ) (e : IndexEntry)
      → get_index_entry hashing idx (key slot) ≡ some e
      → (redirect pf src dst (idx, u) slot i).0.0 ≡ (
          if e.slab_id == src && e.slot_id == i
          then set_location hashing idx (key slot) dst e.slot_id
          else idx)
  unfolding redirect
  redirect-some idx u slot i e p = rw (p, redirect) (ground arith)

  get-redirect :
      (idx : Index) (u : ℕ) (memory : ℕ → Slot) (i : ℕ) (q : Bytes)
      → Owned memory idx
      → get_index_entry hashing (redirect pf src dst (idx, u) (memory i) i).0.0 q
        ≡ retarget src dst i 1 (get_index_entry hashing idx q)
  get-redirect idx u memory i q own =
      go (get_index_entry hashing idx (key (memory i))) refl (get_index_entry hashing idx q) refl
    where
      k : Bytes
      k = key (memory i)

      idx' : Index
      idx' = (redirect pf src dst (idx, u) (memory i) i).0.0

      go :
          (o : Option IndexEntry)
          → get_index_entry hashing idx k ≡ o
          → (r : Option IndexEntry) → get_index_entry hashing idx q ≡ r
          → get_index_entry hashing idx' q ≡ retarget src dst i 1 (get_index_entry hashing idx q)
      go none p none r = rw (redirect-none idx u (memory i) i p, r)
      go none p (some f) r =
          rw (redirect-none idx u (memory i) i p)
            (ground (arith, own q f r, get_congr hashing idx k q))
      go (some e) p none r = rw (redirect-some idx u (memory i) i e p) (
          ground (arith, get-set_location hashing idx k q dst e.slot_id, get_congr hashing idx k q))
      go (some e) p (some f) r = rw (redirect-some idx u (memory i) i e p) (
          ground (
            arith,
            own q f r,
            get-set_location hashing idx k q dst e.slot_id,
            get_congr hashing idx k q,
          ))

  redirect-Owned :
      (idx : Index) (u : ℕ) (memory : ℕ → Slot) (i : ℕ)
      → src ≢ dst
      → Owned memory idx
      → Owned memory (redirect pf src dst (idx, u) (memory i) i).0.0
  redirect-Owned idx u memory i apart own q e p o =
      ground
        (arith, redirect-table_size idx u (memory i) i, get-redirect idx u memory i q own, own q e)

  retarget-nothing : (i : ℕ) (o : Option IndexEntry) → o ≡ retarget src dst i 0 o
  retarget-nothing i none = refl
  retarget-nothing i (some e) = ground arith

  retarget-split :
      (i n : ℕ)
      → src ≢ dst
      → (o : Option IndexEntry)
      → retarget src dst (i + 1) n (retarget src dst i 1 o) ≡ retarget src dst i (suc n) o
  retarget-split i n apart none = refl
  retarget-split i n apart (some e) = ground arith

  -- The loop moves the entries of the slots that it passes, and leaves all else.
  pub for_slots-redirect :
      (n i : ℕ) (idx : Index) (u : ℕ) (memory : ℕ → Slot)
      → src ≢ dst
      → IsUnique idx
      → Owned memory idx
      → let after = (for_slots n memory (redirect pf src dst) i (idx, u)).0 in
        IsUnique after
        × (after.table_size ≡ idx.table_size)
        × ((q : Bytes)
            → get_index_entry hashing after q
              ≡ retarget src dst i n (get_index_entry hashing idx q))
  unfolding for_slots
  for_slots-redirect zero i idx u memory apart uniq own =
      (uniq, refl, λ q. retarget-nothing i (get_index_entry hashing idx q))
  for_slots-redirect (suc n) i idx u memory apart uniq own =
      let first = redirect pf src dst (idx, u) (memory i) i in
      let (uniq', size, get) =
        for_slots-redirect n (i + 1) first.0.0 first.0.1 memory apart
          (redirect-IsUnique idx u (memory i) i uniq) (redirect-Owned idx u memory i apart own) in
      rw (redirect_goes_on idx u (memory i) i, for_slots)
        (
          uniq',
          size ∙ redirect-table_size idx u (memory i) i,
          λ q.
              get q
              ∙ ap (retarget src dst (i + 1) n) (get-redirect idx u memory i q own)
              ∙ retarget-split i n apart (get_index_entry hashing idx q),
        )
