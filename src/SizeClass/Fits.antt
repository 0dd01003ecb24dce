-- ===== src/SizeClass/Fits.antt =====
-- Which objects the slab classes of src/kvcache.cpp take.
use kvcache.Base.{
  ℕ, ◌+◌, ◌<◌, ◌≤◌, ◌≡◌, ◌↔◌, refl, Bytes, List, [], ◌∷◌, Option, none, some, arith, ltb, length,
  Bool-cases, inl, inr,
}
use kvcache.Slot.{slot_header_size}
use kvcache.State.{SlabClass}
use kvcache.SizeClass.{slot_size, lower_bound, get_slab_class, last_slot_size, max_kv_size}

-- The slot sizes do not fall, from `low` on.
abbrev pub IsSortedFrom : ℕ → List SlabClass → Type 0
IsSortedFrom low [] = Unit {0}
IsSortedFrom low (sc ∷ scs) = (low ≤ sc.slot_size) × IsSortedFrom sc.slot_size scs

-- Every class of the table that is large enough is at least as large as `bound`.
abbrev pub NoSmaller : ℕ → ℕ → List SlabClass → Type 0
NoSmaller size bound [] = Unit {0}
NoSmaller size bound (sc ∷ scs) =
    (size ≤ sc.slot_size → bound ≤ sc.slot_size) × NoSmaller size bound scs

above-NoSmaller :
    (size bound low : ℕ) (table : List SlabClass)
    → bound ≤ low
    → IsSortedFrom low table
    → NoSmaller size bound table
above-NoSmaller size bound low [] h s = tt
above-NoSmaller size bound low (sc ∷ scs) h s =
    (λ _. omega arith, above-NoSmaller size bound sc.slot_size scs (omega arith) s.1)

lower_bound-fits :
    (size low : ℕ) (table : List SlabClass) (sc : SlabClass)
    → IsSortedFrom low table
    → lower_bound size table ≡ some sc
    → (size ≤ sc.slot_size) × NoSmaller size sc.slot_size table
unfolding lower_bound
lower_bound-fits size low [] sc s p = absurd (ground arith)
lower_bound-fits size low (x ∷ xs) sc s p = elim (Bool-cases (ltb x.slot_size size)) [
  | inl small ↦
      let (fits, rest) = lower_bound-fits size x.slot_size xs sc s.1 (ground (arith, p, small)) in
      (fits, (λ h. ground arith, rest))
  | inr large ↦
      let same : x ≡ sc = ground (arith, p, large) in
      (
        ground (arith, same, large),
        (
          λ h. ground (arith, same),
          above-NoSmaller size sc.slot_size x.slot_size xs (ground (arith, same)) s.1,
        ),
      )
]

le-last_slot_size :
    (low : ℕ) (x : SlabClass) (table : List SlabClass)
    → IsSortedFrom low (x ∷ table)
    → low ≤ last_slot_size (x ∷ table)
unfolding last_slot_size
le-last_slot_size low x [] s = s.0
le-last_slot_size low x (y ∷ ys) s = omega (arith, s.0, le-last_slot_size x.slot_size y ys s.1)

lower_bound-none :
    (size : ℕ) (x : SlabClass) (table : List SlabClass)
    → IsSortedFrom x.slot_size table
    → (lower_bound size (x ∷ table) ≡ none) ↔ (last_slot_size (x ∷ table) < size)
unfolding lower_bound last_slot_size
lower_bound-none size x [] s = (λ h. ground arith, λ h. ground arith)
lower_bound-none size x (y ∷ ys) s =
    let ih = lower_bound-none size y ys s.1 in
    let top = le-last_slot_size x.slot_size y ys s in
    elim (Bool-cases (ltb x.slot_size size)) [
      | inl small ↦ (λ h. ih.0 (ground (arith, h, small)), λ h. rw small (ih.1 h))
      | inr large ↦
          (λ h. absurd (ground (arith, h, large)), λ h. absurd (ground (arith, large, top, h)))
    ]

-- On a sorted table an object of `size` bytes goes to a class that holds it, and to the smallest such
-- class.
pub get_slab_class-fits :
    (table : List SlabClass) (size : ℕ) (sc : SlabClass)
    → IsSortedFrom 0 table
    → get_slab_class table size ≡ some sc
    → (size ≤ sc.slot_size) × NoSmaller size sc.slot_size table
unfolding get_slab_class
get_slab_class-fits table size sc s p = go (lower_bound size table) refl
  where
    go :
        (o : Option SlabClass)
        → lower_bound size table ≡ o
        → (size ≤ sc.slot_size) × NoSmaller size sc.slot_size table
    go none e = absurd (ground (arith, e, p))
    go (some x) e =
        lower_bound-fits size 0 table sc s
          (ground (arith, e, p, lower_bound-fits size 0 table x s e))

get_slab_class-none :
    (size : ℕ) (x : SlabClass) (table : List SlabClass)
    → IsSortedFrom 0 (x ∷ table)
    → (get_slab_class (x ∷ table) size ≡ none) ↔ (last_slot_size (x ∷ table) < size)
unfolding get_slab_class
get_slab_class-none size x table s = go (lower_bound size (x ∷ table)) refl
  where
    go :
        (o : Option SlabClass)
        → lower_bound size (x ∷ table) ≡ o
        → (get_slab_class (x ∷ table) size ≡ none) ↔ (last_slot_size (x ∷ table) < size)
    go none e = (λ h. (lower_bound-none size x table s.1).0 e, λ h. rw (e, get_slab_class))
    go (some y) e = (
      λ h. absurd (ground (arith, e, h, lower_bound-fits size 0 (x ∷ table) y s e)),
      λ h. absurd (ground (arith, e, (lower_bound-none size x table s.1).1 h)),
    )

-- On a sorted table whose largest slot has room for a slot header, an object is refused as too large
-- exactly when key and value together are longer than `MaxKVSize`.
pub max_kv_size-exact :
    (x : SlabClass) (table : List SlabClass) (k v : Bytes)
    → IsSortedFrom 0 (x ∷ table)
    → slot_header_size ≤ last_slot_size (x ∷ table)
    → (get_slab_class (x ∷ table) (slot_size k v) ≡ none)
      ↔ (max_kv_size (x ∷ table) < length k + length v)
unfolding max_kv_size slot_size
max_kv_size-exact x table k v s roomy =
    let e = get_slab_class-none (slot_header_size + length k + length v) x table s in
    (λ h. omega (arith, e.0 h), λ h. e.1 (omega arith))
